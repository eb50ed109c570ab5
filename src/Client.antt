-- ===== src/Client.antt =====
-- src/client.cpp: how the client finds a way to a target.
pub mod Ways
pub mod Upload
pub mod Entry
pub mod Main
use instant_send.Prelude.{
  ℕ, zero, suc, ◌+◌, Bool, true, false, List, Option, none, some, if◌then◌else◌, Bytes, codes,
}
use instant_send.Json.Syntax.{Json, Items, Fields, no_items, item}
use instant_send.Json.Object.{found, not_exist, gie}
use instant_send.Json.Cast.{Attempt, value, raised, endless, ◌>>=◌, as_obj, as_str, member}
use instant_send.Plugins.{
  Handle, Plugins, Call, back, throws, blocks, counted, release, plugin_at, as_creator,
}

-- A round of `findWay`: it returns a client, or goes on, or a call never returns.
pub data Tried : Type 0 where
  connected skipped : Plugins → Tried
  stuck : Tried

-- `findWay` returns the client of a way, or throws, or never returns.
pub data Way : Type 0 where
  chosen : ℕ → Plugins → Way
  no_way : Plugins → Way
  hangs : Way

-- The end of a round.
unfoldable pub next_way : ℕ → (Plugins → Way) → Tried → Way
next_way i more (connected s) = chosen i s
next_way i more (skipped s) = more s
next_way i more stuck = hangs

-- A call, and what is done behind it and where it throws.
unfoldable pub and_then : Call → (Plugins → Tried) → (Plugins → Tried) → Tried
and_then (back s) f g = f s
and_then (throws s) f g = g s
and_then blocks f g = stuck

-- The end of the `PluginPtr`, if there is one, and then of the `BPluginRef`.
unfoldable pub release_one : Bytes → (Plugins → Tried) → Plugins → Tried
unfolding and_then
release_one name f s = and_then (release name s) f f

unfoldable pub release_both : Bytes → (Plugins → Tried) → Plugins → Tried
release_both name f s = release_one name (release_one name f) s

module _ {F : Type 0} where
  -- The way and the name of its plugin.
  unfoldable pub plugin_of : Json F → Attempt (Bytes × Fields F)
  plugin_of way = do
    m ← as_obj way
    plugin ← member (codes "plugin") m
    name ← as_str plugin
    value (name, m)

-- `connect` is `newClient` of a plugin with a configuration: whether it returns a client.
module _ {F : Type 0} (try_load : Bytes → Option Bool) (extension : Bytes) (paths : List Bytes)
    (connect : Bytes → Json F → Bool) where
  unfoldable pub try_client : Bytes → Fields F → Plugins → Tried
  try_client name way s = elim (gie (codes "config") way) [
    | not_exist k ↦ release_both name skipped s
    | found config ↦
        if connect name config
        then release_both name connected (counted name s)
        else release_both name skipped s
  ]

  unfoldable pub try_plugin : Bytes → Fields F → Plugins → Tried
  unfolding and_then
  try_plugin name way s =
      and_then (plugin_at try_load extension paths name s)
        (λ s1. and_then (as_creator name s1) (try_client name way) (release_one name skipped))
        skipped

  unfoldable pub try_way : Attempt (Bytes × Fields F) → Plugins → Tried
  try_way (value (name, m)) s = try_plugin name m s
  try_way (raised e) s = skipped s
  try_way endless s = stuck

  -- The loop, from an index.
  unfoldable pub find_way : ℕ → Items F → Plugins → Way
  find_way i no_items s = no_way s
  find_way i (item way ways) s = next_way i (find_way (i + 1) ways) (try_way (plugin_of way) s)
