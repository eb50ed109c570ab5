-- ===== src/Servers/Config.antt =====
-- src/serverlist.cpp, src/server.cpp: the servers that `main` starts from its configuration, and `remove`.
pub mod Stopped
pub mod Stuck
use Prim.Native.Nat.{Ordering, lt, eq, gt}
use instant_send.Prelude.{
  Option, none, some, ℕ, Bool, true, false, List, [], ◌∷◌, ◌++◌, Bytes, codes, if◌then◌else◌,
}
use instant_send.Json.Syntax.{Json, Items, Fields, no_items, item}
use instant_send.Json.Fields.{compare_bytes}
use instant_send.Plugins.{
  Plugins, Call, back, throws, blocks, counted, release, plugin_at, as_creator,
}
use instant_send.Json.Cast.{
  Attempt, value, raised, endless, runtime, ◌>>=◌, as_obj, as_arr, as_str, member,
}

-- `map<string, list<connectionReceiver_t *> >` by its entries in order, a receiver being known by its
-- address.
abbrev pub ServerMap : Type 0
ServerMap = List (Bytes × List ℕ)

-- `servers[name].push_back(p)`
unfoldable pub push_back : Bytes → ℕ → ServerMap → ServerMap
push_back name p [] = (name, p ∷ []) ∷ []
push_back name p ((k, ps) ∷ servers) = elim (compare_bytes name k) [
  | lt ↦ (name, p ∷ []) ∷ (k, ps) ∷ servers
  | eq ↦ (k, ps ++ p ∷ []) ∷ servers
  | gt ↦ (k, ps) ∷ push_back name p servers
]

-- `remove` gives the receivers on which `stop` is called, in order, and the map that is left.
unfoldable pub remove_named : Bytes → ServerMap → List ℕ × ServerMap
remove_named name [] = ([], [])
remove_named name ((k, ps) ∷ servers) =
    let rest = remove_named name servers in
    elim (compare_bytes name k) [
      | lt ↦ ([], (k, ps) ∷ servers)
      | eq ↦ (ps, servers)
      | gt ↦ (rest.0, (k, ps) ∷ rest.1)
    ]

unfoldable pub remove : ServerMap → List ℕ × ServerMap
remove [] = ([], [])
remove ((k, ps) ∷ servers) = let rest = remove servers in (ps ++ rest.0, rest.1)

-- The constructor of `connectionReceiver_t` makes a receiver, or throws, or a call never returns.
pub data Constructed : Type 0 where
  made : ℕ → Plugins → Constructed
  thrown : Plugins → Constructed
  waits : Constructed

-- A call, and what is done behind it and where it throws.
unfoldable pub behind : Call → (Plugins → Constructed) → (Plugins → Constructed) → Constructed
behind (back s) f g = f s
behind (throws s) f g = g s
behind blocks f g = waits

-- The end of a `PluginPtr` or of a `BPluginRef`.
unfoldable pub released : Bytes → (Plugins → Constructed) → Plugins → Constructed
unfolding behind
released name f s = behind (release name s) f f

-- Where the loop over `complugins` gets to.
pub data Loaded : Type 0 where
  in_list : Plugins → ServerMap → Loaded
  stuck : Loaded

-- `new_server` is `newServer` of a plugin: it gives a server, with the address that its receiver has, or
-- it throws or gives none.
module _ {F : Type 0} (try_load : Bytes → Option Bool) (extension : Bytes) (paths : List Bytes)
    (new_server : Bytes → Json F → Option ℕ) where
  -- The creator goes at the end of the initialization of `server`, and `pref` stays with the receiver;
  -- an exception ends `pref` too.
  unfoldable pub server_of : Bytes → Json F → Plugins → Constructed
  server_of name config s = elim (new_server name config) [
    | none ↦ released name (released name thrown) s
    | some p ↦ released name (made p) (counted name s)
  ]

  unfoldable pub construct : Bytes → Json F → Plugins → Constructed
  unfolding behind released
  construct name config s =
      behind (plugin_at try_load extension paths name s)
        (λ s1. behind (as_creator name s1) (server_of name config) (released name thrown)) thrown

  -- The body of the `try` of the loop before the constructor.
  unfoldable pub entry_of : Json F → Attempt (Bytes × Json F)
  entry_of entry = do
    plugin ← as_obj entry
    name ← member (codes "name") plugin >>= as_str
    config ← member (codes "config") plugin
    value (name, config)

  -- `serverList_t::add`, in the `try`: also when `start` throws, the receiver stays in the list.
  unfoldable pub kept : Bytes → Constructed → ServerMap → Loaded
  kept name (made p s) servers = in_list s (push_back name p servers)
  kept name (thrown s) servers = in_list s servers
  kept name waits servers = stuck

  unfoldable pub add_entry : Attempt (Bytes × Json F) → Plugins → ServerMap → Loaded
  add_entry (value (name, config)) s servers = kept name (construct name config s) servers
  add_entry (raised e) s servers = in_list s servers
  add_entry endless s servers = stuck

  -- The loop over `complugins`.
  unfoldable pub load_servers : Items F → Plugins → ServerMap → Loaded
  load_servers no_items s servers = in_list s servers
  load_servers (item entry entries) s servers = elim (add_entry (entry_of entry) s servers) [
    | in_list t more ↦ load_servers entries t more
    | stuck ↦ stuck
  ]
