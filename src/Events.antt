-- ===== src/Events.antt =====
-- src/eventsink.cpp, src/eventsink.h: who is told of events, and the plugins that want to be.
pub mod Calls
pub mod Unload
use Prim.Native.Nat.{Ordering, lt, eq, gt}
use instant_send.Prelude.{
  ℕ, Bool, true, false, List, [], ◌∷◌, ◌++◌, ◌==◌, ltb, if◌then◌else◌, Bytes, codes,
}
use instant_send.Json.Syntax.{Json, Fields, no_fields, field}
use instant_send.Json.Fields.{compare_bytes}
use instant_send.Json.Cast.{Attempt, value, raised, endless, runtime}

-- The types of events by the place of their EVENTTYPE: Progress, Connections, Receive, Send, Server and
-- Plugin. A handler is known by its address.
abbrev pub Kind : Type 0
Kind = ℕ

-- `set<..._t *>` by its elements in order.
unfoldable pub insert : ℕ → List ℕ → List ℕ
insert h [] = h ∷ []
insert h (x ∷ xs) =
    let rest = insert h xs in if ltb h x then h ∷ x ∷ xs else if h == x then x ∷ xs else x ∷ rest

unfoldable pub erase : ℕ → List ℕ → List ℕ
erase h [] = []
erase h (x ∷ xs) = let rest = erase h xs in if x == h then xs else x ∷ rest

-- What the plugin of a name registers itself for.
abbrev pub Registered : Type 0
Registered = List (Kind × ℕ)

-- `eventPlugins` by its entries in order.
pub record Sink : Type 0 where
  pub events : Kind → List ℕ
  pub event_plugins : List (Bytes × Registered)

-- `reg...` and `unreg...`
unfoldable pub reg : Kind → ℕ → Sink → Sink
reg k h s = record s { events = λ j. if k == j then insert h (s.events j) else s.events j }

unfoldable pub unreg : Kind → ℕ → Sink → Sink
unreg k h s = record s { events = λ j. if k == j then erase h (s.events j) else s.events j }

-- `sendEvent`: the handlers that are called, in order.
unfoldable pub send_event : Kind → Sink → List ℕ
send_event k s = s.events k

-- `regEvents` and `unregEvents` of a plugin.
unfoldable pub reg_events : Registered → Sink → Sink
reg_events [] s = s
reg_events ((k, h) ∷ rs) s = reg_events rs (reg k h s)

unfoldable pub unreg_events : Registered → Sink → Sink
unreg_events [] s = s
unreg_events ((k, h) ∷ rs) s = unreg_events rs (unreg k h s)

-- `eventPlugins.count(name)`
unfoldable pub is_loaded : Bytes → List (Bytes × Registered) → Bool
is_loaded name [] = false
is_loaded name ((k, rs) ∷ ps) = elim (compare_bytes name k) [
  | lt ↦ false
  | eq ↦ true
  | gt ↦ is_loaded name ps
]

-- `eventPlugins[name] = plugin`
unfoldable pub keep : Bytes → Registered → List (Bytes × Registered) → List (Bytes × Registered)
keep name rs [] = (name, rs) ∷ []
keep name rs ((k, qs) ∷ ps) = elim (compare_bytes name k) [
  | lt ↦ (name, rs) ∷ (k, qs) ∷ ps
  | eq ↦ (k, rs) ∷ ps
  | gt ↦ (k, qs) ∷ keep name rs ps
]

-- `unloadAllEventPlugins`
unfoldable pub unload_each : List (Bytes × Registered) → Sink → Sink
unload_each [] s = record s { event_plugins = [] }
unload_each ((k, rs) ∷ ps) s = unload_each ps (unreg_events rs (record s { event_plugins = ps }))

unfoldable pub unload_all : Sink → Sink
unload_all s = unload_each s.event_plugins s

-- What the list of plugins and `regEvents` make of a name and a configuration: an exception, or what the
-- plugin registers.
module _ {F : Type 0} (plugin_of : Bytes → Json F → Attempt Registered) where
  unfoldable pub load_event_plugin : Bytes → Json F → Sink → Attempt Sink
  load_event_plugin name config s =
      if is_loaded name s.event_plugins
      then raised (runtime (codes "Plugin " ++ (name ++ codes " already loaded")))
      else elim (plugin_of name config) [
        | value rs ↦
            value (reg_events rs (record s { event_plugins = keep name rs s.event_plugins }))
        | raised e ↦ raised e
        | endless ↦ endless
      ]

  -- `autoLoad`, as long as it gets on: an exception is printed.
  unfoldable pub auto_load : Fields F → Sink → Attempt Sink
  auto_load no_fields s = value s
  auto_load (field name config m) s = elim (load_event_plugin name config s) [
    | value t ↦ auto_load m t
    | raised e ↦ auto_load m s
    | endless ↦ endless
  ]
