-- ===== src/Tests/ServerExamples.antt =====
-- The theorems about the servers at concrete configurations and receivers.
use mathlib.Core.List.{Perm}
use instant_send.Prelude.{
  Bool, Option, none, some, if◌then◌else◌, ℕ, ◌≤◌, ◌≡◌, refl, true, false, not, ◌&&◌, [], ◌∷◌,
  Bytes, codes, length,
}
use instant_send.Json.Syntax.{Json, Items, str, int, obj, no_items, item, no_fields, field}
use instant_send.Json.Cast.{member}
use instant_send.Json.Object.{gie}
use instant_send.Json.Fields.{map_find, compare_bytes}
use instant_send.Json.Loader.{bytes_eq}
use instant_send.Servers.{
  Receiver, added, accepting, serving, deleted, locked, cleared, holds, is_deleted, begin, accept,
  check_running, call_stop, clear_running, Reach, here, next, Runs,
}
use instant_send.Servers.Stopping.{counts, stop_safe, stop_deleted}
use instant_send.Servers.Config.{ServerMap, in_list, load_servers, remove, entry_of}
use instant_send.Plugins.{Plugins, load_plugin}
use instant_send.Plugins.Used.{Ready}
use instant_send.Prelude.{inr}
use instant_send.Servers.Config.{stuck}
use instant_send.Servers.Config.Stuck.{Names, Fails, load_servers-stuck}
use instant_send.Servers.Config.Stopped.{receivers, AllLoadable, remove-load_servers}
use instant_send.Tests.JsonRuns.{Term}

-- A client passes `checkRunning`, then `stop` clears the flag.
abbrev stopping : Receiver
stopping = record added { stage = serving; stop = cleared; running = false; running_servers = 1 }

stopping-Reach : Reach stopping
stopping-Reach =
    next
      (next (next (next (next here (begin _ refl)) (accept _ refl)) (check_running _ refl refl))
        (call_stop _ refl refl))
      (clear_running _ refl)

stop_safe_example :
    ((holds stopping.stop && not stopping.called_past && is_deleted stopping.stage) ≡ false)
    × (stopping.late ≤ 1)
    × (stopping.running_servers ≡ counts stopping.stage)
stop_safe_example = stop_safe stopping stopping-Reach

abbrev listening : Receiver
listening = record added { stage = accepting; running_servers = 1 }

stop_deleted_example :
    (u : Receiver) × Runs listening u
    × (u.stage ≡ deleted)
    × (u.stop ≡ locked)
    × (u.listed ≡ true)
    × (u.clients ≡ listening.clients)
stop_deleted_example = stop_deleted listening (next here (begin _ refl)) refl refl refl

-- A server that has a name and a configuration, and an entry that is no object.
abbrev entries : Items Term
entries = item (int 3) (
    item
      (obj (field (codes "config") (int 1) (field (codes "name") (str (codes "ip4tcp")) no_fields)))
      no_items)

-- A library that can be loaded and makes connections, at the first path.
abbrev tcp_there : Bytes → Option Bool
tcp_there path = if bytes_eq path (codes "/lib/ip4tcp.so") then some true else none

abbrev by_name : Bytes → Json Term → Option ℕ
by_name name config = some (length name)

abbrev nothing_loaded : Plugins
nothing_loaded = record { storage = λ name. none; locked = false }

remove-load_servers_example :
    (t : Plugins) × (end : ServerMap) × (load_servers tcp_there
        (codes ".so")
        (codes "/lib" ∷ [])
        by_name
        entries
        nothing_loaded
        []
      ≡ in_list t end)
    × Ready tcp_there (codes ".so") (codes "/lib" ∷ []) t
    × Perm (receivers tcp_there (codes ".so") (codes "/lib" ∷ []) by_name entries) ((remove end).0)
    × ((remove end).1 ≡ [])
unfolding AllLoadable entry_of member gie map_find compare_bytes load_plugin bytes_eq
remove-load_servers_example =
    remove-load_servers tcp_there (codes ".so") (codes "/lib" ∷ []) by_name entries nothing_loaded
      (tt, ((true, refl), tt)) (refl, λ n h e. absurd cc)

abbrev named_entry : Bytes → Json Term
named_entry name = obj (field (codes "config") (int 1) (field (codes "name") (str name) no_fields))

-- The library of the first one is not there.
abbrev one_missing : Items Term
one_missing = item (named_entry (codes "ip6tcp")) (item (named_entry (codes "ip4tcp")) no_items)

load_servers-stuck_example :
    load_servers tcp_there (codes ".so") (codes "/lib" ∷ []) by_name one_missing nothing_loaded []
    ≡ stuck
unfolding Fails Names entry_of member gie map_find compare_bytes load_plugin bytes_eq
load_servers-stuck_example =
    load_servers-stuck tcp_there (codes ".so") (codes "/lib" ∷ []) by_name one_missing
      nothing_loaded [] (refl, λ n h e. absurd cc) (inr (refl, tt))
