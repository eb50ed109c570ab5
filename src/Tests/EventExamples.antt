-- ===== src/Tests/EventExamples.antt =====
-- The theorems about src/eventsink.cpp at concrete handlers.
use instant_send.Prelude.{◌≡◌, false, List, [], ◌∷◌, arith, if◌then◌else◌, codes}
use instant_send.Events.{Sink, send_event, unload_all}
use instant_send.Events.Calls.{
  calls, Change, registers, unregisters, changes, is_registered, no_handlers, send_event-once,
}
use instant_send.Events.Unload.{has_owner, unload_all-silences}

abbrev three_changes : List Change
three_changes = registers 0 8 ∷ registers 0 3 ∷ unregisters 0 8 ∷ []

send_event-once_example :
    calls 3 (send_event 0 (changes three_changes no_handlers))
    ≡ (if is_registered 0 3 three_changes false then 1 else 0)
send_event-once_example = send_event-once 0 3 three_changes

abbrev one_plugin : Sink
one_plugin = record { events = λ k. 3 ∷ 8 ∷ []; event_plugins = (codes "notify", (0, 8) ∷ []) ∷ [] }

unload_all-silences_example :
    ((unload_all one_plugin).event_plugins ≡ [])
    × (calls 8 (send_event 0 (unload_all one_plugin))
        ≡ (if has_owner 0 8 one_plugin.event_plugins then 0 else calls 8 (send_event 0 one_plugin)))
unload_all-silences_example = unload_all-silences one_plugin 0 8 (λ k. ground arith)
