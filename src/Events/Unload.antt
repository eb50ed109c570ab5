-- ===== src/Events/Unload.antt =====
-- src/eventsink.cpp: `unloadAllEventPlugins` leaves no handler of a plugin behind.
use instant_send.Prelude.{
  ℕ, ◌≡◌, refl, ◌∙◌, Bool, false, ◌&&◌, ◌||◌, List, [], ◌∷◌, arith, ◌==◌, if◌then◌else◌, Bool-cases,
  inl, inr, Bytes,
}
use instant_send.Events.{
  Kind, Registered, Sink, unreg, send_event, unreg_events, unload_each, unload_all,
}
use instant_send.Events.Calls.{calls, Above, Unreg-Above, calls-erase}

-- The sets are in order.
abbrev pub Ascending : Sink → Type 0
Ascending s = (k : Kind) → Above 0 (s.events k)

-- Whether a plugin registers a handler, and whether one of the plugins does.
unfoldable pub is_own : Kind → ℕ → Registered → Bool
is_own k h [] = false
is_own k h ((j, g) ∷ rs) = ((j == k) && (g == h)) || is_own k h rs

unfoldable pub has_owner : Kind → ℕ → List (Bytes × Registered) → Bool
has_owner k h [] = false
has_owner k h ((name, rs) ∷ ps) = is_own k h rs || has_owner k h ps

module _ (k : Kind) (h : ℕ) where
  calls-unreg :
      (j g : ℕ) (s : Sink)
      → Above 0 (s.events k)
      → calls h ((unreg j g s).events k)
        ≡ (if (j == k) && (g == h) then 0 else calls h (s.events k))
  unfolding unreg
  calls-unreg j g s a = elim (Bool-cases (j == k)) [
    | inl same ↦ rw same (calls-erase h g (s.events k) 0 a)
    | inr other ↦ rw other refl
  ]

  Above-unreg_events :
      (rs : Registered) (s : Sink) → Above 0 (s.events k) → Above 0 ((unreg_events rs s).events k)
  unfolding unreg_events
  Above-unreg_events [] s a = a
  Above-unreg_events ((j, g) ∷ rs) s a = Above-unreg_events rs (unreg j g s) (Unreg-Above j k g s a)

  calls-unreg_events :
      (rs : Registered) (s : Sink)
      → Above 0 (s.events k)
      → calls h ((unreg_events rs s).events k) ≡ (if is_own k h rs then 0 else calls h (s.events k))
  unfolding unreg_events is_own
  calls-unreg_events [] s a = refl
  calls-unreg_events ((j, g) ∷ rs) s a =
      let now = calls-unreg j g s a in
      calls-unreg_events rs (unreg j g s) (Unreg-Above j k g s a) ∙ ground arith

  calls-unload_each :
      (ps : List (Bytes × Registered)) (s : Sink)
      → Above 0 (s.events k)
      → calls h ((unload_each ps s).events k)
        ≡ (if has_owner k h ps then 0 else calls h (s.events k))
  unfolding unload_each has_owner
  calls-unload_each [] s a = refl
  calls-unload_each ((name, rs) ∷ ps) s a =
      let t = record s { event_plugins = ps } in
      let now = calls-unreg_events rs t a in
      calls-unload_each ps (unreg_events rs t) (Above-unreg_events rs t a) ∙ ground arith

none_listed : (ps : List (Bytes × Registered)) (s : Sink) → (unload_each ps s).event_plugins ≡ []
unfolding unload_each
none_listed [] s = refl
none_listed ((name, rs) ∷ ps) s = none_listed ps (unreg_events rs (record s { event_plugins = ps }))

-- `unloadAllEventPlugins` ends with no plugin loaded, and behind it an event calls no handler that one of
-- the plugins had registered for it, and every other handler as often as before.
pub unload_all-silences :
    (s : Sink) (k : Kind) (h : ℕ)
    → Ascending s
    → ((unload_all s).event_plugins ≡ [])
      × (calls h (send_event k (unload_all s))
          ≡ (if has_owner k h s.event_plugins then 0 else calls h (send_event k s)))
unfolding unload_all send_event
unload_all-silences s k h ascending =
    (none_listed s.event_plugins s, calls-unload_each k h s.event_plugins s (ascending k))
