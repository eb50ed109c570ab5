-- ===== src/Events/Calls.antt =====
-- src/eventsink.cpp: an event reaches the handlers that are registered for it, each once.
use instant_send.Prelude.{
  ℕ, suc, ◌+◌, ◌≤◌, ◌<◌, ◌≡◌, ltb, refl, ◌∙◌, Bool, true, false, ◌&&◌, List, [], ◌∷◌, arith, ◌==◌,
  if◌then◌else◌, Bool-cases, inl, inr,
}
use instant_send.Events.{Kind, insert, erase, Sink, reg, unreg, send_event}

-- How often a handler is called.
abbrev pub calls : ℕ → List ℕ → ℕ
calls h [] = 0
calls h (x ∷ xs) = (if x == h then 1 else 0) + calls h xs

-- They ascend from `low` on.
abbrev pub Above : ℕ → List ℕ → Type 0
Above low [] = Unit
Above low (x ∷ xs) = (low ≤ x) × Above (suc x) xs

Above-lower : (low high : ℕ) (xs : List ℕ) → low ≤ high → Above high xs → Above low xs
Above-lower low high [] le a = tt
Above-lower low high (y ∷ ys) le (gr, a) = (omega arith, a)

calls-Above : (h low : ℕ) (xs : List ℕ) → Above low xs → h < low → calls h xs ≡ 0
calls-Above h low [] a le = refl
calls-Above h low (y ∷ ys) (gr, a) le = ground (arith, calls-Above h (suc y) ys a)

insert-Above : (low h : ℕ) (xs : List ℕ) → low ≤ h → Above low xs → Above low (insert h xs)
unfolding insert
insert-Above low h [] gr a = (gr, tt)
insert-Above low h (x ∷ xs) gr (lo, a) = elim (Bool-cases (ltb h x)) [
  | inl less ↦ rw less (gr, (ground arith, a))
  | inr not_less ↦ elim (Bool-cases (h == x)) [
    | inl same ↦ rw (not_less, same) (lo, a)
    | inr other ↦ rw (not_less, other) (lo, insert-Above (suc x) h xs (ground arith) a)
  ]
]

erase-Above : (low h : ℕ) (xs : List ℕ) → Above low xs → Above low (erase h xs)
unfolding erase
erase-Above low h [] a = tt
erase-Above low h (x ∷ xs) (lo, a) = elim (Bool-cases (x == h)) [
  | inl e ↦ rw e (Above-lower low (suc x) xs (omega arith) a)
  | inr e ↦ rw e (lo, erase-Above (suc x) h xs a)
]

calls-insert :
    (g h : ℕ) (xs : List ℕ) (low : ℕ)
    → Above low xs
    → calls g (insert h xs) ≡ (if h == g then 1 else calls g xs)
unfolding insert
calls-insert g h [] low a = ground arith
calls-insert g h (x ∷ xs) low (lo, a) = elim (Bool-cases (ltb h x)) [
  | inl less ↦ rw less (ground (arith, calls-Above g (suc x) xs a))
  | inr not_less ↦ elim (Bool-cases (h == x)) [
    | inl same ↦ rw (not_less, same) (ground (arith, calls-Above g (suc x) xs a))
    | inr other ↦ rw (not_less, other) (ground (arith, calls-insert g h xs (suc x) a))
  ]
]

pub calls-erase :
    (g h : ℕ) (xs : List ℕ) (low : ℕ)
    → Above low xs
    → calls g (erase h xs) ≡ (if h == g then 0 else calls g xs)
unfolding erase
calls-erase g h [] low a = ground arith
calls-erase g h (x ∷ xs) low (lo, a) = elim (Bool-cases (x == h)) [
  | inl e ↦ rw e (ground (arith, calls-Above g (suc x) xs a))
  | inr e ↦ rw e (ground (arith, calls-erase g h xs (suc x) a))
]

-- The calls of `reg...` and `unreg...` that were made.
pub data Change : Type 0 where
  registers unregisters : Kind → ℕ → Change

unfoldable pub changes : List Change → Sink → Sink
changes [] s = s
changes (registers k h ∷ cs) s = changes cs (reg k h s)
changes (unregisters k h ∷ cs) s = changes cs (unreg k h s)

-- Whether the last of them about a handler registers it.
unfoldable pub is_registered : Kind → ℕ → List Change → Bool → Bool
is_registered k h [] before = before
is_registered k h (registers j g ∷ cs) before =
    is_registered k h cs (if (j == k) && (g == h) then true else before)
is_registered k h (unregisters j g ∷ cs) before =
    is_registered k h cs (if (j == k) && (g == h) then false else before)

abbrev once : Bool → ℕ
once b = if b then 1 else 0

Reg-Above : (j k g : ℕ) (s : Sink) → Above 0 (s.events k) → Above 0 ((reg j g s).events k)
unfolding reg
Reg-Above j k g s a = elim (Bool-cases (j == k)) [
  | inl e ↦ rw e (insert-Above 0 g (s.events k) (omega arith) a)
  | inr e ↦ rw e a
]

pub Unreg-Above : (j k g : ℕ) (s : Sink) → Above 0 (s.events k) → Above 0 ((unreg j g s).events k)
unfolding unreg
Unreg-Above j k g s a = elim (Bool-cases (j == k)) [
  | inl e ↦ rw e (erase-Above 0 g (s.events k) a)
  | inr e ↦ rw e a
]

calls-reg :
    (j k g h : ℕ) (before : Bool) (s : Sink)
    → Above 0 (s.events k)
    → calls h (s.events k) ≡ once before
    → calls h ((reg j g s).events k) ≡ once (if (j == k) && (g == h) then true else before)
unfolding reg
calls-reg j k g h before s a e = elim (Bool-cases (j == k)) [
  | inl same ↦ rw same (calls-insert h g (s.events k) 0 a ∙ ground arith)
  | inr other ↦ rw other (ground arith)
]

calls-unreg :
    (j k g h : ℕ) (before : Bool) (s : Sink)
    → Above 0 (s.events k)
    → calls h (s.events k) ≡ once before
    → calls h ((unreg j g s).events k) ≡ once (if (j == k) && (g == h) then false else before)
unfolding unreg
calls-unreg j k g h before s a e = elim (Bool-cases (j == k)) [
  | inl same ↦ rw same (calls-erase h g (s.events k) 0 a ∙ ground arith)
  | inr other ↦ rw other (ground arith)
]

calls-changes :
    (k h : ℕ) (cs : List Change) (before : Bool) (s : Sink)
    → Above 0 (s.events k)
    → calls h (s.events k) ≡ once before
    → calls h ((changes cs s).events k) ≡ once (is_registered k h cs before)
unfolding changes is_registered
calls-changes k h [] before s a e = e
calls-changes k h (registers j g ∷ cs) before s a e =
    calls-changes k h cs _ (reg j g s) (Reg-Above j k g s a) (calls-reg j k g h before s a e)
calls-changes k h (unregisters j g ∷ cs) before s a e =
    calls-changes k h cs _ (unreg j g s) (Unreg-Above j k g s a) (calls-unreg j k g h before s a e)

abbrev pub no_handlers : Sink
no_handlers = record { events = λ k. []; event_plugins = [] }

-- After any calls of `reg...` and `unreg...`, an event calls a handler once when the last of them about
-- that handler and the type of the event registers it, and else not at all.
pub send_event-once :
    (k : Kind) (h : ℕ) (cs : List Change)
    → calls h (send_event k (changes cs no_handlers))
      ≡ (if is_registered k h cs false then 1 else 0)
unfolding send_event
send_event-once k h cs = calls-changes k h cs false no_handlers tt refl
