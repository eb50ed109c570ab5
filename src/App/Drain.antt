-- ===== src/App/Drain.antt =====
-- src/sysapi/posix/appcontrol-platformdependent.cpp: the loop of `freezeMainThread` comes to its end.
use instant_send.Prelude.{
  ℕ, zero, suc, ◌+◌, ◌≤◌, ◌≡◌, ◌≢◌, refl, ◌∙◌, ap, List, [], ◌∷◌, ◌++◌, arith, Bool-cases, inl, inr,
  if◌then◌else◌, ◌==◌, ◌⊎◌,
}
use instant_send.App.{
  test_stop, joining, counting, Holder, free, by_main, by_thread, Process, Step, main_creates,
  thread_creates, counts, push, post, end, sigterm, sigint, unfreeze, load, unload, on_unload,
  loaded, look_stop, look_plugins, look_count, clean, select, select_interrupted, read,
  read_interrupted, lock, join, uncount, unlock, Reach, here, next,
}

abbrev occurrences : ℕ → List ℕ → ℕ
occurrences t [] = 0
occurrences t (x ∷ xs) = (if x == t then 1 else 0) + occurrences t xs

occurrences-append :
    (t : ℕ) (xs ys : List ℕ) → occurrences t (xs ++ ys) ≡ occurrences t xs + occurrences t ys
occurrences-append t [] ys = omega arith
occurrences-append t (x ∷ xs) ys = omega (arith, occurrences-append t xs ys)

occurrences-front : (t : ℕ) (rest : List ℕ) → 1 ≤ occurrences t (t ∷ rest)
occurrences-front t rest = ground arith

abbrev At : ℕ → List ℕ → Type 0
At t l = (xs : List ℕ) × (ys : List ℕ) × (l ≡ xs ++ t ∷ ys)

occurs : (t : ℕ) (l : List ℕ) → 1 ≤ occurrences t l → At t l
occurs t [] le = absurd (omega arith)
occurs t (x ∷ l) le = elim (Bool-cases (x == t)) [
  | inl e ↦ ([], l, ground arith)
  | inr e ↦ let (xs, ys, at) = occurs t l (ground arith) in (x ∷ xs, ys, ap (◌∷◌ x) at)
]

zero_or_more : (n : ℕ) → (n ≡ 0) ⊎ (1 ≤ n)
zero_or_more zero = inl refl
zero_or_more (suc n) = inr (omega arith)

free_or : (h : Holder) → (h ≡ free) ⊎ (h ≢ free)
free_or free = inl refl
free_or (by_main t) = inr (λ e. cc)
free_or (by_thread starter t) = inr (λ e. cc)

-- The queue holds the threads that are behind `push` and not joined.
abbrev Balanced : Process → Type 0
Balanced s =
    (x : ℕ)
    → occurrences x s.thread_queue
      ≡ occurrences x s.posting + occurrences x s.deleting + occurrences x s.ended

Balanced-Step : {s : Process} → Balanced s → {t : Process} → Step s t → Balanced t
Balanced-Step c (main_creates s t e f) = c
Balanced-Step c (thread_creates s t starter xs ys e f) = c
Balanced-Step c (counts s f) = c
Balanced-Step c (push s t xs ys e f g) =
    λ x. omega (arith, c x, occurrences-append x s.thread_queue (t ∷ []))
Balanced-Step c (post s t xs ys e) = λ x.
    omega (
      arith,
      c x,
      ap (occurrences x) e,
      occurrences-append x xs ys,
      occurrences-append x xs (t ∷ ys),
    )
Balanced-Step c (end s t xs ys e) = λ x.
    omega (
      arith,
      c x,
      ap (occurrences x) e,
      occurrences-append x xs ys,
      occurrences-append x xs (t ∷ ys),
    )
Balanced-Step c (sigterm s) = c
Balanced-Step c (sigint s) = c
Balanced-Step c (unfreeze s) = c
Balanced-Step c (load s) = c
Balanced-Step c (unload s n e) = c
Balanced-Step c (on_unload s n e) = c
Balanced-Step c (loaded s e f) = c
Balanced-Step c (look_stop s e) = c
Balanced-Step c (look_plugins s e) = c
Balanced-Step c (look_count s e) = c
Balanced-Step c (clean s e) = c
Balanced-Step c (select s n e f) = c
Balanced-Step c (select_interrupted s e) = c
Balanced-Step c (read s n e f) = c
Balanced-Step c (read_interrupted s e) = c
Balanced-Step c (lock s e) = c
Balanced-Step c (join s t rest xs ys e f g) = λ x. omega (
  arith,
  c x,
  ap (occurrences x) f,
  ap (occurrences x) g,
  occurrences-append x xs ys,
  occurrences-append x xs (t ∷ ys),
)
Balanced-Step c (uncount s e f) = c
Balanced-Step c (unlock s e f) = c

Balanced-Reach : {s : Process} → Reach s → Balanced s
Balanced-Reach here = λ x. refl
Balanced-Reach (next r st) = Balanced-Step (Balanced-Reach r) st

pub data Runs : Process → Process → Type 0 where
  stay : {s : Process} → Runs s s
  go : {s t u : Process} → Step s t → Runs t u → Runs s u

both : {s t u : Process} → Runs s t → Runs t u → Runs s u
both stay k = k
both (go st r) k = go st (both r k)

-- Some steps, in which no live thread takes part, bring `main` and the queue there.
abbrev Comes : (Process → Type 0) → Process → Type 0
Comes P s = (u : Process) × Runs s u × Reach u × (u.live ≡ s.live) × P u

and_then :
    {P Q : Process → Type 0} {s : Process}
    → Comes P s
    → ((u : Process) → Reach u → P u → Comes Q u)
    → Comes Q s
and_then (u, runs, r, same, p) k =
    let (v, more, rv, same2, q) = k u r p in (v, both runs more, rv, same2 ∙ same, q)

by_step :
    {Q : Process → Type 0} (s u : Process) → Reach s → Step s u → u.live ≡ s.live → Q u → Comes Q s
by_step s u r st same q = (u, go st stay, next r st, same, q)

abbrev AtFront : ℕ → List ℕ → Process → Type 0
AtFront t rest s = (s.main ≡ joining) × (s.thread_queue ≡ t ∷ rest)

abbrev HasEnded : ℕ → List ℕ → Process → Type 0
HasEnded t rest s = AtFront t rest s × At t s.ended

from_deleting :
    (t : ℕ) (rest : List ℕ) (s : Process)
    → Reach s
    → AtFront t rest s
    → At t s.deleting
    → Comes (HasEnded t rest) s
from_deleting t rest s r (at, q) (xs, ys, e) =
    by_step s _ r (end s t xs ys e) refl ((at, q), ([], s.ended, refl))

from_posting :
    (t : ℕ) (rest : List ℕ) (s : Process)
    → Reach s
    → AtFront t rest s
    → At t s.posting
    → Comes (HasEnded t rest) s
from_posting t rest s r (at, q) (xs, ys, e) =
    and_then
      (by_step {Q = λ u. AtFront t rest u × At t u.deleting} s _ r (post s t xs ys e) refl
        ((at, q), ([], s.deleting, refl)))
      (λ u ru (f, d). from_deleting t rest u ru f d)

front_ends :
    (t : ℕ) (rest : List ℕ) (s : Process) → Reach s → AtFront t rest s → Comes (HasEnded t rest) s
front_ends t rest s r (at, q) =
    let split = Balanced-Reach r t in
    let waits : 1 ≤ occurrences t s.thread_queue = rw q (occurrences-front t rest) in
    elim (zero_or_more (occurrences t s.ended)) [
      | inr ends ↦ (s, stay, r, refl, ((at, q), occurs t s.ended ends))
      | inl e ↦ elim (zero_or_more (occurrences t s.deleting)) [
        | inr deletes ↦ from_deleting t rest s r (at, q) (occurs t s.deleting deletes)
        | inl d ↦ from_posting t rest s r (at, q) (occurs t s.posting (omega arith))
      ]
    ]

free_holder :
    (rest : List ℕ) (s : Process)
    → Reach s
    → (s.main ≡ counting) × (s.thread_queue ≡ rest)
    → Comes (λ u. (u.main ≡ counting) × (u.thread_queue ≡ rest) × (u.holder ≡ free)) s
free_holder rest s r (at, q) = elim (free_or s.holder) [
  | inl e ↦ (s, stay, r, refl, (at, q, e))
  | inr e ↦ by_step s _ r (counts s e) refl (at, q, refl)
]

take_front :
    (t : ℕ) (rest : List ℕ) (s : Process)
    → Reach s
    → AtFront t rest s
    → Comes (λ u. (u.main ≡ joining) × (u.thread_queue ≡ rest)) s
take_front t rest s r f = and_then (front_ends t rest s r f) (λ u ru ((at, q), (xs, ys, e)).
    and_then (by_step u _ ru (join u t rest xs ys at q e) refl (refl, refl)) (λ v rv p.
      and_then (free_holder rest v rv p)
        (λ w rw_ (at_w, q_w, unheld). by_step w _ rw_ (uncount w at_w unheld) refl (refl, q_w))))

drain_queue :
    (q : List ℕ) (s : Process)
    → Reach s
    → (s.main ≡ joining) × (s.thread_queue ≡ q)
    → Comes (λ u. (u.main ≡ test_stop) × (u.thread_queue ≡ [])) s
drain_queue [] s r (at, e) = by_step s _ r (unlock s at e) refl (refl, e)
drain_queue (t ∷ rest) s r f =
    and_then (take_front t rest s r f) (λ u ru p. drain_queue rest u ru p)

-- While `freezeMainThread` holds the mutex of the queue it is never stuck: from every state in which it
-- is about to join, steps of the threads in the queue, of `start` and of its own bring it to the tests
-- of `main` with the queue empty, and no thread has to leave its `run` for it.
pub drain_ends :
    (s : Process)
    → Reach s
    → s.main ≡ joining
    → (u : Process) × Runs s u × (u.live ≡ s.live) × (u.main ≡ test_stop) × (u.thread_queue ≡ [])
drain_ends s r at =
    let (u, runs, ru, same, rest) = drain_queue s.thread_queue s r (at, refl) in
    (u, runs, same, rest.0, rest.1)
