-- ===== src/App/Count.antt =====
-- src/sysapi/posix/multithread.cpp: `threadCount` counts the threads that are not joined.
use instant_send.Prelude.{
  ℕ, ◌+◌, ◌≤◌, ◌<◌, ◌^◌, ◌%◌, ◌≡◌, refl, ap, List, [], ◌∷◌, arith, length, length-append,
}
use instant_send.App.{
  Main, loading, test_count, counting, Holder, free, by_main, by_thread, Process, Step,
  main_creates, thread_creates, counts, push, post, end, sigterm, sigint, unfreeze, load, unload,
  on_unload, loaded, look_stop, look_plugins, look_count, clean, select, select_interrupted, read,
  read_interrupted, lock, join, uncount, unlock, Reach, here, next,
}

-- The thread that is joined and still counted, and the one that is created and not counted yet.
abbrev pub joined : Main → ℕ
joined counting = 1
joined _ = 0

abbrev pub uncounted : Holder → ℕ
uncounted free = 0
uncounted (by_main t) = 1
uncounted (by_thread starter t) = 1

abbrev pub threads : Process → ℕ
threads s = length s.live + length s.thread_queue + joined s.main

-- A thread that starts another one is a thread itself.
abbrev starters : Holder → ℕ
starters (by_thread starter t) = 2
starters _ = 0

-- `main` starts threads only before its loops.
abbrev MainStarts : Holder → Main → Type 0
MainStarts (by_main t) m = m ≡ loading
MainStarts _ m = Unit

one_uncounted : (h : Holder) → (h ≡ free → ⊥) → uncounted h ≡ 1
one_uncounted free f = absurd (f refl)
one_uncounted (by_main t) f = refl
one_uncounted (by_thread starter t) f = refl

record Counted (s : Process) : Type 0 where
  exact : (s.thread_count + uncounted s.holder) % 2 ^ 32 ≡ threads s % 2 ^ 32
  small : s.thread_count < 2 ^ 32
  enough : starters s.holder ≤ threads s
  before : MainStarts s.holder s.main

Counted-Step : {s : Process} → Counted s → {t : Process} → Step s t → Counted t
Counted-Step c (main_creates s t e f) = ground arith
Counted-Step c (thread_creates s t starter xs ys e f) =
    ground (arith, ap length e, length-append xs (starter ∷ ys))
Counted-Step c (counts s f) = ground (arith, one_uncounted s.holder f)
Counted-Step c (push s t xs ys e f g) = ground (
  arith,
  ap length e,
  length-append xs ys,
  length-append xs (t ∷ ys),
  length-append s.thread_queue (t ∷ []),
)
Counted-Step c (post s t xs ys e) = ground arith
Counted-Step c (end s t xs ys e) = ground arith
Counted-Step c (sigterm s) = ground arith
Counted-Step c (sigint s) = ground arith
Counted-Step c (unfreeze s) = ground arith
Counted-Step c (load s) = ground arith
Counted-Step c (unload s n e) = ground arith
Counted-Step c (on_unload s n e) = ground arith
Counted-Step c (loaded s e f) = ground arith
Counted-Step c (look_stop s e) = ground arith
Counted-Step c (look_plugins s e) = ground arith
Counted-Step c (look_count s e) = ground arith
Counted-Step c (clean s e) = ground arith
Counted-Step c (select s n e f) = ground arith
Counted-Step c (select_interrupted s e) = ground arith
Counted-Step c (read s n e f) = ground arith
Counted-Step c (read_interrupted s e) = ground arith
Counted-Step c (lock s e) = ground arith
Counted-Step c (join s t rest xs ys e f g) = ground (arith, ap length f)
Counted-Step c (uncount s e f) = ground arith
Counted-Step c (unlock s e f) = ground arith

Counted-Reach : {s : Process} → Reach s → Counted s
Counted-Reach here = ground arith
Counted-Reach (next r st) = Counted-Step (Counted-Reach r) st

-- `threadCount` is at every moment the number of the threads that are not joined, or are joined and not
-- yet counted down, modulo 2 ^ 32 and less the one that `start` has just created.
pub threads_counted :
    (s : Process) → Reach s → (s.thread_count + uncounted s.holder) % 2 ^ 32 ≡ threads s % 2 ^ 32
threads_counted s r = let c = Counted-Reach r in c.exact

empty : (xs : List ℕ) → length xs ≡ 0 → xs ≡ []
empty [] e = refl
empty (x ∷ xs) e = absurd (omega arith)

alone :
    (h : Holder) (m : Main) (total : ℕ)
    → m ≡ test_count
    → MainStarts h m
    → starters h ≤ total
    → uncounted h % 2 ^ 32 ≡ total % 2 ^ 32
    → total < 2 ^ 32
    → total ≡ 0
alone free m total at before enough e few = omega arith
alone (by_main t) m total at before enough e few = absurd cc
alone (by_thread starter t) m total at before enough e few = absurd (omega arith)

-- When the test of a loop of `main` finds `threadCount` to be 0, no thread is left, not even one that
-- another thread has just started, while there are fewer than 2 ^ 32 of them.
pub none_left :
    (s : Process)
    → Reach s
    → s.main ≡ test_count
    → s.thread_count ≡ 0
    → threads s < 2 ^ 32
    → (s.live ≡ []) × (s.thread_queue ≡ [])
none_left s r at zr few =
    let c = Counted-Reach r in
    let none : threads s ≡ 0 =
      alone s.holder s.main (threads s) at c.before c.enough (omega (arith, zr, c.exact)) few in
    (empty s.live (omega arith), empty s.thread_queue (omega arith))
