-- ===== src/App/Wake.antt =====
-- src/sysapi/posix/appcontrol-platformdependent.cpp: `freezeMainThread` misses no wake-up.
use instant_send.Prelude.{
  ℕ, ◌+◌, ◌≤◌, ◌≡◌, ◌≢◌, refl, ap, Bool, true, false, List, [], ◌∷◌, arith, length, length-append,
  Bool-cases, inl, inr,
}
use instant_send.App.{
  Main, test_plugins, test_count, selecting, reading, locking, joining, counting, left, Process,
  stop_flag, Step, main_creates, thread_creates, counts, push, post, end, sigterm, sigint, unfreeze,
  load, unload, on_unload, loaded, look_stop, look_plugins, look_count, clean, select,
  select_interrupted, read, read_interrupted, lock, join, uncount, unlock, Reach, here, next,
}

-- `main` will look into the queue only after a byte, or after its next tests.
abbrev idle : Main → Bool
idle locking = false
idle joining = false
idle counting = false
idle left = false
idle _ = true

-- `main` waits, or is on its way to wait, behind its test of the flag, and behind that of the plugins.
abbrev behind_stop : Main → Bool
behind_stop test_plugins = true
behind_stop test_count = true
behind_stop selecting = true
behind_stop reading = true
behind_stop _ = false

abbrev behind_plugins : Main → Bool
behind_plugins test_count = true
behind_plugins selecting = true
behind_plugins reading = true
behind_plugins _ = false

record Awake (s : Process) : Type 0 where
  for_queue : idle s.main ≡ true → 1 ≤ length s.thread_queue → 1 ≤ s.pipe + length s.posting
  for_stop : behind_stop s.main ≡ true → stop_flag s ≡ true → 1 ≤ s.pipe
  for_plugins : behind_plugins s.main ≡ true → s.plugins ≡ 0 → 1 ≤ s.pipe + s.unloading

Awake-Step : {s : Process} → Awake s → {t : Process} → Step s t → Awake t
Awake-Step c (main_creates s t e f) = ground arith
Awake-Step c (thread_creates s t starter xs ys e f) = ground arith
Awake-Step c (counts s f) = ground arith
Awake-Step c (push s t xs ys e f g) = ground arith
Awake-Step c (post s t xs ys e) =
    ground (arith, ap length e, length-append xs ys, length-append xs (t ∷ ys))
Awake-Step c (end s t xs ys e) = ground arith
Awake-Step c (sigterm s) = ground arith
Awake-Step c (sigint s) = ground arith
Awake-Step c (unfreeze s) = ground arith
Awake-Step c (load s) = ground arith
Awake-Step c (unload s n e) = ground arith
Awake-Step c (on_unload s n e) = ground arith
Awake-Step c (loaded s e f) = ground arith
Awake-Step c (look_stop s e) = ground arith
Awake-Step c (look_plugins s e) = ground arith
Awake-Step c (look_count s e) = ground arith
Awake-Step c (clean s e) = ground arith
Awake-Step c (select s n e f) = ground arith
Awake-Step c (select_interrupted s e) = ground arith
Awake-Step c (read s n e f) = ground arith
Awake-Step c (read_interrupted s e) = ground arith
Awake-Step c (lock s e) = ground arith
Awake-Step c (join s t rest xs ys e f g) = ground arith
Awake-Step c (uncount s e f) = ground arith
Awake-Step c (unlock s e f) = ground (arith, ap length f)

Awake-Reach : {s : Process} → Reach s → Awake s
Awake-Reach here = ground arith
Awake-Reach (next r st) = Awake-Step (Awake-Reach r) st

none_queued : (xs : List ℕ) → (1 ≤ length xs → ⊥) → xs ≡ []
none_queued [] h = refl
none_queued (x ∷ xs) h = absurd (h (omega arith))

-- `freezeMainThread` misses no wake-up: when it waits in `select` for a pipe without a byte, and no thread
-- is between a change and its byte, then no thread waits to be joined, the flag of the loop is not set,
-- and a plugin is loaded.
pub no_lost_wakeup :
    (s : Process)
    → Reach s
    → s.main ≡ selecting
    → s.pipe ≡ 0
    → s.posting ≡ []
    → s.unloading ≡ 0
    → (s.thread_queue ≡ []) × (stop_flag s ≡ false) × (s.plugins ≢ 0)
no_lost_wakeup s r at dry posted told =
    let a = Awake-Reach r in
    (
      none_queued s.thread_queue (λ waits. ground (arith, ap length posted)),
      elim (Bool-cases (stop_flag s)) [ inl set ↦ absurd (ground arith) | inr clear ↦ clear ],
      λ none. ground arith,
    )
