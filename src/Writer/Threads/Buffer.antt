-- ===== src/Writer/Threads/Buffer.antt =====
-- src/filewriter.cpp: the two semaphores keep the queue within its bounds.
use instant_send.Prelude.{
  ℕ, ◌+◌, ◌≤◌, ◌≡◌, refl, ap, true, false, ◌∷◌, arith, length, length-append, ◌⊎◌, inr, Bool,
}
use instant_send.Word.{Int64}
use instant_send.Writer.{push, written, drain, finish}
use instant_send.Writer.Threads.{
  Run, finishing, waiting_zr, cleaning, stopping, exiting, gone, woken, taking, popped, System,
  Step, reserve, put, post, begin, test, wake, look, pop, release, write, drain_rest, set_status,
  wait_zr, clean, set_stopped, exit, inc_rc, dec_rc, mark, check_remove, check_go_on, halt,
  wake_writer, Reach, here, next,
}

-- A place that the writer's thread has not given back yet.
abbrev pub in_hand : Run → ℕ
in_hand (popped f) = 1
in_hand _ = 0

-- After the drain the places of what was left are never given back.
record Places (s : System) : Type 0 where
  fits : s.writer.in_sem + s.holding + length s.writer.queue + in_hand s.run ≤ 32

Places-Step : {s : System} → Places s → {t : System} → Step s t → Places t
unfolding push written drain finish
Places-Step p (reserve s n e) = ground arith
Places-Step p (put s n position c cs e) = ground arith
Places-Step p (post s n e) = ground arith
Places-Step p (begin s e) = ground arith
Places-Step p (test s e) = ground arith
Places-Step p (wake s n e f) = ground arith
Places-Step p (look s e) = ground arith
Places-Step p (pop s xs ys f e q top) =
    ground (arith, ap length q, length-append xs ys, length-append xs (f ∷ ys))
Places-Step p (release s f e) = ground arith
Places-Step p (write s f e) = ground arith
Places-Step p (drain_rest s e) = ground arith
Places-Step p (set_status s e) = ground arith
Places-Step p (wait_zr s e z) = ground arith
Places-Step p (clean s e) = ground arith
Places-Step p (set_stopped s e) = ground arith
Places-Step p (exit s e) = ground arith
Places-Step p (inc_rc s) = ground arith
Places-Step p (dec_rc s n e) = ground arith
Places-Step p (mark s n e) = ground arith
Places-Step p (check_remove s n e a) = ground arith
Places-Step p (check_go_on s n e a) = ground arith
Places-Step p (halt s n e) = ground arith
Places-Step p (wake_writer s n e) = ground arith

Places-Reach : {file_size : Int64} {s : System} → Reach file_size s → Places s
Places-Reach here = omega arith
Places-Reach (next r st) = Places-Step (Places-Reach r) st

-- At every moment the queue holds 32 fragments at most, those included that a thread has a place
-- for or has just taken out.
pub queue_bounded :
    (file_size : Int64) (s : System)
    → Reach file_size s
    → length s.writer.queue + s.holding + in_hand s.run ≤ 32
queue_bounded file_size s r = let p = Places-Reach r in omega arith

-- A token of `outputSem` that the writer's thread has taken and not used.
abbrev token : Run → ℕ
token woken = 1
token taking = 1
token _ = 0

-- Before the drain each token stands for a fragment.
abbrev drained : Run → Bool
drained finishing = true
drained waiting_zr = true
drained cleaning = true
drained stopping = true
drained exiting = true
drained gone = true
drained _ = false

record Tokens (s : System) : Type 0 where
  quiet : (s.writer.stop ≡ true) ⊎ (s.waking ≡ 0)
  balance :
      (s.writer.stop ≡ true)
      ⊎ (drained s.run ≡ true)
      ⊎ (s.writer.out_sem + s.posting + token s.run ≡ length s.writer.queue)
  has_top : (s.run ≡ taking) → 1 ≤ length s.writer.queue

Tokens-Step : {s : System} → Tokens s → {t : System} → Step s t → Tokens t
unfolding push written drain finish
Tokens-Step p (reserve s n e) = ground arith
Tokens-Step p (put s n position c cs e) = ground arith
Tokens-Step p (post s n e) = ground arith
Tokens-Step p (begin s e) = ground arith
Tokens-Step p (test s e) = ground arith
Tokens-Step p (wake s n e f) = ground arith
Tokens-Step p (look s e) = ground arith
Tokens-Step p (pop s xs ys f e q top) =
    ground (arith, ap length q, length-append xs ys, length-append xs (f ∷ ys))
Tokens-Step p (release s f e) = ground arith
Tokens-Step p (write s f e) = ground arith
Tokens-Step p (drain_rest s e) = ground arith
Tokens-Step p (set_status s e) = ground arith
Tokens-Step p (wait_zr s e z) = ground arith
Tokens-Step p (clean s e) = ground arith
Tokens-Step p (set_stopped s e) = ground arith
Tokens-Step p (exit s e) = ground arith
Tokens-Step p (inc_rc s) = ground arith
Tokens-Step p (dec_rc s n e) = ground arith
Tokens-Step p (mark s n e) = ground arith
Tokens-Step p (check_remove s n e a) = ground arith
Tokens-Step p (check_go_on s n e a) = ground arith
Tokens-Step p (halt s n e) = ground arith
Tokens-Step p (wake_writer s n e) = ground arith

Tokens-Reach : {file_size : Int64} {s : System} → Reach file_size s → Tokens s
Tokens-Reach here = record { quiet = inr refl; balance = inr (inr refl); has_top = λ e. cc }
Tokens-Reach (next r st) = Tokens-Step (Tokens-Reach r) st

-- The thread never takes a fragment from an empty queue, also when `zeroReferences` posts the
-- semaphore without one.
queue_not_empty :
    (file_size : Int64) (s : System)
    → Reach file_size s
    → s.run ≡ taking
    → 1 ≤ length s.writer.queue
queue_not_empty file_size s r e = (Tokens-Reach r).has_top e
