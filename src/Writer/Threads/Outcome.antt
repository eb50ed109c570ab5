-- ===== src/Writer/Threads/Outcome.antt =====
-- src/filewriter.cpp: the status that a transfer ends with.
use instant_send.Prelude.{◌≡◌, refl, true, false, arith, if◌then◌else◌, ◌==◌, Bool}
use instant_send.Word.{Int64}
use instant_send.Writer.{Status, in_progress, finished, error, push, written, drain, finish}
use instant_send.Writer.Threads.{
  Run, waiting_zr, cleaning, stopping, exiting, gone, System, Step, reserve, put, post, begin, test,
  wake, look, pop, release, write, drain_rest, set_status, wait_zr, clean, set_stopped, exit,
  inc_rc, dec_rc, mark, check_remove, check_go_on, halt, wake_writer, Reach, here, next,
}

-- `run` has set the status.
abbrev pub is_settled : Run → Bool
is_settled waiting_zr = true
is_settled cleaning = true
is_settled stopping = true
is_settled exiting = true
is_settled gone = true
is_settled _ = false

abbrev pub outcome : Int64 → Run → Int64 → Status
outcome file_size r bytes =
    if is_settled r then (if bytes == file_size then finished else error) else in_progress

abbrev Outcome : Int64 → System → Type 0
Outcome n s = (s.writer.file_size ≡ n) × (s.writer.status ≡ outcome n s.run s.writer.bytes)

Outcome-Step : {n : Int64} {s : System} → Outcome n s → {t : System} → Step s t → Outcome n t
unfolding push written drain finish
Outcome-Step p (reserve s k e) = ground arith
Outcome-Step p (put s k position c cs e) = ground arith
Outcome-Step p (post s k e) = ground arith
Outcome-Step p (begin s e) = ground arith
Outcome-Step p (test s e) = ground arith
Outcome-Step p (wake s k e f) = ground arith
Outcome-Step p (look s e) = ground arith
Outcome-Step p (pop s xs ys f e q top) = ground arith
Outcome-Step p (release s f e) = ground arith
Outcome-Step p (write s f e) = ground arith
Outcome-Step p (drain_rest s e) = ground arith
Outcome-Step p (set_status s e) = ground arith
Outcome-Step p (wait_zr s e z) = ground arith
Outcome-Step p (clean s e) = ground arith
Outcome-Step p (set_stopped s e) = ground arith
Outcome-Step p (exit s e) = ground arith
Outcome-Step p (inc_rc s) = ground arith
Outcome-Step p (dec_rc s k e) = ground arith
Outcome-Step p (mark s k e) = ground arith
Outcome-Step p (check_remove s k e a) = ground arith
Outcome-Step p (check_go_on s k e a) = ground arith
Outcome-Step p (halt s k e) = ground arith
Outcome-Step p (wake_writer s k e) = ground arith

Outcome-Reach : {n : Int64} {s : System} → Reach n s → Outcome n s
Outcome-Reach here = (refl, refl)
Outcome-Reach (next r st) = Outcome-Step (Outcome-Reach r) st

-- The status is that of a running transfer until the queue is drained; from then on it tells whether
-- as many bytes were written as the sender announced.
pub status_outcome :
    (file_size : Int64) (s : System)
    → Reach file_size s
    → s.writer.status ≡ outcome file_size s.run s.writer.bytes
status_outcome file_size s r = (Outcome-Reach r).1
