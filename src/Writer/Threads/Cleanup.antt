-- ===== src/Writer/Threads/Cleanup.antt =====
-- src/filewriter.cpp: who takes the writer off the list of files, and who deletes it.
use instant_send.Prelude.{suc, ◌≡◌, refl, true, false, arith, if◌then◌else◌, Bool}
use instant_send.Word.{Int64}
use instant_send.Writer.{auto_delete, push, written, drain, finish}
use instant_send.Writer.Threads.{
  Run, cleaning, exiting, gone, System, Step, reserve, put, post, begin, test, wake, look, pop,
  release, write, drain_rest, set_status, wait_zr, clean, set_stopped, exit, inc_rc, dec_rc, mark,
  check_remove, check_go_on, halt, wake_writer, Reach, here, next,
}

-- `hasStopped` is set at the end of `run`.
abbrev has_ended : Run → Bool
has_ended exiting = true
has_ended gone = true
has_ended _ = false

abbrev Late : System → Type 0
Late s = (s.writer.has_stopped ≡ true) → has_ended s.run ≡ true

Late-Step : {s : System} → Late s → {t : System} → Step s t → Late t
unfolding push written drain finish
Late-Step p (reserve s n e) = ground arith
Late-Step p (put s n position c cs e) = ground arith
Late-Step p (post s n e) = ground arith
Late-Step p (begin s e) = ground arith
Late-Step p (test s e) = ground arith
Late-Step p (wake s n e f) = ground arith
Late-Step p (look s e) = ground arith
Late-Step p (pop s xs ys f e q top) = ground arith
Late-Step p (release s f e) = ground arith
Late-Step p (write s f e) = ground arith
Late-Step p (drain_rest s e) = ground arith
Late-Step p (set_status s e) = ground arith
Late-Step p (wait_zr s e z) = ground arith
Late-Step p (clean s e) = ground arith
Late-Step p (set_stopped s e) = ground arith
Late-Step p (exit s e) = ground arith
Late-Step p (inc_rc s) = ground arith
Late-Step p (dec_rc s n e) = ground arith
Late-Step p (mark s n e) = ground arith
Late-Step p (check_remove s n e a) = ground arith
Late-Step p (check_go_on s n e a) = ground arith
Late-Step p (halt s n e) = ground arith
Late-Step p (wake_writer s n e) = ground arith

Late-Reach : {file_size : Int64} {s : System} → Reach file_size s → Late s
Late-Reach here = λ e. cc
Late-Reach (next r st) = Late-Step (Late-Reach r) st

-- `cleanupCheck(true)`, which `run` calls before it sets `hasStopped`, never finds the writer to be
-- removed.
cleanup_check_fails :
    (file_size : Int64) (s : System)
    → Reach file_size s
    → s.run ≡ cleaning
    → auto_delete s.writer ≡ false
cleanup_check_fails file_size s r e = let late = Late-Reach r in ground arith

-- Until the first deletion the writer is listed.
abbrev Listed : System → Type 0
Listed s = Late s × (s.deletes ≡ 0 → s.listed ≡ true)

Listed-Step : {s : System} → Listed s → {t : System} → Step s t → Listed t
Listed-Step p (reserve s n e) = (Late-Step p.0 (reserve s n e), ground arith)
Listed-Step p (put s n position c cs e) = (Late-Step p.0 (put s n position c cs e), ground arith)
Listed-Step p (post s n e) = (Late-Step p.0 (post s n e), ground arith)
Listed-Step p (begin s e) = (Late-Step p.0 (begin s e), ground arith)
Listed-Step p (test s e) = (Late-Step p.0 (test s e), ground arith)
Listed-Step p (wake s n e f) = (Late-Step p.0 (wake s n e f), ground arith)
Listed-Step p (look s e) = (Late-Step p.0 (look s e), ground arith)
Listed-Step p (pop s xs ys f e q top) = (Late-Step p.0 (pop s xs ys f e q top), ground arith)
Listed-Step p (release s f e) = (Late-Step p.0 (release s f e), ground arith)
Listed-Step p (write s f e) = (Late-Step p.0 (write s f e), ground arith)
Listed-Step p (drain_rest s e) = (Late-Step p.0 (drain_rest s e), ground arith)
Listed-Step p (set_status s e) = (Late-Step p.0 (set_status s e), ground arith)
Listed-Step p (wait_zr s e z) = (Late-Step p.0 (wait_zr s e z), ground arith)
Listed-Step p (clean s e) = (Late-Step p.0 (clean s e), ground arith)
Listed-Step p (set_stopped s e) = (Late-Step p.0 (set_stopped s e), ground arith)
Listed-Step p (exit s e) = (Late-Step p.0 (exit s e), ground arith)
Listed-Step p (inc_rc s) = (Late-Step p.0 (inc_rc s), ground arith)
Listed-Step p (dec_rc s n e) = (Late-Step p.0 (dec_rc s n e), ground arith)
Listed-Step p (mark s n e) = (Late-Step p.0 (mark s n e), ground arith)
Listed-Step p (check_remove s n e a) = (Late-Step p.0 (check_remove s n e a), ground arith)
Listed-Step p (check_go_on s n e a) = (Late-Step p.0 (check_go_on s n e a), ground arith)
Listed-Step p (halt s n e) = (Late-Step p.0 (halt s n e), ground arith)
Listed-Step p (wake_writer s n e) = (Late-Step p.0 (wake_writer s n e), ground arith)

Listed-Reach : {file_size : Int64} {s : System} → Reach file_size s → Listed s
Listed-Reach here = (λ e. cc, λ e. refl)
Listed-Reach (next r st) = Listed-Step (Listed-Reach r) st

-- When the writer's thread is the one to delete the writer, the list of files goes on holding it.
pub deleted_but_listed :
    (file_size : Int64) (s : System)
    → Reach file_size s
    → s.run ≡ exiting
    → s.deletes ≡ 0
    → auto_delete s.writer ≡ true
    → (t : System) × Step s t × (t.deletes ≡ 1) × (t.listed ≡ true)
deleted_but_listed file_size s r e none_yet asked = (
  record s { run = gone; deletes = if auto_delete s.writer then suc s.deletes else s.deletes },
  exit s e,
  rw (asked, none_yet) refl,
  (Listed-Reach r).1 none_yet,
)
