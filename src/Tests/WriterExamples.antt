-- ===== src/Tests/WriterExamples.antt =====
-- The theorems about src/filewriter.cpp at states that are reached.
use mathlib.Core.List.{Perm}
use instant_send.Prelude.{◌+◌, ◌%◌, ◌^◌, ◌≤◌, ◌≡◌, refl, true, false, [], ◌∷◌, ◌++◌, length}
use instant_send.Writer.{
  Fragment, finished, new_writer, push, goes_on, drain, finish, final_status, total, add_sizes,
}
use instant_send.Writer.Threads.{
  System, taking, cleaning, exiting, start, Step, reserve, put, post, begin, test, wake, look,
  drain_rest, set_status, wait_zr, clean, set_stopped, inc_rc, dec_rc, mark, check_go_on, halt,
  Reach, here, next,
}
use instant_send.Writer.Threads.Buffer.{queue_bounded, in_hand}
use instant_send.Writer.Threads.Account.{nothing_lost, fragments}
use instant_send.Writer.Threads.Cleanup.{deleted_but_listed}
use instant_send.Writer.Threads.Outcome.{status_outcome, outcome}

abbrev pub three_bytes : Fragment
three_bytes = record { dat = 1 ∷ 2 ∷ 3 ∷ []; pos = 0; batch = 0 }

-- A fragment has been put into the queue, and the writer's thread is about to take it.
abbrev pub about_to_take : System
about_to_take = record (start 3) {
  writer = record (new_writer 3) { zr = false; in_sem = 31; queue = three_bytes ∷ [] };
  run = taking;
  accepted = three_bytes ∷ [];
}

pub about_to_take-Reach : Reach 3 about_to_take
unfolding push goes_on
about_to_take-Reach =
    next
      (next
        (next
          (next (next (next (next here (begin _ refl)) (test _ refl)) (reserve _ 31 refl))
            (put _ 0 0 1 (2 ∷ 3 ∷ []) refl))
          (post _ 0 refl))
        (wake _ 0 refl refl))
      (look _ refl)

queue_bounded_example :
    length about_to_take.writer.queue + about_to_take.holding + in_hand about_to_take.run ≤ 32
queue_bounded_example = queue_bounded 3 about_to_take about_to_take-Reach

nothing_lost_example :
    Perm
      (three_bytes ∷ [])
      ((about_to_take.done ++ fragments about_to_take.run) ++ about_to_take.writer.queue)
    × (about_to_take.writer.bytes ≡ total about_to_take.done % 2 ^ 64)
nothing_lost_example = nothing_lost 3 about_to_take about_to_take-Reach

-- A file of no bytes, whose controller was released while the writer was still running.
abbrev at_cleanup : System
at_cleanup = record (start 0) {
  writer = record (new_writer 0) { stop = true; status = finished };
  run = cleaning;
  waking = 1;
}

at_cleanup-Reach : Reach 0 at_cleanup
unfolding goes_on drain add_sizes finish final_status
at_cleanup-Reach =
    next
      (next
        (next
          (next
            (next
              (next
                (next (next (next (next here (begin _ refl)) (inc_rc _)) (dec_rc _ 0 refl))
                  (mark _ 0 refl))
                (check_go_on _ 0 refl refl))
              (halt _ 0 refl))
            (test _ refl))
          (drain_rest _ refl))
        (set_status _ refl))
      (wait_zr _ refl refl)

status_outcome_example : finished ≡ outcome 0 cleaning 0
status_outcome_example = status_outcome 0 at_cleanup at_cleanup-Reach

abbrev at_exit : System
at_exit = record at_cleanup {
  writer = record (at_cleanup.writer) { has_stopped = true };
  run = exiting;
}

at_exit-Reach : Reach 0 at_exit
at_exit-Reach = next (next at_cleanup-Reach (clean _ refl)) (set_stopped _ refl)

deleted_but_listed_example : (t : System) × Step at_exit t × (t.deletes ≡ 1) × (t.listed ≡ true)
deleted_but_listed_example = deleted_but_listed 0 at_exit at_exit-Reach refl refl refl
