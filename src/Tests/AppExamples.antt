-- ===== src/Tests/AppExamples.antt =====
-- The theorems about the threads of the server in a run with one thread.
use instant_send.Prelude.{◌%◌, ◌+◌, ◌^◌, ◌≡◌, ◌≢◌, refl, true, false, [], ◌∷◌, arith}
use instant_send.App.{
  test_stop, test_count, selecting, joining, counting, Process, started, stop_flag, main_creates,
  counts, load, loaded, look_stop, look_plugins, look_count, push, post, end, select, read, lock,
  join, uncount, unlock, Reach, here, next,
}
use instant_send.App.Count.{uncounted, threads, threads_counted, none_left}
use instant_send.App.Wake.{no_lost_wakeup}
use instant_send.App.Pause
use instant_send.App.Pause.{Thread, running, waiting, begin, pause, pause_point, resume-runs}
use instant_send.App.Drain.{Runs, drain_ends}

abbrev one_plugin : Process
one_plugin = record started { plugins = 1 }

-- `main` has started the thread 7 and waits.
abbrev waits : Process
waits = record one_plugin { main = selecting; thread_count = 1; live = 7 ∷ [] }

waits-Reach : Reach waits
waits-Reach =
    next
      (next
        (next
          (next (next (next (next here (load _)) (main_creates _ 7 refl refl)) (counts _ (λ e. cc)))
            (loaded _ refl refl))
          (look_stop _ refl))
        (look_plugins _ refl))
      (look_count _ refl)

-- The thread 7 has put itself into the queue and told so.
abbrev joins : Process
joins = record one_plugin {
  main = joining;
  thread_count = 1;
  thread_queue = 7 ∷ [];
  deleting = 7 ∷ [];
}

joins-Reach : Reach joins
joins-Reach =
    next
      (next
        (next (next (next waits-Reach (push _ 7 [] [] refl refl refl)) (post _ 7 [] [] refl))
          (select _ 0 refl refl))
        (read _ 0 refl refl))
      (lock _ refl)

abbrev counts_down : Process
counts_down = record one_plugin { main = counting; thread_count = 1 }

counts_down-Reach : Reach counts_down
counts_down-Reach = next (next joins-Reach (end _ 7 [] [] refl)) (join _ 7 [] [] [] refl refl refl)

abbrev tests_count : Process
tests_count = record one_plugin { main = test_count }

tests_count-Reach : Reach tests_count
tests_count-Reach =
    next
      (next (next (next counts_down-Reach (uncount _ refl refl)) (unlock _ refl refl))
        (look_stop _ refl))
      (look_plugins _ refl)

no_lost_wakeup_example : (waits.thread_queue ≡ []) × (stop_flag waits ≡ false) × (waits.plugins ≢ 0)
no_lost_wakeup_example = no_lost_wakeup waits waits-Reach refl refl refl refl

threads_counted_example :
    (counts_down.thread_count + uncounted counts_down.holder) % 2 ^ 32
    ≡ threads counts_down % 2 ^ 32
threads_counted_example = threads_counted counts_down counts_down-Reach

none_left_example : (tests_count.live ≡ []) × (tests_count.thread_queue ≡ [])
none_left_example = none_left tests_count tests_count-Reach refl refl (omega arith)

drain_ends_example :
    (u : Process) × Runs joins u
    × (u.live ≡ joins.live)
    × (u.main ≡ test_stop)
    × (u.thread_queue ≡ [])
drain_ends_example = drain_ends joins joins-Reach refl

-- A thread that was paused and waits.
abbrev sleeper : Thread
sleeper = record { point = waiting; paused = true }

resume-runs_example :
    (sleeper.paused ≡ true)
    × (t : Thread) × (u : Thread) × Pause.Step sleeper t
    × Pause.Step t u
    × (u.point ≡ running)
resume-runs_example =
    resume-runs sleeper
      (Pause.next (Pause.next (Pause.next (Pause.here false) (begin _ refl)) (pause _))
        (pause_point _ refl))
      refl
