-- ===== src/Writer/Threads.antt =====
-- src/filewriter.cpp, src/filelist.cpp: the writer's thread, any number of threads that write to it,
-- and any number that hold references. A step runs from one point where another thread may run to
-- the next: a part under the mutex is one step.
pub mod Buffer
pub mod Account
pub mod Order
pub mod Cleanup
pub mod Outcome
use instant_send.Prelude.{
  ℕ, zero, suc, ◌+◌, ◌-◌, ◌<◌, ◌≡◌, ◌≢◌, Bool, true, false, not, ◌&&◌, List, [], ◌∷◌, ◌++◌, Bytes,
  length, if◌then◌else◌, ◌==◌,
}
use instant_send.Word.{Int64}
use instant_send.Writer.{
  Fragment, fragment_lt, Writer, new_writer, push, new_fragment, goes_on, written, drain, finish,
  auto_delete,
}

-- Where the writer's thread stands in `run` and `writeBuffer`.
pub data Run : Type 0 where
  not_started at_test waiting woken taking : Run
  popped writing : Fragment → Run
  draining finishing waiting_zr cleaning stopping exiting gone : Run

-- `holding` threads are in `writeData` behind `--inputSem`, and `posting` before `++outputSem`.
-- `zeroing`, `checking`, `halting` and `waking` threads are in `zeroReferences`: before `zr` is set,
-- before `cleanupCheck`, before `stop` is set, and before `++outputSem`. `listed` says whether the
-- list of files holds the writer, and `deletes` counts its deletions. `accepted` and `done` are all
-- that was put into the queue, and all that was written.
pub record System : Type 0 where
  pub writer : Writer
  pub run : Run
  pub refcount : ℕ
  pub holding : ℕ
  pub posting : ℕ
  pub zeroing : ℕ
  pub checking : ℕ
  pub halting : ℕ
  pub waking : ℕ
  pub listed : Bool
  pub deletes : ℕ
  pub accepted : List Fragment
  pub done : List Fragment

abbrev pub start : Int64 → System
start file_size = record {
  writer = new_writer file_size;
  run = not_started;
  refcount = 0;
  holding = 0;
  posting = 0;
  zeroing = 0;
  checking = 0;
  halting = 0;
  waking = 0;
  listed = true;
  deletes = 0;
  accepted = [];
  done = [];
}

-- `priority_queue::top`: no element is greater.
abbrev pub IsTop : Fragment → List Fragment → Type 0
IsTop f [] = Unit
IsTop f (g ∷ gs) = (fragment_lt f g ≡ false) × IsTop f gs

pub data Step : System → System → Type 0 where
  -- `writeData` of a fragment that is not empty.
  reserve :
      (s : System) (n : ℕ)
      → s.writer.in_sem ≡ suc n
      → Step s (record s { writer = record (s.writer) { in_sem = n }; holding = suc s.holding })
  put :
      (s : System) (n : ℕ) (position : Int64) (c : ℕ) (cs : Bytes)
      → s.holding ≡ suc n
      → Step s (record s {
        writer = push position (c ∷ cs) s.writer;
        holding = n;
        posting = suc s.posting;
        accepted = new_fragment position (c ∷ cs) s.writer ∷ s.accepted;
      })
  post :
      (s : System) (n : ℕ)
      → s.posting ≡ suc n
      → Step s
          (record s { writer = record (s.writer) { out_sem = suc s.writer.out_sem }; posting = n })
  -- `run` and `writeBuffer`.
  begin :
      (s : System)
      → s.run ≡ not_started
      → Step s (record s { writer = record (s.writer) { zr = false }; run = at_test })
  test :
      (s : System)
      → s.run ≡ at_test
      → Step s (record s { run = if goes_on s.writer then waiting else draining })
  wake :
      (s : System) (n : ℕ)
      → s.run ≡ waiting
      → s.writer.out_sem ≡ suc n
      → Step s (record s { writer = record (s.writer) { out_sem = n }; run = woken })
  look :
      (s : System)
      → s.run ≡ woken
      → Step s (record s { run = if s.writer.stop then at_test else taking })
  pop :
      (s : System) (xs ys : List Fragment) (f : Fragment)
      → s.run ≡ taking
      → s.writer.queue ≡ xs ++ f ∷ ys
      → IsTop f s.writer.queue
      → Step s (record s { writer = record (s.writer) { queue = xs ++ ys }; run = popped f })
  release :
      (s : System) (f : Fragment)
      → s.run ≡ popped f
      → Step s (record s {
        writer = record (s.writer) { in_sem = suc s.writer.in_sem };
        run = writing f;
      })
  write :
      (s : System) (f : Fragment)
      → s.run ≡ writing f
      → Step s (record s { writer = written f s.writer; run = at_test; done = s.done ++ f ∷ [] })
  drain_rest :
      (s : System)
      → s.run ≡ draining
      → Step s
          (record s { writer = drain s.writer; run = finishing; done = s.done ++ s.writer.queue })
  set_status :
      (s : System)
      → s.run ≡ finishing
      → Step s (record s { writer = finish s.writer; run = waiting_zr })
  -- `waitZR` goes on when there is no reference.
  wait_zr :
      (s : System) → s.run ≡ waiting_zr → s.refcount ≡ 0 → Step s (record s { run = cleaning })
  -- `cleanupCheck(true)`
  clean :
      (s : System)
      → s.run ≡ cleaning
      → Step s (record s { run = stopping; listed = s.listed && not (auto_delete s.writer) })
  set_stopped :
      (s : System)
      → s.run ≡ stopping
      → Step s (record s { writer = record (s.writer) { has_stopped = true }; run = exiting })
  -- `delThread` asks `autoDelete`.
  exit :
      (s : System)
      → s.run ≡ exiting
      → Step s (record s {
        run = gone;
        deletes = if auto_delete s.writer then suc s.deletes else s.deletes;
      })
  -- `incRC`, `decRC` and `zeroReferences`.
  inc_rc : (s : System) → Step s (record s { refcount = suc s.refcount })
  dec_rc :
      (s : System) (n : ℕ)
      → s.refcount ≡ suc n
      → Step s (record s { refcount = n; zeroing = if n == 0 then suc s.zeroing else s.zeroing })
  mark :
      (s : System) (n : ℕ)
      → s.zeroing ≡ suc n
      → Step s (record s {
        writer = record (s.writer) { zr = true };
        zeroing = n;
        checking = suc s.checking;
      })
  check_remove :
      (s : System) (n : ℕ)
      → s.checking ≡ suc n
      → auto_delete s.writer ≡ true
      → Step s (record s { checking = n; listed = false; deletes = suc s.deletes })
  check_go_on :
      (s : System) (n : ℕ)
      → s.checking ≡ suc n
      → auto_delete s.writer ≡ false
      → Step s (record s { checking = n; halting = suc s.halting })
  halt :
      (s : System) (n : ℕ)
      → s.halting ≡ suc n
      → Step s (record s {
        writer = record (s.writer) { stop = true };
        halting = n;
        waking = suc s.waking;
      })
  wake_writer :
      (s : System) (n : ℕ)
      → s.waking ≡ suc n
      → Step s
          (record s { writer = record (s.writer) { out_sem = suc s.writer.out_sem }; waking = n })

pub data Reach (file_size : Int64) : System → Type 0 where
  here : Reach file_size (start file_size)
  next : {s t : System} → Reach file_size s → Step s t → Reach file_size t
