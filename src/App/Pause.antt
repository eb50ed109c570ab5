-- ===== src/App/Pause.antt =====
-- src/sysapi/posix/multithread.cpp: `pause`, `resume` and `pausePoint` of a thread. What is done under
-- `condmutex` is one step.
use instant_send.Prelude.{◌≡◌, refl, ap, Bool, true, false, if◌then◌else◌, arith}

-- Where the thread stands: before `startThread`, in `run`, in `pthread_cond_wait`, or woken there.
pub data Point : Type 0 where
  created running waiting woken : Point

pub record Thread : Type 0 where
  pub point : Point
  pub paused : Bool

-- `pthread_cond_signal` wakes a thread that waits.
abbrev pub signalled : Point → Point
signalled waiting = woken
signalled p = p

pub data Step : Thread → Thread → Type 0 where
  -- `startThread`
  begin : (s : Thread) → s.point ≡ created → Step s (record s { point = running; paused = false })
  pause : (s : Thread) → Step s (record s { paused = true })
  resume : (s : Thread) → Step s (record s { point = signalled s.point; paused = false })
  -- `pausePoint`, up to the first `pthread_cond_wait` or to its end, and behind one.
  pause_point :
      (s : Thread)
      → s.point ≡ running
      → Step s (record s { point = if s.paused then waiting else running })
  go_on :
      (s : Thread)
      → s.point ≡ woken
      → Step s (record s { point = if s.paused then waiting else running })
  -- A wait may end by itself.
  spurious : (s : Thread) → s.point ≡ waiting → Step s (record s { point = woken })

-- `paused` is not set before `startThread`.
pub data Reach : Thread → Type 0 where
  here : (paused : Bool) → Reach (record { point = created; paused = paused })
  next : {s t : Thread} → Reach s → Step s t → Reach t

abbrev is_waiting : Point → Bool
is_waiting waiting = true
is_waiting _ = false

record Justified (s : Thread) : Type 0 where
  holds : is_waiting s.point ≡ true → s.paused ≡ true

Justified-Step : {s : Thread} → Justified s → {t : Thread} → Step s t → Justified t
Justified-Step c (begin s e) = ground arith
Justified-Step c (pause s) = ground arith
Justified-Step c (resume s) = ground arith
Justified-Step c (pause_point s e) = ground arith
Justified-Step c (go_on s e) = ground arith
Justified-Step c (spurious s e) = ground arith

Justified-Reach : {s : Thread} → Reach s → Justified s
Justified-Reach (here p) = ground arith
Justified-Reach (next r st) = Justified-Step (Justified-Reach r) st

-- A thread waits in `pausePoint` only while it is paused, and then `resume` and its own next step bring it
-- back to `run`.
pub resume-runs :
    (s : Thread)
    → Reach s
    → s.point ≡ waiting
    → (s.paused ≡ true) × (t : Thread) × (u : Thread) × Step s t × Step t u × (u.point ≡ running)
resume-runs s r at =
    let c = Justified-Reach r in (ground arith, _, _, resume s, go_on _ (ap signalled at), refl)

-- What `pause` does before `startThread` is lost.
pause_lost :
    (s : Thread)
    → s.point ≡ created
    → (t : Thread) × (u : Thread) × Step s t
      × Step t u
      × (t.paused ≡ true)
      × (u.point ≡ running)
      × (u.paused ≡ false)
pause_lost s at = (_, _, pause s, begin _ at, refl, refl, refl)
