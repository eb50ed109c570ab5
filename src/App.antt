-- ===== src/App.antt =====
-- src/sysapi/posix/appcontrol-platformdependent.cpp, src/sysapi/posix/multithread.cpp, and the loops of
-- `main` in src/server.cpp: the threads of the server, which the main thread joins. A step runs from
-- one point where another thread may run to the next.
pub mod Count
pub mod Wake
pub mod Drain
pub mod Pause
use instant_send.Prelude.{
  ℕ, zero, suc, ◌+◌, ◌-◌, ◌^◌, ◌%◌, ◌≡◌, ◌≢◌, Bool, true, false, ◌||◌, List, [], ◌∷◌, ◌++◌,
  if◌then◌else◌, ◌==◌,
}

-- Where `main` stands: it reads the configuration and starts servers, or goes through the three tests of
-- a loop, or through `freezeMainThread`, or stops the servers between the loops, or has left the second.
pub data Main : Type 0 where
  loading test_stop test_plugins test_count selecting reading locking joining counting : Main
  cleaning left : Main

-- Who holds `threadCountMutex` in `thread_t::start`, and the thread that it has created.
pub data Holder : Type 0 where
  free : Holder
  by_main : ℕ → Holder
  by_thread : ℕ → ℕ → Holder

-- A thread, known by its `pthread_t`, is `live` until it puts itself into the queue, `posting` before
-- `unfreezeMainThread`, `deleting` before the end of `delThread`, and then `ended` until it is joined.
-- `again` says whether `main` is in its second loop. `plugins` is what `pl.count()` returns, and
-- `unloading` counts the calls of `checkUnload` that have erased a plugin and not told so yet. `pipe`
-- counts the bytes in the pipe.
pub record Process : Type 0 where
  pub main : Main
  pub again : Bool
  pub stop_app : Bool
  pub stop_app_fast : Bool
  pub plugins : ℕ
  pub unloading : ℕ
  pub pipe : ℕ
  pub thread_count : ℕ
  pub holder : Holder
  pub thread_queue : List ℕ
  pub live : List ℕ
  pub posting : List ℕ
  pub deleting : List ℕ
  pub ended : List ℕ

abbrev pub started : Process
started = record {
  main = loading;
  again = false;
  stop_app = false;
  stop_app_fast = false;
  plugins = 0;
  unloading = 0;
  pipe = 0;
  thread_count = 0;
  holder = free;
  thread_queue = [];
  live = [];
  posting = [];
  deleting = [];
  ended = [];
}

-- Neither the thread that is in `start` nor the one that it creates gets past the mutexes there.
abbrev pub is_held : Holder → ℕ → Bool
is_held free t = false
is_held (by_main created) t = created == t
is_held (by_thread starter created) t = (starter == t) || (created == t)

-- `main` holds `threadQueueMutex`.
abbrev pub locks_queue : Main → Bool
locks_queue joining = true
locks_queue counting = true
locks_queue _ = false

-- The flag that a loop tests, and where `main` goes when it leaves the loop.
abbrev pub stop_flag : Process → Bool
stop_flag s = if s.again then s.stop_app_fast else s.stop_app

abbrev pub leave : Bool → Main
leave again = if again then left else cleaning

pub data Step : Process → Process → Type 0 where
  -- `thread_t::start`, up to `pthread_create` and behind it.
  main_creates :
      (s : Process) (t : ℕ)
      → s.main ≡ loading
      → s.holder ≡ free
      → Step s (record s { live = t ∷ s.live; holder = by_main t })
  thread_creates :
      (s : Process) (t starter : ℕ) (xs ys : List ℕ)
      → s.live ≡ xs ++ starter ∷ ys
      → s.holder ≡ free
      → Step s (record s { live = t ∷ s.live; holder = by_thread starter t })
  counts :
      (s : Process)
      → s.holder ≢ free
      → Step s (record s { thread_count = (s.thread_count + 1) % 2 ^ 32; holder = free })
  -- `delThread`: `threadAboutToExit` in two steps, and the end.
  push :
      (s : Process) (t : ℕ) (xs ys : List ℕ)
      → s.live ≡ xs ++ t ∷ ys
      → is_held s.holder t ≡ false
      → locks_queue s.main ≡ false
      → Step s (record s {
        live = xs ++ ys;
        thread_queue = s.thread_queue ++ t ∷ [];
        posting = t ∷ s.posting;
      })
  post :
      (s : Process) (t : ℕ) (xs ys : List ℕ)
      → s.posting ≡ xs ++ t ∷ ys
      → Step s (record s { posting = xs ++ ys; deleting = t ∷ s.deleting; pipe = suc s.pipe })
  end :
      (s : Process) (t : ℕ) (xs ys : List ℕ)
      → s.deleting ≡ xs ++ t ∷ ys
      → Step s (record s { deleting = xs ++ ys; ended = t ∷ s.ended })
  -- `sighandler` runs on the main thread, which does not move meanwhile.
  sigterm :
      (s : Process) → Step s (record s { stop_app = true; stop_app_fast = true; pipe = suc s.pipe })
  sigint : (s : Process) → Step s (record s { stop_app = true; pipe = suc s.pipe })
  -- Any other call of `unfreezeMainThread`.
  unfreeze : (s : Process) → Step s (record s { pipe = suc s.pipe })
  -- The list of plugins: a plugin is loaded, or unloaded and `InternalEventHandler::onUnload` called.
  load : (s : Process) → Step s (record s { plugins = suc s.plugins })
  unload :
      (s : Process) (n : ℕ)
      → s.plugins ≡ suc n
      → Step s (record s { plugins = n; unloading = suc s.unloading })
  on_unload :
      (s : Process) (n : ℕ)
      → s.unloading ≡ suc n
      → Step s (record s { unloading = n; pipe = suc s.pipe })
  -- The loops of `main`.
  loaded :
      (s : Process) → s.main ≡ loading → s.holder ≡ free → Step s (record s { main = test_stop })
  look_stop :
      (s : Process)
      → s.main ≡ test_stop
      → Step s (record s { main = if stop_flag s then leave s.again else test_plugins })
  look_plugins :
      (s : Process)
      → s.main ≡ test_plugins
      → Step s (record s { main = if s.plugins == 0 then leave s.again else test_count })
  look_count :
      (s : Process)
      → s.main ≡ test_count
      → Step s (record s { main = if s.thread_count == 0 then leave s.again else selecting })
  clean : (s : Process) → s.main ≡ cleaning → Step s (record s { main = test_stop; again = true })
  -- `freezeMainThread`: a signal interrupts `select` or `read`.
  select :
      (s : Process) (n : ℕ)
      → s.main ≡ selecting
      → s.pipe ≡ suc n
      → Step s (record s { main = reading })
  select_interrupted : (s : Process) → s.main ≡ selecting → Step s (record s { main = reading })
  read :
      (s : Process) (n : ℕ)
      → s.main ≡ reading
      → s.pipe ≡ suc n
      → Step s (record s { main = locking; pipe = n })
  read_interrupted : (s : Process) → s.main ≡ reading → Step s (record s { main = locking })
  lock : (s : Process) → s.main ≡ locking → Step s (record s { main = joining })
  join :
      (s : Process) (t : ℕ) (rest xs ys : List ℕ)
      → s.main ≡ joining
      → s.thread_queue ≡ t ∷ rest
      → s.ended ≡ xs ++ t ∷ ys
      → Step s (record s { main = counting; thread_queue = rest; ended = xs ++ ys })
  uncount :
      (s : Process)
      → s.main ≡ counting
      → s.holder ≡ free
      → Step s
          (record s { main = joining; thread_count = (s.thread_count + (2 ^ 32 - 1)) % 2 ^ 32 })
  unlock :
      (s : Process)
      → s.main ≡ joining
      → s.thread_queue ≡ []
      → Step s (record s { main = test_stop })

pub data Reach : Process → Type 0 where
  here : Reach started
  next : {s t : Process} → Reach s → Step s t → Reach t
