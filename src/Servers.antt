-- ===== src/Servers.antt =====
-- src/connectionreceiver.cpp, src/serverlist.cpp: the thread that accepts the connections of a server, and
-- the main thread that stops it. A step runs from one point where the other thread may run to the next.
pub mod Stopping
pub mod Config
use instant_send.Prelude.{ℕ, zero, suc, ◌+◌, ◌-◌, ◌≡◌, Bool, true, false, if◌then◌else◌}

-- Where `run` stands: before `++runningServers`, in `acceptClient`, before `checkRunning`, before the start
-- of a `dataReceiver_t`, before the lock behind the loop, before `--runningServers`, and before and behind
-- `delete` in `delThread`.
pub data Stage : Type 0 where
  starting accepting checking serving leaving past_mutex returning deleted : Stage

-- Where `stop` stands: it holds `runningmutex` while it is `locked`, and when the flag is `cleared`.
pub data Stop : Type 0 where
  not_called locked cleared stopped : Stop

-- `listed` says whether the list of servers holds the pointer. `asked` is what `asyncStop_t::stop` leaves
-- in the plugin. `late` counts the clients that are served with `running` cleared, and `called_past`
-- says that `stop` was called when `run` was past its lock of the mutex; the code has neither of them.
pub record Receiver : Type 0 where
  pub stage : Stage
  pub stop : Stop
  pub running : Bool
  pub asked : Bool
  pub listed : Bool
  pub running_servers : ℕ
  pub clients : ℕ
  pub late : ℕ
  pub called_past : Bool

-- Behind `serverList_t::add`.
abbrev pub added : Receiver
added = record {
  stage = starting;
  stop = not_called;
  running = true;
  asked = false;
  listed = true;
  running_servers = 0;
  clients = 0;
  late = 0;
  called_past = false;
}

-- `stop` holds the mutex.
abbrev pub holds : Stop → Bool
holds locked = true
holds cleared = true
holds _ = false

abbrev pub is_past : Stage → Bool
is_past past_mutex = true
is_past returning = true
is_past deleted = true
is_past _ = false

abbrev pub is_deleted : Stage → Bool
is_deleted deleted = true
is_deleted _ = false

pub data Step : Receiver → Receiver → Type 0 where
  -- `run`
  begin :
      (s : Receiver)
      → s.stage ≡ starting
      → Step s (record s { stage = accepting; running_servers = suc s.running_servers })
  accept : (s : Receiver) → s.stage ≡ accepting → Step s (record s { stage = checking })
  accept_nothing : (s : Receiver) → s.stage ≡ accepting → Step s (record s { stage = leaving })
  check_running :
      (s : Receiver)
      → s.stage ≡ checking
      → holds s.stop ≡ false
      → Step s (record s { stage = if s.running then serving else leaving })
  serve :
      (s : Receiver)
      → s.stage ≡ serving
      → Step s (record s {
        stage = accepting;
        clients = suc s.clients;
        late = if s.running then s.late else suc s.late;
      })
  pass_mutex :
      (s : Receiver)
      → s.stage ≡ leaving
      → holds s.stop ≡ false
      → Step s (record s { stage = past_mutex })
  uncount :
      (s : Receiver) (n : ℕ)
      → s.stage ≡ past_mutex
      → s.running_servers ≡ suc n
      → Step s (record s { stage = returning; running_servers = n })
  -- `delThread`, since `autoDelete` is always true.
  delete : (s : Receiver) → s.stage ≡ returning → Step s (record s { stage = deleted })
  -- `serverList_t::remove` with `stop`.
  call_stop :
      (s : Receiver)
      → s.stop ≡ not_called
      → s.listed ≡ true
      → Step s (record s { stop = locked; called_past = is_past s.stage })
  clear_running :
      (s : Receiver) → s.stop ≡ locked → Step s (record s { stop = cleared; running = false })
  -- The plugin's server may be an `asyncStop_t` or not.
  async_stop :
      (s : Receiver) (has_stop : Bool)
      → s.stop ≡ cleared
      → Step s (record s { stop = stopped; asked = has_stop })
  erase : (s : Receiver) → s.stop ≡ stopped → Step s (record s { listed = false })

pub data Reach : Receiver → Type 0 where
  here : Reach added
  next : {s t : Receiver} → Reach s → Step s t → Reach t

-- Some steps.
pub data Runs : Receiver → Receiver → Type 0 where
  stay : {s : Receiver} → Runs s s
  go : {s t u : Receiver} → Step s t → Runs t u → Runs s u
