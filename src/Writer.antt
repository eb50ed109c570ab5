-- ===== src/Writer.antt =====
-- src/filewriter.h, src/filewriter.cpp: the state of a `fileWriter_t`, and what its threads do to
-- it between two points where another thread may run.
pub mod Threads
use instant_send.Prelude.{
  ℕ, zero, suc, ◌+◌, ◌-◌, ◌%◌, ◌^◌, Bool, true, false, not, ◌&&◌, List, [], ◌∷◌, ◌++◌, ltb, ◌==◌,
  if◌then◌else◌, Bytes, length,
}
use instant_send.Word.{Int64, add64, signed_ltb}

-- A `dataFragment_t`. Its data are `dat->data`, of `dat->size` bytes.
pub record Fragment : Type 0 where
  pub dat : Bytes
  pub pos : Int64
  pub batch : ℕ

abbrev pub size : Fragment → ℕ
size f = length f.dat

-- `dataFragment_t::operator<`, by which the queue picks what to write next.
unfoldable pub fragment_lt : Fragment → Fragment → Bool
fragment_lt f g = ltb f.batch g.batch && signed_ltb f.pos g.pos

pub data Status : Type 0 where
  in_progress finished error : Status

pub record Writer : Type 0 where
  pub file_size : Int64
  pub bytes : Int64
  pub queue : List Fragment
  pub in_sem : ℕ
  pub out_sem : ℕ
  pub last_pos : Int64
  pub last_batch : ℕ
  pub stop : Bool
  pub has_stopped : Bool
  pub zr : Bool
  pub status : Status
  pub last_update : ℕ

abbrev pub max_buf_fragment_count : ℕ
max_buf_fragment_count = 32

abbrev pub update_interval : ℕ
update_interval = 5000

-- The constructor.
abbrev pub new_writer : Int64 → Writer
new_writer file_size = record {
  file_size = file_size;
  bytes = 0;
  queue = [];
  in_sem = max_buf_fragment_count;
  out_sem = 0;
  last_pos = 0;
  last_batch = 0;
  stop = false;
  has_stopped = false;
  zr = true;
  status = in_progress;
  last_update = 0;
}

-- The fragment that `writeData` makes, and the writer behind its locked part.
unfoldable pub next_batch : Int64 → Writer → ℕ
next_batch position w = if signed_ltb position w.last_pos then w.last_batch + 1 else w.last_batch

unfoldable pub new_fragment : Int64 → Bytes → Writer → Fragment
unfolding next_batch
new_fragment position dat w = record { dat = dat; pos = position; batch = next_batch position w }

unfoldable pub push : Int64 → Bytes → Writer → Writer
unfolding new_fragment
push position dat w = record w {
  last_batch = next_batch position w;
  queue = new_fragment position dat w ∷ w.queue;
}

-- `while(bytes < fSize && !stop)`
unfoldable pub goes_on : Writer → Bool
goes_on w = signed_ltb w.bytes w.file_size && not w.stop

-- The end of `writeBuffer`. `writeData` of a fragment gives back true, so its loop ends at once.
unfoldable pub written : Fragment → Writer → Writer
written f w = record w {
  bytes = add64 w.bytes (size f);
  last_update = (w.last_update + 1) % update_interval;
}

-- The loop under the lock in `run`: all that is left is written.
abbrev pub total : List Fragment → ℕ
total [] = 0
total (f ∷ fs) = size f + total fs

unfoldable pub add_sizes : Int64 → List Fragment → Int64
add_sizes bytes [] = bytes
add_sizes bytes (f ∷ fs) = add_sizes (add64 bytes (size f)) fs

unfoldable pub drain : Writer → Writer
unfolding add_sizes
drain w = record w { bytes = add_sizes w.bytes w.queue; queue = [] }

unfoldable pub final_status : Writer → Status
final_status w = elim w.status [
  | in_progress ↦ if w.bytes == w.file_size then finished else error
  | finished ↦ finished
  | error ↦ error
]

unfoldable pub finish : Writer → Writer
unfolding final_status
finish w = record w { status = final_status w; stop = true }

-- The test of `cleanupCheck`, and `autoDelete`.
abbrev pub auto_delete : Writer → Bool
auto_delete w = w.zr && w.has_stopped
