-- ===== src/Disk.antt =====
-- src/sysapi/posix/file.cpp: files by their contents, and `PosixFile` of an open file.
pub mod Write
pub mod Fragments
pub mod Received
use instant_send.Prelude.{
  ℕ, zero, suc, ◌+◌, ◌^◌, Bool, true, false, List, [], ◌∷◌, leb, if◌then◌else◌, Bytes, length, take,
  drop,
}
use instant_send.Word.{Int64}
use instant_send.Writer.{Fragment}

-- What the file holds when bytes are written at a position: a hole in front of them reads as zeros.
unfoldable pub write_at : ℕ → Bytes → Bytes → Bytes
write_at pos [] contents = contents
write_at zero (d ∷ ds) [] = d ∷ write_at zero ds []
write_at zero (d ∷ ds) (c ∷ cs) = d ∷ write_at zero ds cs
write_at (suc pos) (d ∷ ds) [] = 0 ∷ write_at pos (d ∷ ds) []
write_at (suc pos) (d ∷ ds) (c ∷ cs) = c ∷ write_at pos (d ∷ ds) cs

-- A call of `write` or `read` moves so many bytes, at most those that it is asked for, or it fails;
-- `full` is ENOSPC.
pub data Moved : Type 0 where
  moved : ℕ → Moved
  full failed : Moved

-- `writeData` returns or throws, with the contents; `blocked` waits in a call for ever.
pub data Written : Type 0 where
  done : Bytes → List Moved → Written
  no_space io_error blocked : Bytes → Written

-- The loop of `writeData`, from the offset of the file.
unfoldable pub write_loop : List Moved → ℕ → Bytes → Bytes → Written
write_loop os pos [] contents = done contents os
write_loop [] pos (d ∷ ds) contents = blocked contents
write_loop (moved k ∷ os) pos (d ∷ ds) contents =
    write_loop os (pos + length (take k (d ∷ ds))) (drop k (d ∷ ds))
      (write_at pos (take k (d ∷ ds)) contents)
write_loop (full ∷ os) pos (d ∷ ds) contents = no_space contents
write_loop (failed ∷ os) pos (d ∷ ds) contents = io_error contents

-- `lseek64` takes no negative position.
unfoldable pub write_data : List Moved → Int64 → Bytes → Bytes → Written
write_data os position dat contents =
    if leb (2 ^ 63) position then io_error contents else write_loop os position dat contents

-- `dataFragment_t::writeData`, which catches nothing: the thread of the writer ends the program where
-- it throws.
unfoldable pub write_fragment : List Moved → Fragment → Bytes → Written
write_fragment os f contents = write_data os f.pos f.dat contents

-- `readData` without a position gives the bytes and the offset behind them, or throws.
pub data Read : Type 0 where
  got : Bytes → ℕ → Read
  read_error : Read

unfoldable pub read_data : Moved → ℕ → Bytes → ℕ → Read
read_data (moved k) size contents pos =
    let bytes = take k (take size (drop pos contents)) in got bytes (pos + length bytes)
read_data full size contents pos = read_error
read_data failed size contents pos = read_error

-- `readData` with a position.
unfoldable pub read_data_at : Moved → ℕ → Int64 → Bytes → Read
read_data_at o size position contents =
    if leb (2 ^ 63) position then read_error else read_data o size contents position
