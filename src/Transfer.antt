-- ===== src/Transfer.antt =====
-- src/datareceiver.cpp, src/client.cpp: the part of a connection that carries the file. A message is
-- a header in JSON, a NUL, and the bytes of the fragment.
pub mod Headers
pub mod Delivery
pub mod Release
pub mod Offer
pub mod Reply
use instant_send.Prelude.{
  ℕ, zero, suc, ◌+◌, ◌-◌, Bool, true, false, List, [], ◌∷◌, ◌++◌, Option, none, some, ◌==◌,
  if◌then◌else◌, Bytes, first_byte, length, take, drop, codes,
}
use instant_send.CString.{c_string}
use instant_send.Word.{Int64, add64, signed_ltb}
use instant_send.Json.Result.{Result, ok, syntax_err, out_of_fuel, ◌>>=◌}
use instant_send.Json.Syntax.{Json, Fields, int, float, str, bool, null, arr, obj, no_fields}
use instant_send.Json.Float.{FloatOps}
use instant_send.Json.Loader.{bytes_eq, cfg_read_str}
use instant_send.Json.Printer.{print}
use instant_send.Json.Cast.{Thrown, bad_syntax, missing, bad_cast, read_object}
use instant_send.Json.Object.{found, not_exist, gie, insert_val}

-- `DMAXSIZE`, the size of the buffers.
abbrev pub max_size : ℕ
max_size = 1024

-- What a message does to `receiveFileData`. In `overrun` the message has no NUL, so that the size of
-- the fragment, `data->size - hlen - 1`, wraps to 2^64 - 1, and that many bytes are copied. `hung` is
-- a header that is never read to its end.
pub data Heard : Type 0 where
  fragment : Int64 → Bytes → Heard
  end_of_file : Heard
  threw : Thrown → Heard
  overrun hung : Heard

-- What `receiveFileData` does: `writer.writeData`, `sendErrMsg`, and `writer.decRC` before it returns.
pub data Event : Type 0 where
  write : Int64 → Bytes → Event
  send_err : Thrown → Event
  dec_rc : Event
  crash hang : Event

-- The end of a round, with what the rounds behind it do.
pub act : Heard → List Event → List Event
act (fragment n bytes) more = write n bytes ∷ more
act end_of_file more = dec_rc ∷ []
act (threw e) more = send_err e ∷ dec_rc ∷ []
act overrun more = crash ∷ []
act hung more = hang ∷ []

module _ {F : Type 0} where
  -- The cast of `position` to `jsonInt_t &`, and the fragment behind the header.
  hear_position : Bytes → Json F → Heard
  hear_position m (int n) =
      let hlen = length (c_string m) in
      if hlen == length m then overrun else fragment n (drop (hlen + 1) m)
  hear_position m _ = threw bad_cast

  hear_action : Json F → Heard
  hear_action (str s) =
      if bytes_eq s (codes "finished") then end_of_file else threw (missing (codes "position"))
  hear_action _ = threw bad_cast

  unfoldable pub hear_header : Bytes → Fields F → Heard
  unfolding hear_position hear_action
  hear_header m h = elim (gie (codes "position") h) [
    | found v ↦ hear_position m v
    | not_exist k ↦ elim (gie (codes "action") h) [
      | found v ↦ hear_action v
      | not_exist j ↦ threw (missing j)
    ]
  ]

module _ {F : Type 0} (fl : FloatOps F) where
  unfoldable pub hear : Bytes → Heard
  hear m = elim (read_object fl (c_string m)) [
    | ok h ↦ hear_header m h
    | syntax_err p ↦ threw (bad_syntax p)
    | out_of_fuel ↦ hung
  ]

  -- The loop, on the messages that `recvData` gives until it fails.
  unfoldable pub receive_file_data : List Bytes → List Event
  unfolding act
  receive_file_data [] = dec_rc ∷ []
  receive_file_data (m ∷ ms) = act (hear m) (receive_file_data ms)

  -- `msgobj.toString()` at a position.
  unfoldable pub fragment_header : Int64 → Bytes
  fragment_header fpos = print fl (obj (insert_val (codes "position") (int fpos) no_fields))

  -- What `mFile.read` is asked for.
  abbrev pub room : Int64 → ℕ
  room fpos = max_size - 1 - length (fragment_header fpos)

  -- The loop of `FileReader::send`, with what is left of the file; a read gives all that it is asked
  -- for, or the rest of the file. `none` is no result of the code: the fuel does not suffice.
  unfoldable pub send_fragments : Int64 → ℕ → Int64 → Bytes → Option (List Bytes)
  send_fragments file_size zero fpos file = none
  send_fragments file_size (suc fuel) fpos file =
      let chunk = take (room fpos) file in
      let message = fragment_header fpos ++ 0 ∷ chunk in
      let after = add64 fpos (length chunk) in
      let more = send_fragments file_size fuel after (drop (room fpos) file) in
      if signed_ltb after file_size
      then elim more [ none ↦ none | some ms ↦ some (message ∷ ms) ]
      else some (message ∷ [])

-- The last message has the size 26, four bytes more than its text: `stale` is what the buffer holds
-- there.
abbrev pub finished : Bytes → Bytes
finished stale = codes "{\"action\":\"finished\"}" ++ 0 ∷ stale

-- All that `FileReader::send` sends behind the header of the file.
unfoldable pub send_file : {F : Type 0} → FloatOps F → Bytes → Bytes → Option (List Bytes)
send_file fl file stale = elim (send_fragments fl (length file) (suc (length file)) 0 file) [
  | none ↦ none
  | some ms ↦ some (ms ++ finished stale ∷ [])
]
