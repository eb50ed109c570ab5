-- ===== src/Client/Upload.antt =====
-- src/client.cpp: `FileReader::send` with what its peer does.
pub mod Answered
use instant_send.Prelude.{
  ℕ, zero, suc, Bool, true, false, not, List, [], ◌∷◌, ◌++◌, Option, none, some, if◌then◌else◌,
  Bytes, codes, length, ltb,
}
use instant_send.CString.{c_string}
use instant_send.Json.Syntax.{Json, Fields}
use instant_send.Json.Float.{FloatOps}
use instant_send.Json.Loader.{bytes_eq}
use instant_send.Json.Cast.{
  Attempt, value, raised, endless, Thrown, missing, runtime, ◌>>=◌, attempt, as_str, member,
  read_object,
}
use instant_send.Transfer.{max_size, send_fragments, finished}
use instant_send.Transfer.Offer.{offer}

-- `send` returns, or throws, having given messages to `sendData`; or it never ends; or it writes outside
-- of its buffer. The status of
-- the transfer, which follows from the end, and the events are left out.
pub data Upload : Type 0 where
  uploaded : List Bytes → Upload
  failed : Thrown → List Bytes → Upload
  never : Upload
  overran : List Bytes → Upload

-- Messages are sent until `sendData` fails; `none` is a connection that does not break, `some n` one
-- that takes so many messages more. The result has what was given to `sendData`, and the connection
-- unless it broke.
unfoldable pub send_each : List Bytes → Option ℕ → List Bytes × Option (Option ℕ)
send_each [] breaks = ([], some breaks)
send_each (m ∷ ms) none = let (out, after) = send_each ms none in (m ∷ out, after)
send_each (m ∷ ms) (some zero) = (m ∷ [], none)
send_each (m ∷ ms) (some (suc n)) = let (out, after) = send_each ms (some n) in (m ∷ out, after)

-- What the reason of a rejection makes of it.
unfoldable pub rejected : Attempt Bytes → Attempt Bytes
rejected (value reason) = raised (runtime (codes "File rejected: " ++ reason))
rejected (raised (missing k)) = raised (runtime (codes "File rejected: unknown reason"))
rejected (raised e) = raised e
rejected endless = endless

module _ {F : Type 0} where
  -- The action is given back.
  unfoldable pub check_action : Bytes → Fields F → Attempt Bytes
  check_action action h =
      if bytes_eq action (codes "accept")
      then value action
      else rejected (member (codes "reason") h >>= as_str)

  unfoldable pub check_answer : Fields F → Attempt Bytes
  check_answer h = member (codes "service") h >>= as_str >>= λ service.
      if bytes_eq service (codes "filetransfer")
      then (member (codes "action") h >>= as_str >>= λ action. check_action action h)
      else raised (runtime (codes "Unknown protocol"))

module _ {F : Type 0} (fl : FloatOps F) where
  unfoldable pub read_answer : Bytes → Attempt Bytes
  read_answer m = attempt (read_object fl (c_string m)) >>= check_answer

  -- The loop and the last message, whose result is not looked at.
  unfoldable pub upload_file : Bytes → Bytes → Bytes → Option ℕ → Upload
  upload_file first file stale breaks =
      elim (send_fragments fl (length file) (suc (length file)) 0 file) [
        | none ↦ never
        | some ms ↦
            let (out, after) = send_each ms breaks in
            elim after [
              | none ↦ failed (runtime (codes "Can't send!")) (first ∷ out)
              | some b ↦ uploaded (first ∷ out ++ finished stale ∷ [])
            ]
      ]

  unfoldable pub upload_answered : Bytes → Bytes → Bytes → Option ℕ → Attempt Bytes → Upload
  upload_answered first file stale breaks (value action) = upload_file first file stale breaks
  upload_answered first file stale breaks (raised e) = failed e (first ∷ [])
  upload_answered first file stale breaks endless = never

  -- `data->data[data->size] = 0` takes the size that was announced.
  unfoldable pub upload_first : Bytes → Bytes → Bytes → Option ℕ → Option Bytes → Upload
  upload_first first file stale breaks response =
      let (out, after) = send_each (first ∷ []) breaks in
      elim after [
        | none ↦ failed (runtime (codes "Can't send!")) out
        | some b ↦ elim response [
          | none ↦ failed (runtime (codes "No response")) out
          | some m ↦
              if ltb max_size (length m)
              then overran out
              else upload_answered first file stale b (read_answer m)
        ]
      ]

  -- `response` is what `recvData` gives, `none` where it fails.
  unfoldable pub upload : Bytes → Bytes → Bytes → Option ℕ → Option Bytes → Upload
  upload name file stale breaks response = elim (offer fl name (length file)) [
    | none ↦ overran []
    | some first ↦ upload_first first file stale breaks response
  ]
