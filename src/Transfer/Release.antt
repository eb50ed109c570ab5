-- ===== src/Transfer/Release.antt =====
-- src/datareceiver.cpp: the reference that `receiveFileData` holds, and messages with no NUL.
use instant_send.Prelude.{◌^◌, ◌<◌, ◌≡◌, refl, [], ◌∷◌, List, Bytes}
use instant_send.Word.{Int64}
use instant_send.Json.Float.{FloatOps}
use instant_send.Transfer.{
  Heard, fragment, end_of_file, threw, overrun, hung, act, Event, write, send_err, dec_rc, crash,
  hang, receive_file_data, hear, fragment_header,
}
use instant_send.Transfer.Headers.{hear-header}

-- Only writes, and then the reference is dropped, behind an error message or not, and nothing
-- follows; or the receiver crashes or hangs.
pub EndsOnce : List Event → Type 0
EndsOnce [] = ⊥
EndsOnce (write n bytes ∷ es) = EndsOnce es
EndsOnce (send_err e ∷ es) = es ≡ dec_rc ∷ []
EndsOnce (dec_rc ∷ es) = es ≡ []
EndsOnce (crash ∷ es) = es ≡ []
EndsOnce (hang ∷ es) = es ≡ []

act-EndsOnce : (h : Heard) (es : List Event) → EndsOnce es → EndsOnce (act h es)
unfolding EndsOnce act
act-EndsOnce (fragment n bytes) es h = h
act-EndsOnce end_of_file es h = refl
act-EndsOnce (threw e) es h = refl
act-EndsOnce overrun es h = refl
act-EndsOnce hung es h = refl

module _ {F : Type 0} (fl : FloatOps F) where
  -- Whatever the messages are, the receiver writes and then drops its reference once, last, if it
  -- does not crash or hang.
  pub receive_file_data-EndsOnce : (ms : List Bytes) → EndsOnce (receive_file_data fl ms)
  unfolding receive_file_data EndsOnce
  receive_file_data-EndsOnce [] = refl
  receive_file_data-EndsOnce (m ∷ ms) =
      act-EndsOnce (hear fl m) (receive_file_data fl ms) (receive_file_data-EndsOnce ms)

  -- A header of a fragment with no NUL behind it makes the receiver copy 2^64 - 1 bytes.
  receive_file_data_bare :
      (n : Int64) (ms : List Bytes)
      → n < 2 ^ 63
      → receive_file_data fl (fragment_header fl n ∷ ms) ≡ crash ∷ []
  unfolding receive_file_data act
  receive_file_data_bare n ms small = rw (receive_file_data, hear-header fl n small) refl
