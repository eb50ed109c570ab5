-- ===== src/Socket/Send.antt =====
-- plugins/ip4tcp-posix.cpp: what `sendData` puts on the wire.
use instant_send.Prelude.{
  ℕ, ◌+◌, ◌≤◌, ◌<◌, ◌≡◌, ◌∙◌, refl, ap, true, List, [], ◌∷◌, ◌++◌, arith, Bytes, length, take, drop,
  take-drop, take-length, append_assoc, append-nil, length-drop,
}
use instant_send.Socket.{Outcome, took, again, failed, returned, encode_size, send_body, send_data}

-- A message on the wire.
abbrev pub frame : Bytes → Bytes
frame dat = encode_size (length dat) ++ dat

abbrev pub frames : List Bytes → Bytes
frames [] = []
frames (m ∷ ms) = frame m ++ frames ms

-- No call fails for good, the one for the size takes its four bytes, and each one for data takes a
-- byte at least.
abbrev pub Works : List Outcome → Type 0
Works [] = Unit
Works (took k ∷ os) = (1 ≤ k) × Works os
Works (again ∷ os) = Works os
Works (failed ∷ os) = ⊥

abbrev pub WholeSize : List Outcome → Type 0
WholeSize [] = Unit
WholeSize (took k ∷ os) = 4 ≤ k
WholeSize (again ∷ os) = WholeSize os
WholeSize (failed ∷ os) = ⊥

-- The calls that take something.
abbrev pub takes : List Outcome → ℕ
takes [] = 0
takes (took k ∷ os) = 1 + takes os
takes (_ ∷ os) = takes os

send_body-Works :
    (os : List Outcome) (wire dat : Bytes)
    → Works os
    → length dat ≤ takes os
    → (rest : List Outcome) × (send_body os wire dat ≡ returned true (wire ++ dat) rest)
unfolding send_body
send_body-Works os wire [] h enough = (os, rw append-nil refl)
send_body-Works [] wire (c ∷ cs) h enough = absurd (omega arith)
send_body-Works (took k ∷ os) wire (c ∷ cs) (pos, h) enough =
    let (rest, e) =
      send_body-Works os (wire ++ take k (c ∷ cs)) (drop k (c ∷ cs)) h
        (omega (arith, length-drop k (c ∷ cs))) in
    (
      rest,
      e
          ∙ ap (λ w. returned true w rest)
              (append_assoc wire _ _ ∙ ap (λ d. wire ++ d) (take-drop k (c ∷ cs))),
    )
send_body-Works (failed ∷ os) wire (c ∷ cs) h enough = absurd h
send_body-Works (again ∷ os) wire (c ∷ cs) h enough = send_body-Works os wire (c ∷ cs) h enough

four : (k : ℕ) (dat : Bytes) → 4 ≤ k → take k (encode_size (length dat)) ≡ encode_size (length dat)
unfolding encode_size
four k dat h = take-length k (encode_size (length dat)) (omega arith)

-- However the calls split the message, `sendData` returns 1 after as many calls that take something
-- as the message has bytes, and one more for the size, and the wire holds the message in its frame.
pub send_data-Works :
    (os : List Outcome) (dat : Bytes)
    → Works os
    → WholeSize os
    → length dat < takes os
    → (rest : List Outcome) × (send_data os dat ≡ returned true (frame dat) rest)
unfolding send_data
send_data-Works [] dat h w enough = absurd (omega arith)
send_data-Works (took k ∷ os) dat h w enough =
    rw (four k dat w) (send_body-Works os (encode_size (length dat)) dat h.1 (omega arith))
send_data-Works (failed ∷ os) dat h w enough = absurd h
send_data-Works (again ∷ os) dat h w enough = send_data-Works os dat h w enough
