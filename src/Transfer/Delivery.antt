-- ===== src/Transfer/Delivery.antt =====
-- src/datareceiver.cpp, src/client.cpp: a whole file, from the client to the calls of `writeData`.
use instant_send.Prelude.{
  ◌≤◌, ℕ, zero, suc, ◌+◌, ◌^◌, ◌<◌, ◌≡◌, ◌∙◌, sym, refl, ap, true, false, some, List, [], ◌∷◌, ◌++◌,
  arith, Bytes, length, take, drop, take-drop, length-append, length-drop, length-take_le,
  Bool-cases, inl, inr,
}
use instant_send.Word.{Int64, add64, signed_ltb}
use instant_send.Json.Float.{FloatOps}
use instant_send.Transfer.{
  Event, write, dec_rc, receive_file_data, fragment_header, room, send_fragments, send_file,
  finished, max_size,
}
use instant_send.Transfer.Headers.{hear-fragment, hear-finished, length-fragment_header}

-- The events write the whole file from a position on, in order and without a gap, and then drop the
-- reference, once.
unfoldable pub Delivers : ℕ → Bytes → List Event → Type 0
Delivers pos file [] = ⊥
Delivers pos file (write p bytes ∷ es) =
    (p ≡ pos) × (rest : Bytes) × (file ≡ bytes ++ rest) × Delivers (pos + length bytes) rest es
Delivers pos file (dec_rc ∷ []) = file ≡ []
Delivers pos file (_ ∷ _) = ⊥

-- Every message fits a buffer.
abbrev pub AllFit : ℕ → List Bytes → Type 0
AllFit capacity [] = Unit
AllFit capacity (m ∷ ms) = (length m ≤ capacity) × AllFit capacity ms

AllFit-append :
    (capacity : ℕ) (ms ns : List Bytes)
    → AllFit capacity ms
    → AllFit capacity ns
    → AllFit capacity (ms ++ ns)
AllFit-append capacity [] ns h k = k
AllFit-append capacity (m ∷ ms) ns h k = (h.0, AllFit-append capacity ms ns h.1 k)

no_bytes : (file : Bytes) → length file ≡ 0 → file ≡ []
no_bytes [] h = refl
no_bytes (c ∷ file) h = absurd (omega arith)

module _ {F : Type 0} (fl : FloatOps F) (stale : Bytes) (size : Int64) where
  receive_fragment :
      (n : Int64) (chunk : Bytes) (ms : List Bytes)
      → n < 2 ^ 63
      → receive_file_data fl ((fragment_header fl n ++ 0 ∷ chunk) ∷ ms)
        ≡ write n chunk ∷ receive_file_data fl ms
  unfolding receive_file_data
  receive_fragment n chunk ms small = rw (receive_file_data, hear-fragment fl n chunk small) refl

  receive_finished : receive_file_data fl (finished stale ∷ []) ≡ dec_rc ∷ []
  unfolding receive_file_data
  receive_finished = rw (receive_file_data, hear-finished fl stale) refl

  abbrev Sent : ℕ → Int64 → Bytes → Type 0
  Sent fuel fpos file =
      (ms : List Bytes) × (send_fragments fl size fuel fpos file ≡ some ms)
      × Delivers fpos file (receive_file_data fl (ms ++ finished stale ∷ []))
      × AllFit max_size ms

  length-chunk : (k : ℕ) (file : Bytes) → length (take k file) + length (drop k file) ≡ length file
  length-chunk k file = sym (length-append (take k file) _) ∙ ap length (take-drop k file)

  abbrev chunk : Int64 → Bytes → Bytes
  chunk fpos file = take (room fl fpos) file

  abbrev left : Int64 → Bytes → Bytes
  left fpos file = drop (room fl fpos) file

  send_more :
      (fuel : ℕ) (fpos after : Int64) (file : Bytes) (ms : List Bytes)
      → add64 fpos (length (chunk fpos file)) ≡ after
      → signed_ltb after size ≡ true
      → send_fragments fl size fuel after (left fpos file) ≡ some ms
      → send_fragments fl size (suc fuel) fpos file
        ≡ some ((fragment_header fl fpos ++ 0 ∷ chunk fpos file) ∷ ms)
  unfolding send_fragments
  send_more fuel fpos after file ms e goes_on sends = rw (send_fragments, e, goes_on, sends) refl

  send_last :
      (fuel : ℕ) (fpos after : Int64) (file : Bytes)
      → add64 fpos (length (chunk fpos file)) ≡ after
      → signed_ltb after size ≡ false
      → send_fragments fl size (suc fuel) fpos file
        ≡ some ((fragment_header fl fpos ++ 0 ∷ chunk fpos file) ∷ [])
  unfolding send_fragments
  send_last fuel fpos after file e ends = rw (send_fragments, e, ends) refl

  Delivers-fragment :
      (fpos : Int64) (file rest bytes : Bytes) (ms : List Bytes)
      → fpos < 2 ^ 63
      → file ≡ bytes ++ rest
      → Delivers (fpos + length bytes) rest (receive_file_data fl ms)
      → Delivers fpos file (receive_file_data fl ((fragment_header fl fpos ++ 0 ∷ bytes) ∷ ms))
  unfolding Delivers
  Delivers-fragment fpos file rest bytes ms small e d =
      rw (receive_fragment fpos bytes ms small) (refl, rest, e, d)

  message_fits :
      (fpos : Int64) (file : Bytes)
      → fpos < 2 ^ 63
      → length (fragment_header fl fpos ++ 0 ∷ chunk fpos file) ≤ max_size
  message_fits fpos file small = omega (
    arith,
    length-append (fragment_header fl fpos) (0 ∷ chunk fpos file),
    length-take_le (room fl fpos) file,
    length-fragment_header fl fpos small,
  )

  sent :
      (fuel : ℕ) (fpos : Int64) (file : Bytes)
      → fpos + length file ≡ size
      → size < 2 ^ 63
      → length file < fuel
      → Sent fuel fpos file
  sent zero fpos file whole small enough = absurd (omega arith)
  sent (suc fuel) fpos file whole small enough =
      let split = length-chunk (room fl fpos) file in
      let header = length-fragment_header fl fpos (omega arith) in
      let after : add64 fpos (length (chunk fpos file)) ≡ fpos + length (chunk fpos file) =
        omega (arith, split) in
      elim (Bool-cases (signed_ltb (fpos + length (chunk fpos file)) size)) [
        | inl e ↦
            let (ms, sends, delivers, fit) =
              sent fuel (fpos + length (chunk fpos file)) (left fpos file) (omega (arith, split))
                small (ground (arith, split, length-drop (room fl fpos) file)) in
            (
              _ ∷ ms,
              send_more fuel fpos _ file ms after e sends,
              Delivers-fragment fpos file (left fpos file) (chunk fpos file) _ (omega arith)
                  (sym (take-drop (room fl fpos) file)) delivers,
              (message_fits fpos file (omega arith), fit),
            )
        | inr e ↦ (
          _ ∷ [],
          send_last fuel fpos _ file after e,
          Delivers-fragment fpos file (left fpos file) (chunk fpos file) _ (omega arith)
              (sym (take-drop (room fl fpos) file))
              (rw receive_finished
                (unfold Delivers in no_bytes (left fpos file) (ground (arith, split)))),
          (message_fits fpos file (omega arith), tt),
        )
      ]

  Sent-whole : (file : Bytes) → length file ≡ size → size < 2 ^ 63 → Sent (suc (length file)) 0 file
  Sent-whole file whole small = sent (suc (length file)) 0 file (omega arith) small (omega arith)

module _ {F : Type 0} (fl : FloatOps F) (file stale : Bytes) where
  pub sent_file :
      length file < 2 ^ 63
      → length stale ≤ 1000
      → (ms : List Bytes) × (send_file fl file stale ≡ some ms)
        × Delivers 0 file (receive_file_data fl ms)
        × AllFit max_size ms
  unfolding send_file
  sent_file small short =
      let (ms, sends, delivers, fit) = Sent-whole fl stale (length file) file refl small in
      (
        ms ++ finished stale ∷ [],
        rw (send_file, sends) refl,
        delivers,
        AllFit-append max_size ms (finished stale ∷ []) fit (omega arith, tt),
      )

  -- The client's loop ends for every file of less than 2^63 bytes, and the receiver makes of its
  -- messages calls of `writeData` that cover the whole file in order, and then drops its reference.
  pub send_file-Delivers :
      length file < 2 ^ 63
      → (ms : List Bytes) × (send_file fl file stale ≡ some ms)
        × Delivers 0 file (receive_file_data fl ms)
  unfolding send_file
  send_file-Delivers small =
      let (ms, sends, delivers, fit) = Sent-whole fl stale (length file) file refl small in
      (ms ++ finished stale ∷ [], rw (send_file, sends) refl, delivers)
