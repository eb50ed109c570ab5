-- ===== src/Tls/RoundTrip.antt =====
-- plugins/ip4tcps-posix.cpp: what `sendData` sends `recvData` receives.
use instant_send.Prelude.{
  ℕ, zero, suc, ◌-◌, ◌≤◌, ◌<◌, ◌^◌, ◌≡◌, refl, ap, ◌∙◌, Bool, true, false, List, [], ◌∷◌, ◌++◌,
  append_assoc, append-nil, arith, ltb, Bytes, length, take, drop, take-length, length-append,
  length-drop, take-drop,
}
use mathlib.Core.List.{map}
use instant_send.Socket.{encode_size}
use instant_send.Socket.Receive.{decode_size-encode_size}
use instant_send.Tls.{
  Write, took, zero_want, zero_error, minus_want, minus_error, returned, write_body, write_size,
  send_data, Arrival, record_of, message, read_body, smaller, recv_data,
}

-- No call fails, or asks for another; each takes something.
abbrev pub AllTake : List Write → Type 0
AllTake [] = Unit
AllTake (took k ∷ os) = (1 ≤ k) × AllTake os
AllTake (_ ∷ os) = ⊥

abbrev concat : List Bytes → Bytes
concat [] = []
concat (r ∷ rs) = r ++ concat rs

-- No record is empty.
abbrev Full : List Bytes → Type 0
Full [] = Unit
Full (r ∷ rs) = (1 ≤ length r) × Full rs

abbrev Carries : List Write → List Bytes → Bytes → Type 0
Carries os before dat =
    (records : List Bytes) × (left : List Write) × (write_body os before dat
      ≡ returned true (before ++ records) left)
    × (concat records ≡ dat)
    × Full records

takes : (k c : ℕ) (cs : Bytes) → 1 ≤ k → 1 ≤ length (take k (c ∷ cs))
takes zero c cs le = absurd (omega arith)
takes (suc k) c cs le = omega arith

write_body-AllTake :
    (os : List Write) (before : List Bytes) (dat : Bytes)
    → AllTake os
    → length dat ≤ length os
    → Carries os before dat
unfolding write_body
write_body-AllTake os before [] h enough = ([], os, rw append-nil refl, refl, tt)
write_body-AllTake [] before (c ∷ cs) h enough = absurd (omega arith)
write_body-AllTake (took k ∷ os) before (c ∷ cs) (le, h) enough =
    let (records, left, e, whole, full) =
      write_body-AllTake os (before ++ take k (c ∷ cs) ∷ []) (drop k (c ∷ cs)) h
        (omega (arith, length-drop k (c ∷ cs))) in
    (
      take k (c ∷ cs) ∷ records,
      left,
      e ∙ ap (λ l. returned true l left) (append_assoc before (take k (c ∷ cs) ∷ []) records),
      ap (λ l. take k (c ∷ cs) ++ l) whole ∙ take-drop k (c ∷ cs),
      (takes k c cs le, full),
    )
write_body-AllTake (zero_want ∷ os) before (c ∷ cs) h enough = absurd h
write_body-AllTake (zero_error ∷ os) before (c ∷ cs) h enough = absurd h
write_body-AllTake (minus_want ∷ os) before (c ∷ cs) h enough = absurd h
write_body-AllTake (minus_error ∷ os) before (c ∷ cs) h enough = absurd h

read_body-records :
    (records : List Bytes) (size n : ℕ) (stored : Bytes) (events : List Arrival)
    → Full records
    → length (concat records) ≡ n
    → read_body size (map record_of records ++ events) n stored
      ≡ message size (stored ++ concat records) events
unfolding read_body
read_body-records [] size zero stored [] full e = rw (append-nil stored) refl
read_body-records [] size zero stored (x ∷ events) full e = rw (append-nil stored) refl
read_body-records [] size (suc n) stored events full e = absurd (omega arith)
read_body-records (r ∷ rs) size zero stored events (le, full) e =
    absurd (omega (arith, length-append r (concat rs)))
read_body-records (r ∷ rs) size (suc n) stored events (le, full) e =
    let fits : ltb (suc n) (length r) ≡ false = ground (arith, length-append r (concat rs)) in
    rw fits (
      read_body-records rs size (suc n - length r) (stored ++ r) events full
        (omega (arith, length-append r (concat rs)))
      ∙ ap (λ l. message size l events) (append_assoc stored r (concat rs)))

-- When no call of `SSL_write` fails or asks for another and the size is taken whole, `sendData` returns 1
-- after at most as many calls as the message has bytes and one more, and of the records that it has made
-- `recvData` makes the message and leaves what comes behind, for every message that fits the buffer.
pub recv_data-send_data :
    (k : ℕ) (os : List Write) (errcode_positive : Bool) (dat : Bytes) (capacity : ℕ)
    (events : List Arrival)
    → 4 ≤ k
    → AllTake os
    → length dat ≤ length os
    → length dat ≤ capacity
    → length dat < 2 ^ 32
    → (records : List Bytes) × (left : List Write) × (send_data (took k ∷ os) errcode_positive dat
        ≡ returned true records left)
      × (recv_data capacity (map record_of records ++ events) ≡ message (length dat) dat events)
unfolding send_data write_size recv_data encode_size
recv_data-send_data k os errcode_positive dat capacity events le h enough fits small =
    let (records, left, e, whole, full) =
      write_body-AllTake os (encode_size (length dat) ∷ []) dat h enough in
    let size : take k (encode_size (length dat)) ≡ encode_size (length dat) =
      take-length k (encode_size (length dat)) le in
    let asked : smaller (length dat) capacity ≡ length dat = ground arith in
    (
      encode_size (length dat) ∷ records,
      left,
      rw size e,
      ap (λ n. read_body n (map record_of records ++ events) (smaller n capacity) [])
            (decode_size-encode_size (length dat) small)
          ∙ ap (λ n. read_body (length dat) (map record_of records ++ events) n []) asked
          ∙ read_body-records records (length dat) (length dat) [] events full (ap length whole)
          ∙ ap (λ l. message (length dat) l events) whole,
    )
