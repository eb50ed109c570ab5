-- ===== src/Socket/Receive.antt =====
-- plugins/ip4tcp-posix.cpp: what `recvData` takes off a connection.
use instant_send.Prelude.{
  ℕ, zero, suc, ◌+◌, ◌-◌, ◌^◌, ◌≤◌, ◌<◌, ◌≡◌, ◌∙◌, refl, sym, ap, false, List, [], ◌∷◌, ◌++◌, arith,
  Bytes, length, take, drop, take-append_more, take-append_less, drop-append_more, drop-append_less,
  append_assoc, append-nil, ltb, Bool-cases, inl, inr, length-append, length-take,
  take-append_length, drop-append, if◌then◌else◌,
}
use instant_send.Socket.{
  Arrival, chunk, signal, closed, broken, got, recv, message, recv_body, recv_data, encode_size,
  decode_size,
}
use instant_send.Socket.Send.{frame}

-- Bytes arrive in pieces of any size, and then the peer closes the connection.
abbrev pub Flow : List Arrival → Type 0
Flow [] = ⊥
Flow (chunk bs ∷ events) = Flow events
Flow (closed ∷ events) = events ≡ []
Flow (_ ∷ events) = ⊥

abbrev pub bytes_of : List Arrival → Bytes
bytes_of [] = []
bytes_of (chunk bs ∷ events) = bs ++ bytes_of events
bytes_of (_ ∷ events) = []

-- A call gets what it asks for, whatever the pieces are, and leaves the rest.
pub recv-Flow :
    (events : List Arrival) (n : ℕ) (acc : Bytes)
    → Flow events
    → n ≤ length (bytes_of events)
    → (rest : List Arrival) × (recv events n acc ≡ got (acc ++ take n (bytes_of events)) rest)
      × Flow rest
      × (bytes_of rest ≡ drop n (bytes_of events))
unfolding recv
recv-Flow events zero acc h enough = (events, rw append-nil refl, h, refl)
recv-Flow [] (suc n) acc h enough = absurd h
recv-Flow (chunk bs ∷ events) (suc n) acc h enough = elim (Bool-cases (ltb (suc n) (length bs))) [
  | inl e ↦ (
    chunk (drop (suc n) bs) ∷ events,
    rw (e, take-append_less (suc n) bs (bytes_of events) (ground arith)) refl,
    h,
    sym (drop-append_less (suc n) bs (bytes_of events) (ground arith)),
  )
  | inr e ↦
      let fits : length bs ≤ suc n = ground arith in
      let left : suc n - length bs ≤ length (bytes_of events) =
        omega (arith, length-append bs (bytes_of events)) in
      let (rest, gets, flow, leaves) = recv-Flow events (suc n - length bs) (acc ++ bs) h left in
      (
        rest,
        rw
            (
              e,
              take-append_more (suc n) bs (bytes_of events) fits,
              ← append_assoc acc bs (take (suc n - length bs) (bytes_of events)),
            )
            gets,
        flow,
        leaves ∙ sym (drop-append_more (suc n) bs (bytes_of events) fits),
      )
]
recv-Flow (signal ∷ events) (suc n) acc h enough = absurd h
recv-Flow (closed ∷ events) (suc n) acc h enough = absurd (omega arith)
recv-Flow (broken ∷ events) (suc n) acc h enough = absurd h

pub decode_size-encode_size : (n : ℕ) → n < 2 ^ 32 → decode_size (encode_size n) ≡ n
unfolding encode_size decode_size
decode_size-encode_size n h = omega arith

-- The body of a message, in one call.
pub recv_body-Flow :
    (fuel size n : ℕ) (events : List Arrival)
    → Flow events
    → n ≤ length (bytes_of events)
    → (rest : List Arrival) × (recv_body (suc fuel) size events n []
        ≡ message size (take n (bytes_of events)) rest)
      × Flow rest
      × (bytes_of rest ≡ drop n (bytes_of events))
unfolding recv_body
recv_body-Flow fuel size zero events h enough = (events, refl, h, refl)
recv_body-Flow fuel size (suc n) events h enough =
    let (rest, gets, flow, leaves) = recv-Flow events (suc n) [] h enough in
    let all : suc n - length (take (suc n) (bytes_of events)) ≡ 0 =
      omega (arith, length-take (suc n) (bytes_of events) enough) in
    (rest, rw (recv_body, gets, all) refl, flow, leaves)

-- The four bytes in front of the message.
pub framed_size : (dat more : Bytes) → take 4 (frame dat ++ more) ≡ encode_size (length dat)
unfolding encode_size
framed_size dat more = refl

pub framed_rest : (dat more : Bytes) → drop 4 (frame dat ++ more) ≡ dat ++ more
unfolding encode_size
framed_rest dat more = refl

pub length-frame : (dat more : Bytes) → length (frame dat ++ more) ≡ 4 + (length dat + length more)
unfolding encode_size
length-frame dat more = omega (arith, length-append dat more)

to_receive : (n capacity : ℕ) → n ≤ capacity → (if ltb n capacity then n else capacity) ≡ n
to_receive n capacity h = ground arith

recv_data_after :
    (fuel capacity : ℕ) (events after : List Arrival) (dat : Bytes)
    → recv events 4 [] ≡ got (encode_size (length dat)) after
    → length dat ≤ capacity
    → length dat < 2 ^ 32
    → recv_data fuel capacity events ≡ recv_body fuel (length dat) after (length dat) []
unfolding recv_data
recv_data_after fuel capacity events after dat gets fits small =
    let four : ltb (length (encode_size (length dat))) 4 ≡ false = unfold encode_size in refl in
    rw
      (
        recv_data,
        gets,
        four,
        decode_size-encode_size (length dat) small,
        to_receive (length dat) capacity fits,
      )
      refl

-- From a connection that brings a message in its frame, in pieces of any size, `recvData` takes that
-- message if it fits the buffer, and leaves what follows.
pub recv_data-Flow :
    (fuel capacity : ℕ) (events : List Arrival) (dat more : Bytes)
    → Flow events
    → bytes_of events ≡ frame dat ++ more
    → length dat ≤ capacity
    → capacity < 2 ^ 32
    → (rest : List Arrival) × (recv_data (suc fuel) capacity events ≡ message (length dat) dat rest)
      × Flow rest
      × (bytes_of rest ≡ more)
recv_data-Flow fuel capacity events dat more h framed fits small =
    let whole : 4 + (length dat + length more) ≤ length (bytes_of events) =
      omega (arith, ap length framed, length-frame dat more) in
    let (after, gets, flow, leaves) = recv-Flow events 4 [] h (omega arith) in
    let header : take 4 (bytes_of events) ≡ encode_size (length dat) =
      ap (take 4) framed ∙ framed_size dat more in
    let behind : bytes_of after ≡ dat ++ more =
      leaves ∙ ap (drop 4) framed ∙ framed_rest dat more in
    let (rest, body, flow2, leaves2) =
      recv_body-Flow fuel (length dat) (length dat) after flow
        (omega (arith, ap length behind, length-append dat more)) in
    (
      rest,
      recv_data_after (suc fuel) capacity events after dat (rw header at gets) fits (omega arith)
          ∙ body
          ∙ ap (λ b. message (length dat) b rest)
              (ap (take (length dat)) behind ∙ take-append_length dat more),
      flow2,
      leaves2 ∙ ap (drop (length dat)) behind ∙ drop-append dat more,
    )
