-- ===== src/Socket/Faults.antt =====
-- plugins/ip4tcp-posix.cpp: messages that `recvData` does not get whole.
use instant_send.Prelude.{
  ℕ, zero, suc, ◌-◌, ◌^◌, ◌≤◌, ◌<◌, ◌≡◌, ◌∙◌, refl, ap, false, List, [], ◌∷◌, ◌++◌, arith, Bytes,
  length, take, drop, append_assoc, append-nil, ltb, length-append, if◌then◌else◌, take-append_less,
  drop-append_less,
}
use instant_send.Socket.{
  Arrival, chunk, signal, closed, broken, got, recv, message, no_message, spins, recv_body,
  recv_data, encode_size,
}
use instant_send.Socket.Send.{frame}
use instant_send.Socket.Receive.{Flow, bytes_of, recv-Flow, recv_body-Flow, decode_size-encode_size}

-- Where the stream ends first, a call gets what is left of it.
pub recv_short :
    (events : List Arrival) (n : ℕ) (acc : Bytes)
    → Flow events
    → length (bytes_of events) < n
    → recv events n acc ≡ got (acc ++ bytes_of events) (closed ∷ [])
unfolding recv
recv_short events zero acc h short = absurd (omega arith)
recv_short [] (suc n) acc h short = absurd h
recv_short (chunk bs ∷ events) (suc n) acc h short =
    let within : ltb (suc n) (length bs) ≡ false =
      ground (arith, length-append bs (bytes_of events)) in
    rw within (
      recv_short events (suc n - length bs) (acc ++ bs) h
        (omega (arith, length-append bs (bytes_of events)))
      ∙ rw (append_assoc acc bs (bytes_of events)) refl)
recv_short (signal ∷ events) (suc n) acc h short = absurd h
recv_short (closed ∷ events) (suc n) acc h short = rw (h, append-nil) refl
recv_short (broken ∷ events) (suc n) acc h short = absurd h

-- At the end of the stream `recvData` returns 0.
pub recv_data_end :
    (fuel capacity : ℕ) (events : List Arrival)
    → Flow events
    → bytes_of events ≡ []
    → recv_data fuel capacity events ≡ no_message
unfolding recv_data
recv_data_end fuel capacity events h e =
    rw (recv_data, recv_short events 4 [] h (omega (arith, ap length e)), e) refl

-- The rest of a message whose sender is gone.
recv_body_closed :
    (fuel size n : ℕ) (stored : Bytes) → recv_body fuel size (closed ∷ []) (suc n) stored ≡ spins
unfolding recv_body recv
recv_body_closed zero size n stored = refl
recv_body_closed (suc fuel) size n stored =
    let same : suc n - 0 ≡ suc n = omega arith in
    rw (recv_body, same) (recv_body_closed fuel size n (stored ++ []))

recv_body_short :
    (fuel size n : ℕ) (events : List Arrival)
    → Flow events
    → length (bytes_of events) < n
    → recv_body fuel size events n [] ≡ spins
unfolding recv_body
recv_body_short fuel size zero events h short = absurd (omega arith)
recv_body_short zero size (suc n) events h short = refl
recv_body_short (suc fuel) size (suc n) events h short =
    let left : suc n - length (bytes_of events) ≡ suc (n - length (bytes_of events)) =
      omega arith in
    rw (recv_body, recv_short events (suc n) [] h short, left)
      (recv_body_closed fuel size (n - length (bytes_of events)) (bytes_of events))

-- The sizes that a header announces, and the call that reads it.
recv_header :
    (fuel capacity size : ℕ) (events : List Arrival) (part : Bytes)
    → Flow events
    → bytes_of events ≡ encode_size size ++ part
    → size < 2 ^ 32
    → (after : List Arrival) × (recv_data fuel capacity events
        ≡ recv_body fuel size after (if ltb size capacity then size else capacity) [])
      × Flow after
      × (bytes_of after ≡ part)
unfolding recv_data encode_size
recv_header fuel capacity size events part h framed small =
    let (after, gets, flow, leaves) = recv-Flow events 4 [] h (omega (arith, ap length framed)) in
    let header : take 4 (bytes_of events) ≡ encode_size size = ap (take 4) framed in
    (
      after,
      rw (recv_data, gets, header, decode_size-encode_size size small) refl,
      flow,
      leaves ∙ ap (drop 4) framed,
    )

-- When the peer closes the connection within a message that fits the buffer, `recvData` never
-- returns: no amount of fuel ends its loop.
pub recv_data_closed :
    (fuel capacity size : ℕ) (events : List Arrival) (part : Bytes)
    → Flow events
    → bytes_of events ≡ encode_size size ++ part
    → length part < size
    → size ≤ capacity
    → size < 2 ^ 32
    → recv_data fuel capacity events ≡ spins
recv_data_closed fuel capacity size events part h framed short fits small =
    let (after, e, flow, leaves) = recv_header fuel capacity size events part h framed small in
    let all : (if ltb size capacity then size else capacity) ≡ size = ground arith in
    e
    ∙ ap (λ n. recv_body fuel size after n []) all
    ∙ (recv_body_short fuel size size after flow (omega (arith, ap length leaves)))

-- A message longer than the buffer is given out with its own size, while only the first part of it is
-- stored; the rest is left in the stream, to be taken for the size of the next message.
recv_data_long :
    (fuel capacity : ℕ) (events : List Arrival) (dat more : Bytes)
    → Flow events
    → bytes_of events ≡ frame dat ++ more
    → capacity < length dat
    → length dat < 2 ^ 32
    → (rest : List Arrival) × (recv_data (suc fuel) capacity events
        ≡ message (length dat) (take capacity dat) rest)
      × (bytes_of rest ≡ drop capacity dat ++ more)
recv_data_long fuel capacity events dat more h framed long small =
    let (after, e, flow, leaves) =
      recv_header (suc fuel) capacity (length dat) events (dat ++ more) h
        (framed ∙ append_assoc (encode_size (length dat)) dat more) small in
    let part : (if ltb (length dat) capacity then length dat else capacity) ≡ capacity =
      ground arith in
    let (rest, body, flow2, leaves2) =
      recv_body-Flow fuel (length dat) capacity after flow
        (omega (arith, ap length leaves, length-append dat more)) in
    (
      rest,
      e
          ∙ ap (λ n. recv_body (suc fuel) (length dat) after n []) part
          ∙ body
          ∙ ap (λ b. message (length dat) b rest)
              (ap (take capacity) leaves ∙ take-append_less capacity dat more (omega arith)),
      leaves2 ∙ ap (drop capacity) leaves ∙ drop-append_less capacity dat more (omega arith),
    )
