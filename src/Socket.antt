-- ===== src/Socket.antt =====
-- plugins/ip4tcp-posix.cpp: `sendData` and `recvData` of a connection over a socket. What the calls of
-- the system do is a list, an entry for each call or event; they may take or give fewer bytes than
-- they are asked for.
pub mod Send
pub mod Receive
pub mod Session
pub mod Faults
pub mod Endpoint
pub mod Ipv6
use instant_send.Prelude.{
  ℕ, zero, suc, ◌+◌, ◌-◌, ◌*◌, ◌/◌, ◌%◌, ◌^◌, Bool, true, false, Option, none, some, List, [], ◌∷◌,
  ◌++◌, ltb, if◌then◌else◌, Bytes, length, take, drop,
}

-- `htonl`, as the bytes that are sent, and `ntohl` of four bytes.
unfoldable pub encode_size : ℕ → Bytes
encode_size n = n / 2 ^ 24 % 256 ∷ n / 2 ^ 16 % 256 ∷ n / 2 ^ 8 % 256 ∷ n % 256 ∷ []

unfoldable pub decode_size : Bytes → ℕ
decode_size (a ∷ b ∷ c ∷ d ∷ []) = a * 2 ^ 24 + b * 2 ^ 16 + c * 2 ^ 8 + d
decode_size _ = 0

-- A call of `send` takes so many bytes, at most those that it was given; or it fails with EAGAIN or
-- EINTR, or with another error.
pub data Outcome : Type 0 where
  took : ℕ → Outcome
  again failed : Outcome

-- `sendData` returns 1 or 0, having put bytes on the wire, or it waits for ever in a call.
pub data Sent : Type 0 where
  returned : Bool → Bytes → List Outcome → Sent
  waits : Bytes → Sent

-- The second loop of `sendData`, with what is on the wire and what is left from `ptr` on.
unfoldable pub send_body : List Outcome → Bytes → Bytes → Sent
send_body os wire [] = returned true wire os
send_body [] wire (c ∷ cs) = waits wire
send_body (took k ∷ os) wire (c ∷ cs) = send_body os (wire ++ take k (c ∷ cs)) (drop k (c ∷ cs))
send_body (again ∷ os) wire (c ∷ cs) = send_body os wire (c ∷ cs)
send_body (failed ∷ os) wire (c ∷ cs) = returned false wire os

-- The first loop. Neither an error nor a number of bytes less than four is noticed.
unfoldable pub send_data : List Outcome → Bytes → Sent
send_data [] dat = waits []
send_data (took k ∷ os) dat = send_body os (take k (encode_size (length dat))) dat
send_data (again ∷ os) dat = send_data os dat
send_data (failed ∷ os) dat = send_body os [] dat

-- What happens at the other end, in order: bytes arrive, a signal interrupts the call, the peer closes
-- the connection, or the connection breaks.
pub data Arrival : Type 0 where
  chunk : Bytes → Arrival
  signal closed broken : Arrival

-- `recv` with `MSG_WAITALL`: all bytes it was asked for, fewer of them where something else happened
-- first, none at the end of the stream; or an error, EINTR or another. `blocks` waits for ever.
pub data Recv : Type 0 where
  got : Bytes → List Arrival → Recv
  eintr : List Arrival → Recv
  recv_error blocks : Recv

-- With what the call has so far.
unfoldable pub recv : List Arrival → ℕ → Bytes → Recv
recv events zero acc = got acc events
recv [] (suc n) acc = blocks
recv (chunk bs ∷ events) (suc n) acc =
    let more = recv events (suc n - length bs) (acc ++ bs) in
    if ltb (suc n) (length bs)
    then got (acc ++ take (suc n) bs) (chunk (drop (suc n) bs) ∷ events)
    else more
recv (signal ∷ events) (suc n) [] = eintr events
recv (signal ∷ events) (suc n) (c ∷ cs) = got (c ∷ cs) events
recv (closed ∷ events) (suc n) acc = got acc (closed ∷ events)
recv (broken ∷ events) (suc n) [] = recv_error
recv (broken ∷ events) (suc n) (c ∷ cs) = got (c ∷ cs) (broken ∷ events)

-- `recvData` returns 1 with `data->size` and the bytes stored, or 0. `spins` is no result of the code:
-- the fuel did not suffice.
pub data Taken : Type 0 where
  message : ℕ → Bytes → List Arrival → Taken
  no_message waiting spins : Taken

-- The loop of `recvData`, with `torecv` and the bytes stored.
unfoldable pub recv_body : ℕ → ℕ → List Arrival → ℕ → Bytes → Taken
recv_body fuel size events zero stored = message size stored events
recv_body zero size events (suc n) stored = spins
recv_body (suc fuel) size events (suc n) stored = elim (recv events (suc n) []) [
  | got bytes rest ↦ recv_body fuel size rest (suc n - length bytes) (stored ++ bytes)
  | eintr rest ↦ recv_body fuel size rest (suc n) stored
  | recv_error ↦ no_message
  | blocks ↦ waiting
]

unfoldable pub recv_data : ℕ → ℕ → List Arrival → Taken
recv_data fuel capacity events = elim (recv events 4 []) [
  | got header rest ↦
      let size = decode_size header in
      if ltb (length header) 4
      then no_message
      else recv_body fuel size rest (if ltb size capacity then size else capacity) []
  | eintr rest ↦ no_message
  | recv_error ↦ no_message
  | blocks ↦ waiting
]

-- `while(... && cptr->recvData(data.get()))`: the messages, where none is greater than the buffer.
unfoldable pub recv_messages : ℕ → ℕ → List Arrival → Option (List Bytes)
recv_messages zero capacity events = none
recv_messages (suc fuel) capacity events = elim (recv_data (suc fuel) capacity events) [
  | message size bytes rest ↦ elim (recv_messages fuel capacity rest) [
    | none ↦ none
    | some ms ↦ if ltb capacity size then none else some (bytes ∷ ms)
  ]
  | no_message ↦ some []
  | waiting ↦ none
  | spins ↦ none
]
