-- ===== src/Socket/Session.antt =====
-- plugins/ip4tcp-posix.cpp, src/client.cpp, src/datareceiver.cpp: a file, from the client over a socket to
-- the calls of `writeData`.
use instant_send.Prelude.{
  ℕ, suc, ◌^◌, ◌≤◌, ◌<◌, ◌≡◌, refl, false, none, some, List, [], ◌∷◌, arith, Bytes, length, ltb,
}
use instant_send.Json.Float.{FloatOps}
use instant_send.Socket.{Arrival, recv_messages}
use instant_send.Socket.Send.{frames}
use instant_send.Socket.Receive.{Flow, bytes_of, recv_data-Flow}
use instant_send.Socket.Faults.{recv_data_end}
use instant_send.Transfer.{max_size, send_file, receive_file_data, Event}
use instant_send.Transfer.Delivery.{Delivers, AllFit, sent_file}

-- The messages that were sent are received, in their order and whole, however the stream cuts them to
-- pieces, when each fits the buffer and the peer closes the connection behind the last one.
pub recv_messages-frames :
    (capacity : ℕ) (ms : List Bytes) (events : List Arrival)
    → capacity < 2 ^ 32
    → AllFit capacity ms
    → Flow events
    → bytes_of events ≡ frames ms
    → recv_messages (suc (length ms)) capacity events ≡ some ms
unfolding recv_messages
recv_messages-frames capacity [] events small fit h e =
    rw (recv_messages, recv_data_end 1 capacity events h e) refl
recv_messages-frames capacity (m ∷ ms) events small fit h e =
    let (rest, takes, flow, leaves) =
      recv_data-Flow (suc (length ms)) capacity events m (frames ms) h e fit.0 small in
    let within : ltb capacity (length m) ≡ false = ground arith in
    rw (recv_messages, takes, recv_messages-frames capacity ms rest small fit.1 flow leaves, within)
      refl

module _ {F : Type 0} (fl : FloatOps F) where
  -- The messages of `FileReader::send` behind the header of the file.
  unfoldable pub sent_messages : Bytes → Bytes → List Bytes
  sent_messages file stale = elim (send_file fl file stale) [ none ↦ [] | some ms ↦ ms ]

  -- `receiveFileData` on what arrives, if the loop of `recvData` ends within the fuel.
  unfoldable pub receive_over : ℕ → List Arrival → List Event
  receive_over fuel events = elim (recv_messages fuel max_size events) [
    | none ↦ []
    | some ms ↦ receive_file_data fl ms
  ]

  -- A file of less than 2^63 bytes that the client sends over a socket is written by the receiver
  -- whole, in order and without a gap, however the stream cuts the messages to pieces, and then the
  -- reference is dropped.
  pub receive_over-Delivers :
      (file stale : Bytes) (events : List Arrival)
      → length file < 2 ^ 63
      → length stale ≤ 1000
      → Flow events
      → bytes_of events ≡ frames (sent_messages file stale)
      → Delivers 0 file (receive_over (suc (length (sent_messages file stale))) events)
  unfolding receive_over sent_messages
  receive_over-Delivers file stale events small short h e =
      over (sent_file fl file stale small short)
    where
      over :
          (ms : List Bytes) × (send_file fl file stale ≡ some ms)
            × Delivers 0 file (receive_file_data fl ms)
            × AllFit max_size ms
          → Delivers 0 file (receive_over (suc (length (sent_messages file stale))) events)
      over (ms, sends, delivers, fit) =
          let same : sent_messages file stale ≡ ms = rw (sent_messages, sends) refl in
          let gets = recv_messages-frames max_size ms events (omega arith) fit h (rw same at e) in
          rw (same, receive_over, gets) delivers
