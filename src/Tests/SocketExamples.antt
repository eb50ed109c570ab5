-- ===== src/Tests/SocketExamples.antt =====
-- The theorems about plugins/ip4tcp-posix.cpp at concrete streams.
use instant_send.Json.Syntax.{Json, int, str, obj, no_fields, field}
use instant_send.Socket.Endpoint.{System}
use instant_send.Tests.JsonRuns.{Term}
use instant_send.Prelude.{
  some, false, suc, append-nil, ◌≡◌, refl, true, List, [], ◌∷◌, arith, codes, length,
}
use instant_send.Socket.{
  Outcome, took, again, returned, Arrival, chunk, closed, send_data, recv_data, encode_size, spins,
}
use instant_send.Socket.Send.{frame, frames, send_data-Works}
use instant_send.Socket.Faults.{recv_data_closed}
use instant_send.Socket.Session.{sent_messages, receive_over, receive_over-Delivers}
use instant_send.Transfer.Delivery.{Delivers}
use instant_send.Tests.JsonRuns.{term_ops}

abbrev calls : List Outcome
calls = again ∷ took 4 ∷ took 2 ∷ again ∷ took 9 ∷ took 1 ∷ []

send_data-Works_example :
    (rest : List Outcome) × (send_data calls (codes "abc")
      ≡ returned true (frame (codes "abc")) rest)
send_data-Works_example =
    send_data-Works calls (codes "abc")
      (omega arith, (omega arith, (omega arith, (omega arith, tt)))) (omega arith) (omega arith)

-- A message in two pieces, and the first byte of another.
abbrev pieces : List Arrival
pieces = chunk (0 ∷ 0 ∷ []) ∷ chunk (0 ∷ 3 ∷ b'a' ∷ b'b' ∷ []) ∷ chunk (b'c' ∷ 0 ∷ []) ∷ closed ∷ []

recv_data_closed_example :
    recv_data 99 1024 (chunk (0 ∷ 0 ∷ 0 ∷ 3 ∷ b'a' ∷ []) ∷ closed ∷ []) ≡ spins
unfolding encode_size
recv_data_closed_example =
    recv_data_closed 99 1024 3 (chunk (0 ∷ 0 ∷ 0 ∷ 3 ∷ b'a' ∷ []) ∷ closed ∷ []) (codes "a") refl
      refl (omega arith) (omega arith) (omega arith)

abbrev one_piece : List Arrival
one_piece = chunk (frames (sent_messages term_ops (codes "hi") (1 ∷ 2 ∷ 3 ∷ 4 ∷ []))) ∷ closed ∷ []

receive_over-Delivers_example : Delivers 0 (codes "hi") (
    receive_over term_ops
      (suc (length (sent_messages term_ops (codes "hi") (1 ∷ 2 ∷ 3 ∷ 4 ∷ []))))
      one_piece)
receive_over-Delivers_example =
    receive_over-Delivers term_ops (codes "hi") (1 ∷ 2 ∷ 3 ∷ 4 ∷ []) one_piece (omega arith)
      (omega arith) refl
      (append-nil (frames (sent_messages term_ops (codes "hi") (1 ∷ 2 ∷ 3 ∷ 4 ∷ []))))

abbrev no_network : System
no_network = record {
  inet_aton = λ text. some 0;
  pipe_works = true;
  socket_works = true;
  accept_works = false;
  bind_works = λ a. true;
  connect_works = λ a. false;
  listen_works = λ n. true;
  error = codes "Network is unreachable";
}

abbrev client_config : Json Term
client_config = obj (
    field (codes "destIP") (str (codes "10.0.0.1")) (field (codes "destPort") (int 4242) no_fields))
