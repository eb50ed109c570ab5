-- ===== src/Tests/TlsExamples.antt =====
-- The theorems about plugins/ip4tcps-posix.cpp at concrete messages and configurations.
use mathlib.Core.List.{map}
use instant_send.Prelude.{◌≡◌, true, false, some, List, [], ◌∷◌, ◌++◌, arith, Bytes, codes, length}
use instant_send.Json.Syntax.{Json, obj, str, int, no_fields, field}
use instant_send.Socket.Endpoint.{System}
use instant_send.Tls.{Write, took, returned, send_data, record_of, failed, message, recv_data}
use instant_send.Tls.RoundTrip.{recv_data-send_data}
use instant_send.Tls.Endpoint.{Ssl, interrupted, client, peer, Open, Ssls, accept_client}
use instant_send.Tls.Endpoint.Held.{FreedBelow, accept_client_freed}
use instant_send.Tests.JsonRuns.{Term}

recv_data-send_data_example :
    (records : List Bytes) × (left : List Write) × (send_data
        (took 4 ∷ took 2 ∷ took 9 ∷ took 1 ∷ [])
        false
        (codes "abc")
      ≡ returned true records left)
    × (recv_data 100 (map record_of records ++ failed ∷ [])
        ≡ message (length (codes "abc")) (codes "abc") (failed ∷ []))
recv_data-send_data_example =
    recv_data-send_data 4 (took 2 ∷ took 9 ∷ took 1 ∷ []) false (codes "abc") 100 (failed ∷ [])
      (omega arith) (omega arith, (omega arith, (omega arith, tt))) (omega arith) (omega arith)
      (omega arith)

abbrev network : System
network = record {
  inet_aton = λ text. some 1;
  pipe_works = true;
  socket_works = true;
  accept_works = true;
  bind_works = λ a. true;
  connect_works = λ a. true;
  listen_works = λ n. true;
  error = codes "";
}

abbrev openssl : Ssl
openssl = record {
  key_works = λ file. true;
  directory_works = λ path. true;
  ssl_works = true;
  set_fd_works = true;
  handshake_works = true;
}

abbrev config : Json Term
config = obj (
    field (codes "chainfile") (str (codes "a.pem")) (
      field (codes "destIP") (str (codes "10.0.0.1")) (
        field (codes "destPort") (int 4242) (
          field (codes "keyfile") (str (codes "k.pem"))
            (field (codes "port") (int 4242) no_fields)))))

abbrev two_open : Open
two_open = record { descriptors = 2; ssls = 0 }

abbrev one_made : Ssls
one_made = record { next = 1; freed = λ q. false }

accept_client_freed_example :
    (t : Ssls) × (accept_client
        ((interrupted ∷ client false true ∷ []) ++ client true false ∷ [])
        one_made
      ≡ peer (some 2) t)
    × (t.next ≡ 3)
    × FreedBelow 2 false one_made t
accept_client_freed_example =
    accept_client_freed (interrupted ∷ client false true ∷ []) [] false one_made 2 tt (omega arith)
