-- ===== src/Tls/Endpoint.antt =====
-- plugins/ip4tcps-posix.cpp: how a connection or a server is made of its configuration, and a client is
-- accepted.
pub mod Held
use instant_send.Prelude.{
  zero, suc, ◌&&◌, ◌==◌, Option, ℕ, Bool, true, false, List, [], ◌∷◌, if◌then◌else◌, Bytes, codes,
  some, none,
}
use instant_send.Json.Syntax.{Json, Fields}
use instant_send.Json.Cast.{
  Attempt, value, raised, endless, Thrown, runtime, ◌>>=◌, as_obj, as_str, as_int, member,
}
use instant_send.Word.{Int64}
use instant_send.Socket.Endpoint.{
  Host, any, ip, Address, System, port_of, backlog_of, host_of, failed_call, destination,
}

-- What the functions of OpenSSL do, besides the calls of the system.
pub record Ssl : Type 0 where
  pub key_works : Bytes → Bool
  pub directory_works : Bytes → Bool
  pub ssl_works : Bool
  pub set_fd_works : Bool
  pub handshake_works : Bool

-- `SSL_VERIFY_PEER` or `SSL_VERIFY_NONE`.
pub data Verify : Type 0 where
  verify_peer verify_none : Verify

-- The descriptors and the objects of type SSL that are open.
pub record Open : Type 0 where
  pub descriptors : ℕ
  pub ssls : ℕ

abbrev pub less : ℕ → ℕ
less zero = zero
less (suc n) = n

abbrev pub open_fd : Open → Open
open_fd o = record o { descriptors = suc o.descriptors }

abbrev pub close_fd : Open → Open
close_fd o = record o { descriptors = less o.descriptors }

abbrev pub ssl_new : Open → Open
ssl_new o = record o { ssls = suc o.ssls }

abbrev pub ssl_free : Open → Open
ssl_free o = record o { ssls = less o.ssls }

-- A result, with what is open behind the call.
pub record Made (A : Type 0) : Type 0 where
  pub result : Attempt A
  pub open_now : Open

-- `~Socket`, with whether `mSockFd` is a descriptor, which `release` has taken from it; and `~Pipe`.
unfoldable pub end_socket : Bool → Open → Open
end_socket true o = close_fd o
end_socket false o = o

unfoldable pub end_pipe : Open → Open
end_pipe o = close_fd (close_fd o)

-- What a block with a `Socket` of its own has come to, and the end of the block.
pub record Block (A : Type 0) : Type 0 where
  pub result : Attempt A
  pub holds : Bool
  pub open_now : Open

unfoldable pub end_block : {A : Type 0} → Block A → Made A
end_block b = record { result = b.result; open_now = end_socket b.holds b.open_now }

module _ (ssl : Ssl) where
  unfoldable pub load_key : Bytes → Attempt Bytes
  load_key file =
      if ssl.key_works file then value file else raised (runtime (codes "loadKey failed"))

  unfoldable pub load_directory : Bytes → Attempt Bytes
  load_directory path =
      if ssl.directory_works path
      then value path
      else raised (runtime (codes "loadVerifyDirectory failed"))

  -- `catch(exception &e) { setVerify(SSL_VERIFY_NONE); }`
  unfoldable pub verify_if : {A : Type 0} → Attempt A → Verify
  verify_if (value x) = verify_peer
  verify_if _ = verify_none

-- `doBind`
unfoldable pub has_source : Attempt Bytes → Attempt Int64 → Bool
has_source (value text) port = true
has_source text (value port) = true
has_source text port = false

unfoldable pub source_port : Attempt Int64 → ℕ
source_port (value port) = port_of port
source_port _ = 0

module _ (sys : System) where
  -- `SockAddrIn`: the address stays INADDR_ANY where `inet_aton` gives no number.
  unfoldable pub host_from : Attempt Bytes → Host
  host_from (value text) = elim (sys.inet_aton text) [ some n ↦ ip n | none ↦ any ]
  host_from _ = any

  -- `setLocalAddr` and `setListening` in the constructor of `i4tserver`.
  unfoldable pub listen_at : Attempt (Address × (ℕ × Verify)) → Attempt (Address × (ℕ × Verify))
  listen_at (value (at, (backlog, mode))) =
      if sys.bind_works at
      then (if sys.listen_works backlog
          then value (at, (backlog, mode))
          else failed_call sys (codes "listen: "))
      else failed_call sys (codes "bind: ")
  listen_at (raised e) = raised e
  listen_at endless = endless

-- The end of the constructor: an exception destroys the members, the pipe before the socket.
unfoldable pub constructed : {A : Type 0} → Attempt A → Open → Made A
constructed (value a) o = record { result = value a; open_now = o }
constructed (raised e) o = record { result = raised e; open_now = end_socket true (end_pipe o) }
constructed endless o = record { result = endless; open_now = o }

module _ (sys : System) (ssl : Ssl) where
  -- `newSSL` of a socket that holds its descriptor, and `SSL_connect`.
  unfoldable pub handshake : Address → Verify → Open → Block (Address × Verify)
  handshake to mode o =
      if ssl.ssl_works
      then (if ssl.set_fd_works
          then record {
            result =
                if ssl.handshake_works
                then value (to, mode)
                else raised (runtime (codes "SSL_connect failed"));
            holds = false;
            open_now = ssl_new o;
          }
          else record {
            result = raised (runtime (codes "SSL_set_fd failed"));
            holds = true;
            open_now = ssl_free (ssl_new o);
          })
      else record { result = raised (runtime (codes "SSL_new failed")); holds = true; open_now = o }

  unfoldable pub connect_socket :
      Bool → Address → Address → Verify → Open → Block (Address × Verify)
  connect_socket binds from to mode o =
      if (if binds then sys.bind_works from else true)
      then (if sys.connect_works to
          then handshake to mode o
          else record { result = failed_call sys (codes "connect: "); holds = true; open_now = o })
      else record { result = failed_call sys (codes "bind: "); holds = true; open_now = o }

  unfoldable pub connect_with :
      Attempt (Bool × (Address × (Address × Verify))) → Open → Made (Address × Verify)
  connect_with (value (binds, (from, (to, mode)))) o =
      if sys.socket_works
      then end_block (connect_socket binds from to mode (open_fd o))
      else record { result = failed_call sys (codes "socket: "); open_now = o }
  connect_with (raised e) o = record { result = raised e; open_now = o }
  connect_with endless o = record { result = endless; open_now = o }

module _ {F : Type 0} (sys : System) (ssl : Ssl) where
  -- The certificates of both ends. Whether the chain could be loaded is not looked at, and neither is
  -- whether the accepted authorities could.
  unfoldable pub own_certificate : Fields F → Attempt Bytes
  own_certificate cfg = do
    chain ← member (codes "chainfile") cfg >>= as_str
    key ← member (codes "keyfile") cfg >>= as_str
    load_key ssl key

  unfoldable pub server_verify : Fields F → Verify
  server_verify cfg = verify_if ssl (
      member (codes "certpath") cfg >>= as_str >>= load_directory ssl >>= λ done.
      member (codes "acceptedCA") cfg >>= as_str)

  unfoldable pub client_verify : Fields F → Verify
  client_verify cfg =
      verify_if ssl (member (codes "certpath") cfg >>= as_str >>= load_directory ssl)

  -- The constructor of `i4tserver` behind its members, with the address, the backlog and the mode.
  unfoldable pub server_settings : Json F → Attempt (Address × (ℕ × Verify))
  server_settings config = do
    cfg ← as_obj config
    port ← member (codes "port") cfg >>= as_int
    own ← own_certificate cfg
    value (
      record { host = host_from sys (member (codes "IP") cfg >>= as_str); port = port_of port },
      (backlog_of (member (codes "backlog") cfg >>= as_int), server_verify cfg),
    )

  unfoldable pub new_server : Json F → Open → Made (Address × (ℕ × Verify))
  new_server config o =
      if sys.socket_works
      then (if sys.pipe_works
          then constructed (listen_at sys (server_settings config)) (open_fd (open_fd (open_fd o)))
          else record {
            result = failed_call sys (codes "pipe: ");
            open_now = end_socket true (open_fd o);
          })
      else record { result = failed_call sys (codes "socket: "); open_now = o }

  -- The connection to make: whether to bind and from where, to where, and the mode.
  unfoldable pub client_settings : Json F → Attempt (Bool × (Address × (Address × Verify)))
  client_settings config = do
    there ← destination sys config
    let cfg = there.0
    let source = member (codes "sourceIP") cfg >>= as_str
    let port = member (codes "sourcePort") cfg >>= as_int
    own ← own_certificate cfg
    value (
      has_source source port,
      (
        record { host = host_from sys source; port = source_port port },
        (
          record { host = host_of sys (value (there.1.0)); port = port_of (there.1.1) },
          client_verify cfg,
        ),
      ),
    )

  unfoldable pub new_client : Json F → Open → Made (Address × Verify)
  new_client config o = connect_with sys ssl (client_settings config) o

-- A return of `select`, with what follows it: for a client, whether `SSL_accept` returns 1 and whether
-- `SSL_get_verify_result` is X509_V_OK.
pub data Wake : Type 0 where
  interrupted select_failed stop_called accept_failed no_ssl : Wake
  client : Bool → Bool → Wake

-- The objects of type SSL by their numbers, with those that were freed and whose descriptor was closed.
pub record Ssls : Type 0 where
  pub next : ℕ
  pub freed : ℕ → Bool

abbrev pub free_at : Option ℕ → Ssls → Ssls
free_at none h = h
free_at (some p) h = record h { freed = λ q. if q == p then true else h.freed q }

-- A new object has the next number and is not freed.
abbrev pub made_at : Ssls → Ssls
made_at h = record { next = suc h.next; freed = λ q. if q == h.next then false else h.freed q }

-- `acceptClient` returns a peer with its SSL, or NULL, or it sleeps.
pub data Accepted : Type 0 where
  peer : Option ℕ → Ssls → Accepted
  no_peer : Ssls → Accepted
  sleeps : Accepted

-- The loop, with `res < 1` as false and with `clientSsl`.
unfoldable pub accept_from : Bool → Option ℕ → List Wake → Ssls → Accepted
accept_from true client_ssl ws h = peer client_ssl h
accept_from false client_ssl [] h = sleeps
accept_from false client_ssl (interrupted ∷ ws) h = accept_from false client_ssl ws h
accept_from false client_ssl (client finished verified ∷ ws) h =
    accept_from finished (some h.next) ws
      (if finished && verified then made_at h else free_at (some h.next) (made_at h))
accept_from false client_ssl (_ ∷ ws) h = no_peer h

unfoldable pub accept_client : List Wake → Ssls → Accepted
accept_client ws h = accept_from false none ws h
