-- ===== src/Socket/Endpoint.antt =====
-- plugins/ip4tcp-posix.cpp: how a connection or a server is made of its configuration, and a client is
-- accepted.
pub mod Descriptors
use instant_send.Prelude.{
  ℕ, ◌%◌, ◌^◌, Bool, true, false, List, [], ◌∷◌, ◌++◌, Option, none, some, if◌then◌else◌, Bytes,
  codes,
}
use instant_send.Json.Syntax.{Json, Fields}
use instant_send.Json.Cast.{
  Attempt, value, raised, endless, Thrown, runtime, ◌>>=◌, as_obj, as_str, as_int, member,
}
use instant_send.Word.{Int64}

-- `sin_addr`: `INADDR_ANY`, the number that `inet_aton` gave, or what the memory held.
pub data Host : Type 0 where
  any unset : Host
  ip : ℕ → Host

pub record Address : Type 0 where
  pub host : Host
  pub port : ℕ

-- What the calls of the system do: `inet_aton` gives no number for a text that is none, `error` is the
-- text of the last error.
pub record System : Type 0 where
  pub inet_aton : Bytes → Option ℕ
  pub pipe_works : Bool
  pub socket_works : Bool
  pub accept_works : Bool
  pub bind_works : Address → Bool
  pub connect_works : Address → Bool
  pub listen_works : ℕ → Bool
  pub error : Bytes

-- A result, with the descriptors that are open behind the call.
pub record Opened (A : Type 0) : Type 0 where
  pub result : Attempt A
  pub descriptors : ℕ

-- `htons`, as the number that it is made of.
abbrev pub port_of : Int64 → ℕ
port_of n = n % 2 ^ 16

-- `catch(exception &e) { backlog = 10; }`; the number is made an `int`.
unfoldable pub backlog_of : Attempt Int64 → ℕ
backlog_of (value n) = n % 2 ^ 32
backlog_of _ = 10

-- Whether `sin_family` is `AF_INET`, so that the socket is bound.
unfoldable pub source_family : Attempt Bytes → Bool
source_family (value text) = true
source_family _ = false

module _ (sys : System) where
  -- `inet_aton(..., &sin_addr)`, whose result is not looked at.
  unfoldable pub host_of : Attempt Bytes → Host
  host_of (value text) = elim (sys.inet_aton text) [ some n ↦ ip n | none ↦ unset ]
  host_of _ = any

  unfoldable pub failed_call : {A : Type 0} → Bytes → Attempt A
  failed_call name = raised (runtime (name ++ sys.error))

  -- The constructor of `i4tserver`: the end of the pipe, the address, and the socket that listens.
  -- An exception of the constructor closes nothing.
  unfoldable pub listen_at : Address → ℕ → Opened (Address × ℕ)
  listen_at at backlog =
      if sys.socket_works
      then (if sys.bind_works at
          then (if sys.listen_works backlog
              then record { result = value (at, backlog); descriptors = 3 }
              else record { result = failed_call (codes "listen: "); descriptors = 3 })
          else record { result = failed_call (codes "bind: "); descriptors = 3 })
      else record { result = failed_call (codes "socket: "); descriptors = 2 }

  -- `sourcePort` sets the address again.
  unfoldable pub source_address : Attempt Bytes → Attempt Int64 → Address
  source_address text (value port) = record { host = any; port = port_of port }
  source_address text _ = record { host = host_of text; port = 0 }

  -- `fd` is closed where an exception is caught.
  unfoldable pub connect_from : Bool → Address → Address → Opened Address
  connect_from binds from to =
      if sys.socket_works
      then (if (if binds then sys.bind_works from else true)
          then (if sys.connect_works to
              then record { result = value to; descriptors = 1 }
              else record { result = failed_call (codes "connect: "); descriptors = 0 })
          else record { result = failed_call (codes "bind: "); descriptors = 0 })
      else record { result = failed_call (codes "socket: "); descriptors = 0 }

module _ {F : Type 0} (sys : System) where
  unfoldable pub listen_on : Fields F → Attempt Int64 → Opened (Address × ℕ)
  listen_on cfg (value port) =
      listen_at sys
        (record { host = host_of sys (member (codes "IP") cfg >>= as_str); port = port_of port })
        (backlog_of (member (codes "backlog") cfg >>= as_int))
  listen_on cfg (raised e) = record { result = raised e; descriptors = 2 }
  listen_on cfg endless = record { result = endless; descriptors = 2 }

  unfoldable pub listen_with : Attempt (Fields F) → Opened (Address × ℕ)
  listen_with (value cfg) = listen_on cfg (member (codes "port") cfg >>= as_int)
  listen_with (raised e) = record { result = raised e; descriptors = 2 }
  listen_with endless = record { result = endless; descriptors = 2 }

  -- `newServer`: an exception becomes `lastErr`.
  unfoldable pub new_server : Json F → Opened (Address × ℕ)
  new_server config =
      if sys.pipe_works
      then listen_with (as_obj config)
      else record { result = failed_call sys (codes "pipe: "); descriptors = 0 }

  -- The address and the port of the other end.
  unfoldable pub destination : Json F → Attempt (Fields F × (Bytes × Int64))
  destination config = do
    cfg ← as_obj config
    d ← member (codes "destIP") cfg
    text ← as_str d
    p ← member (codes "destPort") cfg
    port ← as_int p
    value (cfg, (text, port))

  unfoldable pub connect_with : Attempt (Fields F × (Bytes × Int64)) → Opened Address
  connect_with (value (cfg, (text, port))) =
      let source = member (codes "sourceIP") cfg >>= as_str in
      connect_from sys (source_family source)
        (source_address sys source (member (codes "sourcePort") cfg >>= as_int))
        (record { host = host_of sys (value text); port = port_of port })
  connect_with (raised e) = record { result = raised e; descriptors = 0 }
  connect_with endless = record { result = endless; descriptors = 0 }

  unfoldable pub new_client : Json F → Opened Address
  new_client config = connect_with (destination config)

-- A return of `select`: it was interrupted, or failed, or says whether `stop` was called.
pub data Wake : Type 0 where
  interrupted select_failed : Wake
  readable : Bool → Wake

-- `acceptClient` returns a peer, or NULL, or sleeps.
pub data Accepted : Type 0 where
  peer no_peer sleeps : Accepted

unfoldable pub accept_client : System → List Wake → Accepted
accept_client sys [] = sleeps
accept_client sys (interrupted ∷ ws) = accept_client sys ws
accept_client sys (select_failed ∷ ws) = no_peer
accept_client sys (readable true ∷ ws) = no_peer
accept_client sys (readable false ∷ ws) = if sys.accept_works then peer else no_peer
