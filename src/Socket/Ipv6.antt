-- ===== src/Socket/Ipv6.antt =====
-- plugins/ip6tcp-posix.cpp: how a connection is made of its configuration. The field `inet_aton` of
-- `System` stands for `inet_pton` here.
use instant_send.Prelude.{
  ℕ, ◌%◌, ◌^◌, ◌≡◌, refl, Bool, true, ◌||◌, ◌==◌, ltb, if◌then◌else◌, Bytes, codes,
}
use instant_send.Json.Syntax.{Json, Fields}
use instant_send.Json.Cast.{
  Attempt, value, raised, endless, runtime, ◌>>=◌, as_obj, as_str, as_int, member,
}
use instant_send.Word.{Int64}
use instant_send.Socket.Endpoint.{
  Address, System, Opened, port_of, host_of, source_family, connect_from,
}
use instant_send.Socket.Endpoint.Descriptors.{held, connect_from-Holds, Holds}

-- `sin6_family` is set by either of the two.
unfoldable pub source_family6 : Attempt Bytes → Attempt Int64 → Bool
source_family6 text (value port) = true
source_family6 text _ = source_family text

unfoldable pub source_address6 : System → Attempt Bytes → Attempt Int64 → Address
source_address6 sys text (value port) = record { host = host_of sys text; port = port_of port }
source_address6 sys text _ = record { host = host_of sys text; port = 0 }

-- `int dstPort`, and the test of its range.
unfoldable pub checked_port : Int64 → Attempt ℕ
checked_port n =
    let port = n % 2 ^ 32 in
    if port == 0 || ltb 65535 port
    then raised (runtime (codes "Destination port out of range"))
    else value port

-- `catch(...) { dstHost = ... }`
unfoldable pub or_else : Attempt Bytes → Attempt Bytes → Attempt Bytes
or_else (value text) other = value text
or_else _ other = other

module _ {F : Type 0} (sys : System) where
  unfoldable pub destination6 : Json F → Attempt (Fields F × (Bytes × ℕ))
  destination6 config = do
    cfg ← as_obj config
    host ←
        or_else (member (codes "destIP") cfg >>= as_str) (member (codes "destHost") cfg >>= as_str)
    p ← member (codes "destPort") cfg
    n ← as_int p
    port ← checked_port n
    value (cfg, (host, port))

  unfoldable pub connect_with6 : Attempt (Fields F × (Bytes × ℕ)) → Opened Address
  connect_with6 (value (cfg, (host, port))) =
      let source = member (codes "sourceIP") cfg >>= as_str in
      let source_port = member (codes "sourcePort") cfg >>= as_int in
      connect_from sys (source_family6 source source_port) (source_address6 sys source source_port)
        (record { host = host_of sys (value host); port = port })
  connect_with6 (raised e) = record { result = raised e; descriptors = 0 }
  connect_with6 endless = record { result = endless; descriptors = 0 }

  unfoldable pub new_client6 : Json F → Opened Address
  new_client6 config = connect_with6 (destination6 config)

  connect_with6-Holds :
      (d : Attempt (Fields F × (Bytes × ℕ)))
      → (connect_with6 d).descriptors ≡ held ((connect_with6 d).result)
  unfolding connect_with6
  connect_with6-Holds (value (cfg, (host, port))) = unfold Holds in connect_from-Holds sys _ _ _
  connect_with6-Holds (raised e) = refl
  connect_with6-Holds endless = refl

  -- The same of IPv6: a socket is open behind `newClient` only as the connection that it returns.
  new_client6-held :
      (config : Json F) → (new_client6 config).descriptors ≡ held ((new_client6 config).result)
  unfolding new_client6
  new_client6-held config = connect_with6-Holds (destination6 config)
