-- ===== src/Socket/Endpoint/Descriptors.antt =====
-- plugins/ip4tcp-posix.cpp: the descriptors that `newClient` leaves open.
use instant_send.Prelude.{ℕ, ◌≡◌, refl, Bool, true, false, if◌then◌else◌, Bytes}
use instant_send.Json.Syntax.{Json, Fields}
use instant_send.Json.Cast.{Attempt, value, raised, endless}
use instant_send.Word.{Int64}
use instant_send.Socket.Endpoint.{
  Address, System, Opened, failed_call, connect_from, connect_with, destination, new_client,
}

-- The socket of a connection that was made.
abbrev pub held : {A : Type 0} → Attempt A → ℕ
held (value a) = 1
held _ = 0

unfoldable pub Holds : Opened Address → Type 0
Holds o = o.descriptors ≡ held (o.result)

Holds-if : (b : Bool) (x y : Opened Address) → Holds x → Holds y → Holds (if b then x else y)
Holds-if true x y hx hy = hx
Holds-if false x y hx hy = hy

pub connect_from-Holds :
    (sys : System) (binds : Bool) (source target : Address)
    → Holds (connect_from sys binds source target)
unfolding connect_from Holds failed_call
connect_from-Holds sys binds source target =
    Holds-if (sys.socket_works) _ _
      (Holds-if (if binds then sys.bind_works source else true) _ _
        (Holds-if (sys.connect_works target) _ _ refl refl) refl)
      refl

module _ {F : Type 0} (sys : System) where
  connect_with-Holds : (d : Attempt (Fields F × (Bytes × Int64))) → Holds (connect_with sys d)
  unfolding connect_with Holds
  connect_with-Holds (value (cfg, (text, port))) = connect_from-Holds sys _ _ _
  connect_with-Holds (raised e) = refl
  connect_with-Holds endless = refl

  -- `newClient` leaves its socket open when it returns a connection, and nothing open when it does
  -- not.
  new_client-held :
      (config : Json F)
      → (new_client sys config).descriptors ≡ held ((new_client sys config).result)
  unfolding new_client Holds
  new_client-held config = connect_with-Holds (destination sys config)
