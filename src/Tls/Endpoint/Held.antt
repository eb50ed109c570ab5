-- ===== src/Tls/Endpoint/Held.antt =====
-- plugins/ip4tcps-posix.cpp: what `newServer`, `newClient` and `acceptClient` leave open.
use instant_send.Prelude.{
  ℕ, suc, ◌+◌, ◌<◌, ◌≡◌, refl, ap, ◌⊎◌, Bool, true, false, not, ◌==◌, ltb, Option, none, some, List,
  [], ◌∷◌, ◌++◌, if◌then◌else◌, arith, ◌∙◌,
}
use instant_send.Json.Syntax.{Json}
use instant_send.Json.Cast.{value, raised, endless}
use instant_send.Tls.Endpoint.{
  Open, Made, Wake, interrupted, client, Ssls, made_at, free_at, Accepted, peer, accept_from,
  accept_client,
}

-- With a result `after` is open; an exception has closed all that was opened, or it is the one case
-- that is given.
abbrev pub Holds : {A : Type 0} → Open → Open → Type 0 → Made A → Type 0
Holds before after leaks m = elim m.result as (λ _. Type 0) [
  | value a ↦ m.open_now ≡ after
  | raised e ↦ (m.open_now ≡ before) ⊎ (leaks × (m.open_now ≡ after))
  | endless ↦ Unit
]

-- Signals and clients that do not finish the handshake.
abbrev pub AllSkipped : List Wake → Type 0
AllSkipped [] = Unit
AllSkipped (interrupted ∷ ws) = AllSkipped ws
AllSkipped (client false v ∷ ws) = AllSkipped ws
AllSkipped (_ ∷ ws) = ⊥

-- The clients among them.
abbrev pub clients : List Wake → ℕ
clients [] = 0
clients (client finished v ∷ ws) = suc (clients ws)
clients (_ ∷ ws) = clients ws

-- What is freed behind a return with the object `p`: what was, the objects of the clients before it, and
-- `p` itself when it was not verified.
abbrev pub FreedBelow : ℕ → Bool → Ssls → Ssls → Type 0
FreedBelow p verified before after =
    (q : ℕ)
    → after.freed q ≡ (
        if ltb q before.next
        then before.freed q
        else if ltb q p
        then true
        else if q == p
        then not verified
        else before.freed q)

abbrev Returns : ℕ → Bool → Ssls → Accepted → Type 0
Returns p v h a = (t : Ssls) × (a ≡ peer (some p) t) × (t.next ≡ suc p) × FreedBelow p v h t

-- What a client that was not taken changes, for an object `q`.
freed_once :
    (q n p : ℕ)
    → (v r : Bool) → n < p
    → (if ltb q (suc n)
        then (if q == n then true else if q == n then false else r)
        else if ltb q p
        then true
        else if q == p
        then not v
        else (if q == n then true else if q == n then false else r))
      ≡ (if ltb q n then r else if ltb q p then true else if q == p then not v else r)
freed_once q n p v r h = ground arith

-- What the client that is returned changes.
freed_last :
    (v : Bool)
    → (h : Ssls) → (p : ℕ) → h.next ≡ p
    → Returns p v h
        (peer (some h.next) (if v then made_at h else free_at (some h.next) (made_at h)))
freed_last true h p e = (made_at h, rw e refl, ap suc e, λ q. ground arith)
freed_last false h p e = (free_at (some h.next) (made_at h), rw e refl, ap suc e, λ q. ground arith)

module _ (more : List Wake) (v : Bool) where
  accept_from-Returns :
      (skipped : List Wake)
      → (client_ssl : Option ℕ) → (h : Ssls) → (p : ℕ) → AllSkipped skipped
      → h.next + clients skipped ≡ p
      → Returns p v h (accept_from false client_ssl (skipped ++ client true v ∷ more) h)
  unfolding accept_from
  accept_from-Returns [] c h p s e = freed_last v h p (omega arith)
  accept_from-Returns (interrupted ∷ ws) c h p s e = accept_from-Returns ws c h p s e
  accept_from-Returns (client false w ∷ ws) c h p s e =
      let (t, at, next, freed) =
        accept_from-Returns ws (some h.next) (free_at (some h.next) (made_at h)) p s
          (omega arith) in
      (t, at, next, λ q. freed q ∙ freed_once q h.next p v (h.freed q) (omega arith))
  accept_from-Returns (client true w ∷ ws) c h p s e = absurd s
  accept_from-Returns (_ ∷ ws) c h p s e = absurd s

-- Behind any number of signals and of clients that did not finish the handshake, `acceptClient` returns the
-- connection of the next client, with the SSL that it made last; it has freed the SSL of each client before
-- it, and the one that it returns when its certificate was not verified, and no other.
pub accept_client_freed :
    (skipped more : List Wake)
    → (v : Bool) → (h : Ssls) → (p : ℕ) → AllSkipped skipped
    → h.next + clients skipped ≡ p
    → (t : Ssls) × (accept_client (skipped ++ client true v ∷ more) h ≡ peer (some p) t)
      × (t.next ≡ suc p)
      × FreedBelow p v h t
unfolding accept_client
accept_client_freed skipped more v h p s e = accept_from-Returns more v skipped none h p s e
