-- ===== src/Servers/Stopping.antt =====
-- src/connectionreceiver.cpp: what `stop` may rely on.
use instant_send.Prelude.{
  ℕ, suc, ◌+◌, ◌≤◌, ◌≡◌, refl, ap, not, ◌&&◌, ◌∙◌, Bool-cases, inl, inr, true, false, arith,
}
use instant_send.Servers.{
  Stage, starting, accepting, checking, serving, leaving, past_mutex, returning, deleted,
  not_called, locked, Receiver, holds, is_deleted, is_past, Step, begin, accept, accept_nothing,
  check_running, serve, pass_mutex, uncount, delete, call_stop, clear_running, async_stop, erase,
  Reach, here, next, Runs, stay, go,
}

-- The clients that passed `checkRunning` and are not served yet.
abbrev passed : Stage → ℕ
passed serving = 1
passed _ = 0

abbrev pub counts : Stage → ℕ
counts starting = 0
counts returning = 0
counts deleted = 0
counts _ = 1

not_past : (g : Stage) → is_past g ≡ false → is_deleted g ≡ false
not_past deleted e = absurd cc
not_past starting e = refl
not_past accepting e = refl
not_past checking e = refl
not_past serving e = refl
not_past leaving e = refl
not_past past_mutex e = refl
not_past returning e = refl

record Sound (s : Receiver) : Type 0 where
  few : s.running ≡ false → s.late + passed s.stage ≤ 1
  none : s.running ≡ true → s.late ≡ 0
  counted : s.running_servers ≡ counts s.stage
  safe : holds s.stop ≡ true → s.called_past ≡ false → is_past s.stage ≡ false

Sound-Step : {s : Receiver} → Sound s → {t : Receiver} → Step s t → Sound t
Sound-Step c (begin s e) = ground arith
Sound-Step c (accept s e) = ground arith
Sound-Step c (accept_nothing s e) = ground arith
Sound-Step c (check_running s e f) = ground arith
Sound-Step c (serve s e) = ground arith
Sound-Step c (pass_mutex s e f) = ground arith
Sound-Step c (uncount s n e f) = ground arith
Sound-Step c (delete s e) = ground arith
Sound-Step c (call_stop s e f) = ground arith
Sound-Step c (clear_running s e) = ground arith
Sound-Step c (async_stop s h e) = ground arith
Sound-Step c (erase s e) = ground arith

Sound-Reach : {s : Receiver} → Reach s → Sound s
Sound-Reach here = ground arith
Sound-Reach (next r st) = Sound-Step (Sound-Reach r) st

-- The receiver is not deleted while `stop` runs on it, when `stop` was called before `run` went past the
-- lock behind its loop; after `running` is cleared at most one more client is served; and the receiver
-- counts as a running server from the start of `run` until it is past the lock.
pub stop_safe :
    (s : Receiver)
    → Reach s
    → ((holds s.stop && not s.called_past && is_deleted s.stage) ≡ false)
      × (s.late ≤ 1)
      × (s.running_servers ≡ counts s.stage)
stop_safe s r =
    let c = Sound-Reach r in
    (
      ground (arith, not_past s.stage, c.safe),
      elim (Bool-cases s.running) [ inl e ↦ ground arith | inr e ↦ ground arith ],
      c.counted,
    )

-- From every state in which `acceptClient` of a listed server that was not stopped may return no client,
-- steps of the receiver and of `remove` alone lead to a call of `stop` on it when it is deleted and the
-- list of servers still holds it.
pub stop_deleted :
    (s : Receiver)
    → Reach s
    → s.stage ≡ accepting
    → s.stop ≡ not_called
    → s.listed ≡ true
    → (u : Receiver) × Runs s u
      × (u.stage ≡ deleted)
      × (u.stop ≡ locked)
      × (u.listed ≡ true)
      × (u.clients ≡ s.clients)
stop_deleted s r at idle listed =
    let counted : s.running_servers ≡ suc 0 = (Sound-Reach r).counted ∙ ap counts at in
    (
      _,
      go (accept_nothing s at) (
          go (pass_mutex _ refl (ap holds idle)) (
            go (uncount _ 0 refl counted)
              (go (delete _ refl) (go (call_stop _ idle listed) stay)))),
      refl,
      refl,
      listed,
      refl,
    )
