-- ===== src/Writer/Threads/Account.antt =====
-- src/filewriter.cpp: every fragment that was put into the queue is there, in hand, or written, once.
use mathlib.Core.List.{List, Perm, perm_middle, append-nil, append_assoc}
use mathlib.Core.List.Perm
use instant_send.Prelude.{
  ◌%◌, ◌^◌, ◌∙◌, ℕ, ◌+◌, ◌≡◌, refl, true, false, [], ◌∷◌, ◌++◌, arith, if◌then◌else◌, Bool,
}
use instant_send.Word.{Int64}
use instant_send.Writer.{size, total, add_sizes, Fragment, push, goes_on, written, drain, finish}
use instant_send.Writer.Threads.{
  Run, at_test, waiting, taking, popped, writing, draining, System, Step, reserve, put, post, begin,
  test, wake, look, pop, release, write, drain_rest, set_status, wait_zr, clean, set_stopped, exit,
  inc_rc, dec_rc, mark, check_remove, check_go_on, halt, wake_writer, Reach, here, next,
}

-- The fragment that the thread has taken out and not written yet.
abbrev pub fragments : Run → List Fragment
fragments (popped f) = f ∷ []
fragments (writing f) = f ∷ []
fragments _ = []

add_sizes-total : (fs : List Fragment) (n : ℕ) → add_sizes (n % 2 ^ 64) fs ≡ (n + total fs) % 2 ^ 64
unfolding add_sizes
add_sizes-total [] n = omega arith
add_sizes-total (f ∷ fs) n =
    let e : (n % 2 ^ 64 + size f) % 2 ^ 64 ≡ (n + size f) % 2 ^ 64 = omega arith in
    rw e (add_sizes-total fs (n + size f) ∙ omega arith)

total-append : (fs gs : List Fragment) → total (fs ++ gs) ≡ total fs + total gs
total-append [] gs = omega arith
total-append (f ∷ fs) gs = omega (arith, total-append fs gs)

bytes-Step :
    {s : System}
    → s.writer.bytes ≡ total s.done % 2 ^ 64
    → {t : System} → Step s t
    → t.writer.bytes ≡ total t.done % 2 ^ 64
unfolding push written drain finish
bytes-Step p (reserve s n e) = p
bytes-Step p (put s n position c cs e) = p
bytes-Step p (post s n e) = p
bytes-Step p (begin s e) = p
bytes-Step p (test s e) = p
bytes-Step p (wake s n e f) = p
bytes-Step p (look s e) = p
bytes-Step p (pop s xs ys f e q top) = p
bytes-Step p (release s f e) = p
bytes-Step p (write s f e) = omega (arith, total-append s.done (f ∷ []))
bytes-Step p (drain_rest s e) =
    rw p (add_sizes-total s.writer.queue (total s.done) ∙ rw total-append refl)
bytes-Step p (set_status s e) = p
bytes-Step p (wait_zr s e z) = p
bytes-Step p (clean s e) = p
bytes-Step p (set_stopped s e) = p
bytes-Step p (exit s e) = p
bytes-Step p (inc_rc s) = p
bytes-Step p (dec_rc s n e) = p
bytes-Step p (mark s n e) = p
bytes-Step p (check_remove s n e a) = p
bytes-Step p (check_go_on s n e a) = p
bytes-Step p (halt s n e) = p
bytes-Step p (wake_writer s n e) = p

abbrev Kept : System → Type 0
Kept s = Perm s.accepted ((s.done ++ fragments s.run) ++ s.writer.queue)

put_kept :
    (f : Fragment) (accepted out queue : List Fragment)
    → Perm accepted (out ++ queue)
    → Perm (f ∷ accepted) (out ++ f ∷ queue)
put_kept f accepted out queue p = Perm.trans (Perm.cons f p) (Perm.symm (perm_middle out queue))

pop_kept :
    (f : Fragment) (accepted done xs ys : List Fragment)
    → Perm accepted ((done ++ []) ++ (xs ++ f ∷ ys))
    → Perm accepted ((done ++ f ∷ []) ++ (xs ++ ys))
pop_kept f accepted done xs ys p =
    rw (append_assoc done (f ∷ []) (xs ++ ys))
      (Perm.trans (rw append-nil at p) (Perm.append_left done (perm_middle xs ys)))

none_in_hand :
    (b : Bool) (x y : Run)
    → fragments x ≡ []
    → fragments y ≡ []
    → fragments (if b then x else y) ≡ []
none_in_hand true x y hx hy = hx
none_in_hand false x y hx hy = hy

Kept-Step : {s : System} → Kept s → {t : System} → Step s t → Kept t
unfolding push written drain finish
Kept-Step p (reserve s n e) = ground arith
Kept-Step p (put s n position c cs e) = put_kept _ _ _ _ p
Kept-Step p (post s n e) = ground arith
Kept-Step p (begin s e) = ground arith
Kept-Step p (test s e) = rw (none_in_hand (goes_on s.writer) waiting draining refl refl) (rw e at p)
Kept-Step p (wake s n e f) = ground arith
Kept-Step p (look s e) = rw (none_in_hand s.writer.stop at_test taking refl refl) (rw e at p)
Kept-Step p (pop s xs ys f e q top) = pop_kept f _ _ xs ys (ground arith)
Kept-Step p (release s f e) = ground arith
Kept-Step p (write s f e) = rw append-nil (rw e at p)
Kept-Step p (drain_rest s e) = simp append-nil (simp (append-nil, e) at p)
Kept-Step p (set_status s e) = ground arith
Kept-Step p (wait_zr s e z) = ground arith
Kept-Step p (clean s e) = ground arith
Kept-Step p (set_stopped s e) = ground arith
Kept-Step p (exit s e) = ground arith
Kept-Step p (inc_rc s) = ground arith
Kept-Step p (dec_rc s n e) = ground arith
Kept-Step p (mark s n e) = ground arith
Kept-Step p (check_remove s n e a) = ground arith
Kept-Step p (check_go_on s n e a) = ground arith
Kept-Step p (halt s n e) = ground arith
Kept-Step p (wake_writer s n e) = ground arith

-- What was put into the queue is, up to order, what was written, what the thread has in hand, and
-- what the queue holds; and the counter of bytes is the size of what was written, modulo 2 ^ 64.
pub nothing_lost :
    (file_size : Int64) (s : System)
    → Reach file_size s
    → Perm s.accepted ((s.done ++ fragments s.run) ++ s.writer.queue)
      × (s.writer.bytes ≡ total s.done % 2 ^ 64)
nothing_lost file_size s here = (Perm.refl [], refl)
nothing_lost file_size s (next {s = before} r st) =
    let (kept, counted) = nothing_lost file_size before r in
    (Kept-Step kept st, bytes-Step counted st)
