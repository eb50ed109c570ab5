-- ===== src/Writer/Threads/Order.antt =====
-- src/filewriter.cpp: `dataFragment_t::operator<` on the fragments in the queue.
use mathlib.Core.List.{List}
use instant_send.Prelude.{◌∙◌, ◌≡◌, refl, false, [], ◌∷◌, ◌++◌, arith}
use instant_send.Word.{Int64, is_negative}
use instant_send.Writer.{
  next_batch, new_fragment, fragment_lt, Fragment, Writer, push, written, drain, finish,
}
use instant_send.Writer.Threads.{
  IsTop, System, Step, reserve, put, post, begin, test, wake, look, pop, release, write, drain_rest,
  set_status, wait_zr, clean, set_stopped, exit, inc_rc, dec_rc, mark, check_remove, check_go_on,
  halt, wake_writer, Reach, here, next,
}

-- No fragment begins at a negative position.
abbrev pub NonNegative : List Fragment → Type 0
NonNegative [] = Unit
NonNegative (f ∷ fs) = (is_negative f.pos ≡ false) × NonNegative fs

abbrev Batchless : List Fragment → Type 0
Batchless [] = Unit
Batchless (f ∷ fs) = (f.batch ≡ 0) × Batchless fs

abbrev LastPosStays : System → Type 0
LastPosStays s = s.writer.last_pos ≡ 0

abbrev NoBatch : System → Type 0
NoBatch s = NonNegative s.accepted → (s.writer.last_batch ≡ 0) × Batchless s.writer.queue

-- `lastpos` is never assigned.
last_pos-Step : {s : System} → LastPosStays s → {t : System} → Step s t → LastPosStays t
unfolding push written drain finish
last_pos-Step p (reserve s n e) = p
last_pos-Step p (put s n position c cs e) = p
last_pos-Step p (post s n e) = p
last_pos-Step p (begin s e) = p
last_pos-Step p (test s e) = p
last_pos-Step p (wake s n e f) = p
last_pos-Step p (look s e) = p
last_pos-Step p (pop s xs ys f e q top) = p
last_pos-Step p (release s f e) = p
last_pos-Step p (write s f e) = p
last_pos-Step p (drain_rest s e) = p
last_pos-Step p (set_status s e) = p
last_pos-Step p (wait_zr s e z) = p
last_pos-Step p (clean s e) = p
last_pos-Step p (set_stopped s e) = p
last_pos-Step p (exit s e) = p
last_pos-Step p (inc_rc s) = p
last_pos-Step p (dec_rc s n e) = p
last_pos-Step p (mark s n e) = p
last_pos-Step p (check_remove s n e a) = p
last_pos-Step p (check_go_on s n e a) = p
last_pos-Step p (halt s n e) = p
last_pos-Step p (wake_writer s n e) = p

next_batch_same :
    (position : Int64) (w : Writer)
    → w.last_pos ≡ 0
    → is_negative position ≡ false
    → next_batch position w ≡ w.last_batch
unfolding next_batch
next_batch_same position w e h = ground arith

Batchless-remove :
    (xs ys : List Fragment) (f : Fragment) → Batchless (xs ++ f ∷ ys) → Batchless (xs ++ ys)
Batchless-remove [] ys f h = h.1
Batchless-remove (x ∷ xs) ys f h = (h.0, Batchless-remove xs ys f h.1)

NoBatch-Step : {s : System} → LastPosStays s → NoBatch s → {t : System} → Step s t → NoBatch t
unfolding push written drain finish
NoBatch-Step stays p (reserve s n e) = p
NoBatch-Step stays p (put s n position c cs e) = λ h.
    let (batch, others) = p h.1 in
    let same = next_batch_same position s.writer stays h.0 in
    (same ∙ batch, (unfold new_fragment in same ∙ batch, others))
NoBatch-Step stays p (post s n e) = p
NoBatch-Step stays p (begin s e) = p
NoBatch-Step stays p (test s e) = p
NoBatch-Step stays p (wake s n e f) = p
NoBatch-Step stays p (look s e) = p
NoBatch-Step stays p (pop s xs ys f e q top) =
    λ h. ((p h).0, Batchless-remove xs ys f (rw q at (p h).1))
NoBatch-Step stays p (release s f e) = p
NoBatch-Step stays p (write s f e) = p
NoBatch-Step stays p (drain_rest s e) = λ h. ((p h).0, tt)
NoBatch-Step stays p (set_status s e) = p
NoBatch-Step stays p (wait_zr s e z) = p
NoBatch-Step stays p (clean s e) = p
NoBatch-Step stays p (set_stopped s e) = p
NoBatch-Step stays p (exit s e) = p
NoBatch-Step stays p (inc_rc s) = p
NoBatch-Step stays p (dec_rc s n e) = p
NoBatch-Step stays p (mark s n e) = p
NoBatch-Step stays p (check_remove s n e a) = p
NoBatch-Step stays p (check_go_on s n e a) = p
NoBatch-Step stays p (halt s n e) = p
NoBatch-Step stays p (wake_writer s n e) = p

pub last_pos-Reach : {file_size : Int64} {s : System} → Reach file_size s → LastPosStays s
last_pos-Reach here = refl
last_pos-Reach (next r st) = last_pos-Step (last_pos-Reach r) st

NoBatch-Reach : {file_size : Int64} {s : System} → Reach file_size s → NoBatch s
NoBatch-Reach here = λ h. (refl, tt)
NoBatch-Reach (next r st) = NoBatch-Step (last_pos-Reach r) (NoBatch-Reach r) st

Batchless-IsTop : (f : Fragment) (fs : List Fragment) → Batchless fs → IsTop f fs
unfolding fragment_lt
Batchless-IsTop f [] h = tt
Batchless-IsTop f (g ∷ gs) (e, h) = (ground arith, Batchless-IsTop f gs h)

-- `lastpos` never changes, so that while no fragment begins at a negative position all of them are
-- of one batch, and any fragment may stand at the top of the queue.
any_fragment-IsTop :
    (file_size : Int64) (s : System)
    → Reach file_size s
    → NonNegative s.accepted
    → (f : Fragment) → (s.writer.last_pos ≡ 0) × IsTop f s.writer.queue
any_fragment-IsTop file_size s r h f =
    (last_pos-Reach r, Batchless-IsTop f s.writer.queue (NoBatch-Reach r h).1)
