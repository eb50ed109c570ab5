-- ===== src/Disk/Write.antt =====
-- src/sysapi/posix/file.cpp: a write in pieces is one write.
use instant_send.Prelude.{
  ℕ, zero, suc, ◌+◌, ◌≤◌, ◌<◌, ◌^◌, ◌≡◌, ◌∙◌, ap, refl, List, [], ◌∷◌, arith, Bytes, length, take,
  drop, length-drop, leb, false,
}
use instant_send.Word.{Int64}
use instant_send.Disk.{write_at, Moved, moved, full, failed, done, write_loop, write_data}

write_at-cons :
    (pos c : ℕ) (dat cs : Bytes) → write_at (suc pos) dat (c ∷ cs) ≡ c ∷ write_at pos dat cs
unfolding write_at
write_at-cons pos c [] cs = refl
write_at-cons pos c (d ∷ ds) cs = refl

shift :
    (pos c : ℕ) (dat cs : Bytes) {n : ℕ}
    → n ≡ suc pos
    → write_at n dat (c ∷ cs) ≡ c ∷ write_at pos dat cs
shift pos c dat cs e = ap (λ m. write_at m dat (c ∷ cs)) e ∙ write_at-cons pos c dat cs

-- The second piece begins where the first one ends.
write_at-pieces :
    (pos k : ℕ) (dat contents : Bytes)
    → write_at (pos + length (take k dat)) (drop k dat) (write_at pos (take k dat) contents)
      ≡ write_at pos dat contents
unfolding write_at
write_at-pieces pos zero dat contents = ap (λ n. write_at n dat contents) (omega arith)
write_at-pieces pos (suc k) [] contents = refl
write_at-pieces zero (suc k) (d ∷ ds) [] =
    shift (0 + length (take k ds)) d (drop k ds) (write_at 0 (take k ds) []) (omega arith)
    ∙ ap (◌∷◌ d) (write_at-pieces zero k ds [])
write_at-pieces zero (suc k) (d ∷ ds) (c ∷ cs) =
    shift (0 + length (take k ds)) d (drop k ds) (write_at 0 (take k ds) cs) (omega arith)
    ∙ ap (◌∷◌ d) (write_at-pieces zero k ds cs)
write_at-pieces (suc pos) (suc k) (d ∷ ds) [] =
    shift (pos + suc (length (take k ds))) 0 (drop k ds) (write_at pos (d ∷ take k ds) [])
      (omega arith)
    ∙ ap (◌∷◌ 0) (write_at-pieces pos (suc k) (d ∷ ds) [])
write_at-pieces (suc pos) (suc k) (d ∷ ds) (c ∷ cs) =
    shift (pos + suc (length (take k ds))) c (drop k ds) (write_at pos (d ∷ take k ds) cs)
      (omega arith)
    ∙ ap (◌∷◌ c) (write_at-pieces pos (suc k) (d ∷ ds) cs)

-- No call fails.
abbrev pub Works : List Moved → Type 0
Works [] = Unit
Works (moved k ∷ os) = (1 ≤ k) × Works os
Works (_ ∷ os) = ⊥

write_loop-Works :
    (os : List Moved) (pos : ℕ) (dat contents : Bytes)
    → Works os
    → length dat ≤ length os
    → (rest : List Moved) × (write_loop os pos dat contents ≡ done (write_at pos dat contents) rest)
unfolding write_loop write_at
write_loop-Works os pos [] contents h enough = (os, refl)
write_loop-Works [] pos (d ∷ ds) contents h enough = absurd (omega arith)
write_loop-Works (moved k ∷ os) pos (d ∷ ds) contents (le, h) enough =
    let (rest, e) =
      write_loop-Works os (pos + length (take k (d ∷ ds))) (drop k (d ∷ ds))
        (write_at pos (take k (d ∷ ds)) contents) h (omega (arith, length-drop k (d ∷ ds))) in
    (rest, e ∙ ap (λ c. done c rest) (write_at-pieces pos k (d ∷ ds) contents))
write_loop-Works (full ∷ os) pos (d ∷ ds) contents h enough = absurd h
write_loop-Works (failed ∷ os) pos (d ∷ ds) contents h enough = absurd h

-- However the calls of `write` split the data, `writeData` returns after as many of them as there are
-- bytes, and the file holds the data at their position.
pub write_data-Works :
    (os : List Moved) (position : Int64) (dat contents : Bytes)
    → Works os
    → length dat ≤ length os
    → position < 2 ^ 63
    → (rest : List Moved) × (write_data os position dat contents
        ≡ done (write_at position dat contents) rest)
unfolding write_data
write_data-Works os position dat contents h enough small =
    let inside : leb (2 ^ 63) position ≡ false = ground arith in
    let (rest, e) = write_loop-Works os position dat contents h enough in (rest, rw inside e)
