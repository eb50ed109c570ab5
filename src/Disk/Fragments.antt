-- ===== src/Disk/Fragments.antt =====
-- src/sysapi/posix/file.cpp: parts of a file, written in any order.
use mathlib.Core.Bool.{Bool-set}
use mathlib.Core.List.{Perm, foldr}
use mathlib.Core.List.Perm
use instant_send.Prelude.{
  ℕ, zero, suc, ◌+◌, ◌-◌, ◌≤◌, ◌<◌, ◌≡◌, ◌∙◌, ap, refl, sym, Bool, true, false, ◌&&◌, ◌||◌, List,
  [], ◌∷◌, some, arith, Bytes, length, take, drop, get_elem?, get_elem?-drop, get_elem?-take,
  get_elem?-ext, ltb, leb, Bool-cases, inl, inr, ◌⊎◌,
}
use instant_send.Json.Loader.{bytes_eq}
use instant_send.Json.Equal.{bytes_eq-eq}
use instant_send.Disk.{write_at}

-- Bytes and the position that they are written at.
abbrev pub Part : Type 0
Part = ℕ × Bytes

unfoldable pub write_all : List Part → Bytes → Bytes
write_all [] contents = contents
write_all ((pos, dat) ∷ ws) contents = write_all ws (write_at pos dat contents)

abbrev pub covers : ℕ → Part → Bool
covers i (pos, dat) = leb pos i && ltb i (pos + length dat)

-- The bytes stand at that position in the file.
abbrev pub fits : Bytes → Part → Bool
fits file (pos, dat) =
    bytes_eq dat (take (length dat) (drop pos file)) && leb (pos + length dat) (length file)

abbrev pub any_covers : ℕ → List Part → Bool
any_covers i = foldr (λ w b. covers i w || b) false

abbrev pub all_fit : Bytes → List Part → Bool
all_fit file = foldr (λ w b. fits file w && b) true

and_swap : (a b c : Bool) → (a && (b && c)) ≡ (b && (a && c))
and_swap true true c = refl
and_swap true false c = refl
and_swap false true c = refl
and_swap false false c = refl

get-first :
    (dat contents : Bytes) (i : ℕ)
    → i < length dat
    → get_elem? (write_at 0 dat contents) i ≡ get_elem? dat i
unfolding write_at
get-first [] contents i lt = absurd (omega arith)
get-first (d ∷ ds) [] zero lt = refl
get-first (d ∷ ds) [] (suc i) lt = get-first ds [] i (omega arith)
get-first (d ∷ ds) (c ∷ cs) zero lt = refl
get-first (d ∷ ds) (c ∷ cs) (suc i) lt = get-first ds cs i (omega arith)

-- What was written is read at its place.
get-covered :
    (pos : ℕ) (dat contents : Bytes) (i j : ℕ)
    → i ≡ pos + j
    → j < length dat
    → get_elem? (write_at pos dat contents) i ≡ get_elem? dat j
unfolding write_at
get-covered pos [] contents i j e lt = absurd (omega arith)
get-covered zero (d ∷ ds) contents i j e lt =
    let same : i ≡ j = omega arith in rw same (get-first (d ∷ ds) contents j lt)
get-covered (suc pos) (d ∷ ds) contents zero j e lt = absurd (omega arith)
get-covered (suc pos) (d ∷ ds) [] (suc i) j e lt = get-covered pos (d ∷ ds) [] i j (omega arith) lt
get-covered (suc pos) (d ∷ ds) (c ∷ cs) (suc i) j e lt =
    get-covered pos (d ∷ ds) cs i j (omega arith) lt

-- Elsewhere a byte that was there stays.
get-kept :
    (pos : ℕ) (dat contents : Bytes) (i x : ℕ)
    → covers i (pos, dat) ≡ false
    → get_elem? contents i ≡ some x
    → get_elem? (write_at pos dat contents) i ≡ some x
unfolding write_at
get-kept pos [] contents i x miss e = e
get-kept zero (d ∷ ds) [] i x miss e = absurd cc
get-kept zero (d ∷ ds) (c ∷ cs) zero x miss e = absurd (ground arith)
get-kept zero (d ∷ ds) (c ∷ cs) (suc i) x miss e = get-kept zero ds cs i x (ground arith) e
get-kept (suc pos) (d ∷ ds) [] i x miss e = absurd cc
get-kept (suc pos) (d ∷ ds) (c ∷ cs) zero x miss e = e
get-kept (suc pos) (d ∷ ds) (c ∷ cs) (suc i) x miss e =
    get-kept pos (d ∷ ds) cs i x (ground arith) e

length-write_at :
    (pos : ℕ) (dat contents : Bytes) (n : ℕ)
    → pos + length dat ≤ n
    → length contents ≤ n
    → length (write_at pos dat contents) ≤ n
unfolding write_at
length-write_at pos [] contents n h k = k
length-write_at zero (d ∷ ds) [] zero h k = absurd (omega arith)
length-write_at zero (d ∷ ds) [] (suc n) h k =
    omega (arith, length-write_at zero ds [] n (omega arith) (omega arith))
length-write_at zero (d ∷ ds) (c ∷ cs) zero h k = absurd (omega arith)
length-write_at zero (d ∷ ds) (c ∷ cs) (suc n) h k =
    omega (arith, length-write_at zero ds cs n (omega arith) (omega arith))
length-write_at (suc pos) (d ∷ ds) contents zero h k = absurd (omega arith)
length-write_at (suc pos) (d ∷ ds) [] (suc n) h k =
    omega (arith, length-write_at pos (d ∷ ds) [] n (omega arith) (omega arith))
length-write_at (suc pos) (d ∷ ds) (c ∷ cs) (suc n) h k =
    omega (arith, length-write_at pos (d ∷ ds) cs n (omega arith) (omega arith))

get-defined : (xs : Bytes) (i : ℕ) → i < length xs → (x : ℕ) × (get_elem? xs i ≡ some x)
get-defined [] i lt = absurd (omega arith)
get-defined (x ∷ xs) zero lt = (x, refl)
get-defined (x ∷ xs) (suc i) lt = get-defined xs i (omega arith)

module _ (file : Bytes) where
  -- What a part that fits says of the file.
  fits-get :
      (pos : ℕ) (dat : Bytes) (j : ℕ)
      → fits file (pos, dat) ≡ true
      → j < length dat
      → get_elem? dat j ≡ get_elem? file (pos + j)
  fits-get pos dat j f lt =
      let same : dat ≡ take (length dat) (drop pos file) = bytes_eq-eq dat _ (ground arith) in
      ap (λ d. get_elem? d j) same
      ∙ get_elem?-take (length dat) (drop pos file) j lt
      ∙ get_elem?-drop pos file j

  -- A byte that the part covers, or that was right before, is right behind it.
  get-right :
      (pos : ℕ) (dat contents : Bytes) (i : ℕ)
      → fits file (pos, dat) ≡ true
      → i < length file
      → (covers i (pos, dat) ≡ true) ⊎ (get_elem? contents i ≡ get_elem? file i)
      → get_elem? (write_at pos dat contents) i ≡ get_elem? file i
  get-right pos dat contents i f lt h = elim (Bool-cases (covers i (pos, dat))) [
    | inl c ↦
        let place : i ≡ pos + (i - pos) = ground arith in
        let inside : i - pos < length dat = ground arith in
        get-covered pos dat contents i (i - pos) place inside
        ∙ fits-get pos dat (i - pos) f inside
        ∙ ap (get_elem? file) (sym place)
    | inr c ↦ elim h [
      | inl met ↦ absurd cc
      | inr right ↦
          let (x, e) = get-defined file i lt in get-kept pos dat contents i x c (right ∙ e) ∙ sym e
    ]
  ]

  get-all :
      (ws : List Part) (contents : Bytes) (i : ℕ)
      → all_fit file ws ≡ true
      → i < length file
      → (any_covers i ws ≡ true) ⊎ (get_elem? contents i ≡ get_elem? file i)
      → get_elem? (write_all ws contents) i ≡ get_elem? file i
  unfolding write_all
  get-all [] contents i f lt (inl c) = absurd cc
  get-all [] contents i f lt (inr right) = right
  get-all ((pos, dat) ∷ ws) contents i f lt h =
      let this : fits file (pos, dat) ≡ true = ground arith in
      let others : all_fit file ws ≡ true = ground arith in
      get-all ws (write_at pos dat contents) i others lt (elim h [
        | inr right ↦ inr (get-right pos dat contents i this lt (inr right))
        | inl c ↦ elim (Bool-cases (covers i (pos, dat))) [
          | inl hit ↦ inr (get-right pos dat contents i this lt (inl hit))
          | inr miss ↦ inl (ground (arith, miss, c))
        ]
      ])

  length-write_all :
      (ws : List Part) (contents : Bytes)
      → all_fit file ws ≡ true
      → length contents ≤ length file
      → length (write_all ws contents) ≤ length file
  unfolding write_all
  length-write_all [] contents f le = le
  length-write_all ((pos, dat) ∷ ws) contents f le =
      let this : pos + length dat ≤ length file = ground arith in
      length-write_all ws (write_at pos dat contents) (ground arith)
        (length-write_at pos dat contents (length file) this le)

  -- The order of the parts plays no role in what they cover, nor in whether they fit.
  any_covers-Perm : (i : ℕ) (ws vs : List Part) → Perm ws vs → any_covers i ws ≡ any_covers i vs
  any_covers-Perm i ws vs p =
      Perm.foldr-eq Bool-set (λ w b. covers i w || b) (λ w v b. ground arith) p false

  all_fit-Perm : (ws vs : List Part) → Perm ws vs → all_fit file ws ≡ all_fit file vs
  all_fit-Perm ws vs p =
      Perm.foldr-eq Bool-set (λ w b. fits file w && b)
        (λ w v b. and_swap (fits file w) (fits file v) b) p true

  -- Parts that fit a file and cover it make the file of any contents that are not longer, in whatever
  -- order they are written.
  pub write_all-Perm :
      (ws vs : List Part) (contents : Bytes)
      → Perm ws vs
      → all_fit file ws ≡ true
      → ((i : ℕ) → i < length file → any_covers i ws ≡ true)
      → length contents ≤ length file
      → write_all vs contents ≡ file
  write_all-Perm ws vs contents p f c le =
      let fit : all_fit file vs ≡ true = sym (all_fit-Perm ws vs p) ∙ f in
      get_elem?-ext (write_all vs contents) file (length-write_all vs contents fit le)
        λ i lt. get-all vs contents i fit lt (inl (sym (any_covers-Perm i ws vs p) ∙ c i lt))
