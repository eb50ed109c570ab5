-- ===== src/Paths/Trim.antt =====
-- src/sysapi/posix/misc.cpp: `trimSlashes`, on every path that is not empty.
use native.Mathlib.Nat.{add-zero, add-suc}
use instant_send.Prelude.{
  ℕ, zero, suc, ◌+◌, ◌≤◌, ◌<◌, ◌≡◌, ◌≢◌, refl, ◌∙◌, ap, sym, [], ◌∷◌, ◌++◌, some, arith, ◌==◌,
  if◌then◌else◌, Bytes, ltb, length, length-append, take, take-append_length, append_assoc,
}
use instant_send.Paths.Split.{byte_at-append}
use instant_send.Paths.{slash, byte_at, back_over_slashes, trim_slashes}

abbrev pub slashes : ℕ → Bytes
slashes zero = []
slashes (suc k) = slash ∷ slashes k

length-slashes : (k : ℕ) → length (slashes k) ≡ k
length-slashes zero = refl
length-slashes (suc k) = ap suc (length-slashes k)

byte_at-slashes : (k j : ℕ) → j < k → byte_at (slashes k) j ≡ slash
byte_at-slashes zero j h = absurd (omega arith)
byte_at-slashes (suc k) zero h = refl
byte_at-slashes (suc k) (suc j) h = byte_at-slashes k j (omega arith)

back_over_slashes-suc :
    (path : Bytes) (i : ℕ)
    → byte_at path (suc i) ≡ slash
    → back_over_slashes path (suc i) ≡ back_over_slashes path i
unfolding back_over_slashes
back_over_slashes-suc path i h = ground arith

back_over_slashes_stop :
    (path : Bytes) (i : ℕ) → byte_at path i ≢ slash → back_over_slashes path i ≡ i
unfolding back_over_slashes
back_over_slashes_stop path zero h = refl
back_over_slashes_stop path (suc i) h = ground arith

-- Down to the first byte, whatever that is.
back_over_slashes_all : (c k i : ℕ) → i ≤ k → back_over_slashes (c ∷ slashes k) i ≡ 0
back_over_slashes_all c k zero h = unfold back_over_slashes in refl
back_over_slashes_all c k (suc i) h =
    back_over_slashes-suc (c ∷ slashes k) i (byte_at-slashes k i h)
    ∙ back_over_slashes_all c k i (omega arith)

module _ (front : Bytes) (d k : ℕ) (plain : d ≢ slash) where
  -- Down to the last byte that is no slash.
  back_over_slashes_to :
      (j : ℕ) → j ≤ k → back_over_slashes (front ++ d ∷ slashes k) (length front + j) ≡ length front
  back_over_slashes_to zero h =
      rw (add-zero (length front))
        (back_over_slashes_stop _ _ (rw (sym (add-zero (length front)), byte_at-append) plain))
  back_over_slashes_to (suc j) h =
      let e : byte_at (front ++ d ∷ slashes k) (suc (length front + j)) ≡ slash =
        rw (← add-suc (length front) j, byte_at-append) (byte_at-slashes k j h) in
      rw (add-suc (length front) j)
        (back_over_slashes-suc _ _ e ∙ back_over_slashes_to j (omega arith))

trim_slashes_at :
    (path : Bytes) (last i : ℕ)
    → suc last ≡ length path
    → back_over_slashes path last ≡ i
    → trim_slashes path ≡ (
        if i == 0
        then some (slash ∷ [])
        else if ltb (i + 1) (length path)
        then some (take (i + 1) path)
        else some path)
unfolding trim_slashes
trim_slashes_at [] last i h e = absurd (omega arith)
trim_slashes_at (c ∷ cs) last i h e =
    let same : last ≡ length cs = omega arith in rw (← e, same) refl

take_front :
    (front : Bytes) (d k : ℕ) → take (length front + 1) (front ++ d ∷ slashes k) ≡ front ++ d ∷ []
take_front front d k =
    let e : length front + 1 ≡ length (front ++ d ∷ []) =
      omega (arith, length-append front (d ∷ [])) in
    rw (e, sym (append_assoc front (d ∷ []) (slashes k)))
      (take-append_length (front ++ d ∷ []) (slashes k))

keep :
    (front : Bytes) (d k : ℕ)
    → 0 < length front
    → (let path = front ++ d ∷ slashes k in
        if length front == 0
        then some (slash ∷ [])
        else if ltb (length front + 1) (length path)
        then some (take (length front + 1) path)
        else some path)
      ≡ some (front ++ d ∷ [])
keep front d zero h = ground (arith, length-append front (d ∷ []))
keep front d (suc k) h =
    ground (arith, length-append front (d ∷ slash ∷ slashes k), take_front front d (suc k))

-- The slashes at the end are taken off, and nothing else, if a byte behind the first is no slash.
trim_slashes-slashes :
    (c : ℕ) (cs : Bytes) (d k : ℕ)
    → d ≢ slash
    → trim_slashes (c ∷ (cs ++ d ∷ slashes k)) ≡ some (c ∷ (cs ++ d ∷ []))
trim_slashes-slashes c cs d k h =
    let path = c ∷ (cs ++ d ∷ slashes k) in
    let size : length path ≡ suc (suc (length cs + k)) =
      omega (arith, length-append cs (d ∷ slashes k), length-slashes k) in
    trim_slashes_at path (suc (length cs) + k) (suc (length cs)) (omega arith)
      (back_over_slashes_to (c ∷ cs) d k h k (omega arith))
    ∙ keep (c ∷ cs) d k (omega arith)

-- If there is none, the result is the root directory, whatever the first byte is: so for every name of one byte.
trim_slashes_first : (c k : ℕ) → trim_slashes (c ∷ slashes k) ≡ some (slash ∷ [])
trim_slashes_first c k =
    trim_slashes_at (c ∷ slashes k) k 0 (omega (arith, length-slashes k))
      (back_over_slashes_all c k k (omega arith))
    ∙ refl
