-- ===== src/Paths/Unsafe.antt =====
-- src/sysapi/posix/misc.cpp: `pathIsUnsafe`, against the components of the path.
use instant_send.Prelude.{
  ℕ, ◌+◌, ◌≡◌, refl, ◌∙◌, Bool, false, ◌||◌, List, [], ◌∷◌, ◌++◌, arith, ◌==◌, if◌then◌else◌, Bytes,
  length, Bool-cases, inl, inr,
}
use instant_send.Paths.{slash, dots, scan_path, path_is_unsafe}

-- The path cut at its slashes; `before` begins the first component.
abbrev pub components : Bytes → Bytes → List Bytes
components before [] = before ∷ []
components before (c ∷ cs) =
    if c == slash then before ∷ components [] cs else components (before ++ c ∷ []) cs

abbrev pub is_dot_dot : Bytes → Bool
is_dot_dot [] = false
is_dot_dot (a ∷ []) = false
is_dot_dot (a ∷ b ∷ []) = if a == b'.' then b == b'.' else false
is_dot_dot (a ∷ b ∷ c ∷ r) = false

-- A component that another one follows is `..`.
abbrev pub climbs : List Bytes → Bool
climbs [] = false
climbs (x ∷ []) = false
climbs (x ∷ y ∷ r) = is_dot_dot x || climbs (y ∷ r)

-- What `state` knows of the component so far.
abbrev state_of : Bytes → ℕ
state_of [] = 1
state_of (a ∷ []) = if a == b'.' then 2 else 0
state_of (a ∷ b ∷ []) = if a == b'.' then (if b == b'.' then 3 else 0) else 0
state_of (a ∷ b ∷ c ∷ r) = 0

state_of-append : (before : Bytes) (c : ℕ) → state_of (before ++ c ∷ []) ≡ dots (state_of before) c
unfolding dots
state_of-append [] c = ground arith
state_of-append (a ∷ []) c = ground arith
state_of-append (a ∷ b ∷ []) c = ground arith
state_of-append (a ∷ b ∷ d ∷ r) c = ground arith

state_of_three : (before : Bytes) → (state_of before == 3) ≡ is_dot_dot before
state_of_three [] = refl
state_of_three (a ∷ []) = ground arith
state_of_three (a ∷ b ∷ []) = ground arith
state_of_three (a ∷ b ∷ c ∷ r) = refl

climbs_cons :
    (x before cs : Bytes)
    → climbs (x ∷ components before cs) ≡ (is_dot_dot x || climbs (components before cs))
climbs_cons x before [] = refl
climbs_cons x before (c ∷ cs) = elim (Bool-cases (c == slash)) [
  | inl e ↦ rw e refl
  | inr e ↦ rw e (climbs_cons x (before ++ c ∷ []) cs)
]

scan_path-climbs :
    (cs before : Bytes) (i : ℕ)
    → scan_path i (state_of before) cs ≡ (climbs (components before cs) || (i + length cs == 3))
unfolding scan_path
scan_path-climbs [] before i = ground arith
scan_path-climbs (c ∷ cs) before i = elim (Bool-cases (c == slash)) [
  | inl e ↦
      rw (e, climbs_cons before [] cs)
        (ground (arith, state_of_three before, scan_path-climbs cs [] (i + 1)))
  | inr e ↦
      rw (e, ← state_of-append) (ground (arith, scan_path-climbs cs (before ++ c ∷ []) (i + 1)))
]

-- `pathIsUnsafe` finds every `..` that another component follows. It does not look at the last
-- component, and refuses every path of three bytes.
pub path_is_unsafe-climbs :
    (path : Bytes) → path_is_unsafe path ≡ (climbs (components [] path) || (length path == 3))
unfolding path_is_unsafe
path_is_unsafe-climbs path = scan_path-climbs path [] 0 ∙ ground arith
