-- ===== src/Paths/Make.antt =====
-- src/sysapi/posix/misc.cpp: `makePath` makes every directory after those above it.
use instant_send.Prelude.{
  ℕ, ◌≡◌, refl, List, [], ◌∷◌, ◌++◌, some, none, arith, ◌==◌, Bytes, length, take-append_length,
  append_assoc, append-nil, Bool-cases, inl, inr,
}
use instant_send.Paths.Split.{NoSlash}
use instant_send.Paths.{slash, rfind_slash, prefixes, directory_of, make_path, combine_path}

-- The part before a slash is made, and before it and after it what `prefixes` makes of the rest.
prefixes-append :
    (a b before : Bytes)
    → prefixes before (a ++ slash ∷ b)
      ≡ prefixes before a ++ (before ++ a) ∷ prefixes (before ++ a ++ slash ∷ []) b
unfolding prefixes
prefixes-append [] b before = rw append-nil refl
prefixes-append (c ∷ a) b before = elim (Bool-cases (c == slash)) [
  | inl e ↦ rw e (simp (prefixes-append a b, append_assoc))
  | inr e ↦ rw e (simp (prefixes-append a b, append_assoc))
]

-- What stands before the last slash is the directory.
rfind_slash-NoSlash : (name : Bytes) → NoSlash name → rfind_slash name ≡ none
unfolding rfind_slash
rfind_slash-NoSlash [] h = refl
rfind_slash-NoSlash (c ∷ cs) h = ground (arith, rfind_slash-NoSlash cs h.1)

rfind_slash_last :
    (dir name : Bytes) → NoSlash name → rfind_slash (dir ++ slash ∷ name) ≡ some (length dir)
unfolding rfind_slash
rfind_slash_last [] name h = rw (rfind_slash-NoSlash name h) refl
rfind_slash_last (c ∷ dir) name h = rw (rfind_slash_last dir name h, rfind_slash) refl

directory_of-combine_path :
    (dir name : Bytes) → NoSlash name → directory_of (combine_path dir name) ≡ dir
unfolding directory_of combine_path
directory_of-combine_path dir name h =
    rw (directory_of, rfind_slash_last dir name h) (take-append_length dir (slash ∷ name))

-- `a` among the calls, and the directory behind all of them.
abbrev pub MadeBefore : Bytes → Bytes → List Bytes → Type 0
MadeBefore a directory calls =
    (xs : List Bytes) × (ys : List Bytes) × (calls ≡ xs ++ a ∷ (ys ++ directory ∷ []))

made_before :
    (front a b : Bytes)
    → MadeBefore
        (front ++ a)
        (front ++ (a ++ slash ∷ b))
        (prefixes front (a ++ slash ∷ b) ++ (front ++ (a ++ slash ∷ b)) ∷ [])
made_before front a b = (
  prefixes front a,
  prefixes (front ++ a ++ slash ∷ []) b,
  rw prefixes-append (append_assoc (prefixes front a) _ _),
)

-- For a file below a directory, `makePath` makes the directory last, and each directory above it earlier.
pub make_path-MadeBefore :
    (c : ℕ) (a b name : Bytes)
    → NoSlash name
    → let directory = c ∷ (a ++ slash ∷ b) in
      MadeBefore (c ∷ a) directory (make_path (combine_path directory name))
unfolding make_path
make_path-MadeBefore c a b name h = elim (Bool-cases (c == slash)) [
  | inl e ↦
      rw (directory_of-combine_path (c ∷ (a ++ slash ∷ b)) name h, e) (made_before (c ∷ []) a b)
  | inr e ↦
      rw (directory_of-combine_path (c ∷ (a ++ slash ∷ b)) name h, e) (made_before [] (c ∷ a) b)
]
