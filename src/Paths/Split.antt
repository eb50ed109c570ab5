-- ===== src/Paths/Split.antt =====
-- src/sysapi/posix/misc.cpp: `getFileName`, and `combinePath` with it.
use native.Mathlib.Nat.{add-zero, add-suc}
use instant_send.Prelude.{
  drop-append_length, sym, ℕ, zero, suc, ◌+◌, ◌≡◌, ◌≢◌, refl, ◌∙◌, ap, [], ◌∷◌, ◌++◌, some, arith,
  ◌==◌, if◌then◌else◌, Bytes, first_byte, length, length-append, drop,
}
use instant_send.Paths.{slash, byte_at, back_to_slash, get_file_name, combine_path}

abbrev pub NoSlash : Bytes → Type 0
NoSlash [] = Unit
NoSlash (c ∷ cs) = (c ≢ slash) × NoSlash cs

pub byte_at-append : (xs ys : Bytes) (j : ℕ) → byte_at (xs ++ ys) (length xs + j) ≡ byte_at ys j
byte_at-append xs ys j = ap first_byte (drop-append_length xs ys j)

NoSlash-byte_at : (name : Bytes) (j : ℕ) → NoSlash name → byte_at name j ≢ slash
NoSlash-byte_at [] zero h = omega arith
NoSlash-byte_at [] (suc j) h = omega arith
NoSlash-byte_at (c ∷ cs) zero h = h.0
NoSlash-byte_at (c ∷ cs) (suc j) h = NoSlash-byte_at cs j h.1

-- The loop stays at a slash.
back_to_slash_stop : (path : Bytes) (i : ℕ) → byte_at path i ≡ slash → back_to_slash path i ≡ i
unfolding back_to_slash
back_to_slash_stop path zero h = refl
back_to_slash_stop path (suc i) h = ground arith

-- Otherwise it goes one back.
back_to_slash-suc :
    (path : Bytes) (i : ℕ)
    → byte_at path (suc i) ≢ slash
    → back_to_slash path (suc i) ≡ back_to_slash path i
unfolding back_to_slash
back_to_slash-suc path i h = ground arith

-- The loop begins at the last byte.
get_file_name_found :
    (path : Bytes) (last i : ℕ)
    → suc last ≡ length path
    → back_to_slash path last ≡ i
    → get_file_name path ≡ some (if byte_at path i == slash then i + 1 else i)
unfolding get_file_name
get_file_name_found [] last i h e = absurd (omega arith)
get_file_name_found (c ∷ cs) last i h e =
    let same : last ≡ length cs = omega arith in rw (← e, same) refl

module _ (dir name : Bytes) (plain : NoSlash name) where
  byte_at-slash : byte_at (dir ++ slash ∷ name) (length dir) ≡ slash
  byte_at-slash = rw (sym (add-zero (length dir))) (byte_at-append dir (slash ∷ name) 0)

  back_to_slash_name : (j : ℕ) → back_to_slash (dir ++ slash ∷ name) (length dir + j) ≡ length dir
  back_to_slash_name zero = rw (add-zero (length dir)) (back_to_slash_stop _ _ byte_at-slash)
  back_to_slash_name (suc j) =
      let e : byte_at (dir ++ slash ∷ name) (suc (length dir + j)) ≡ byte_at name j =
        rw (← add-suc (length dir) j) (byte_at-append dir (slash ∷ name) (suc j)) in
      rw (add-suc (length dir) j)
        (back_to_slash-suc _ _ (rw e (NoSlash-byte_at name j plain)) ∙ back_to_slash_name j)

  -- For a name with no slash, `getFileName` gives the index behind the slash of `combinePath`, whatever
  -- the directory is, and what stands there is that name.
  get_file_name-combine_path :
      (n : ℕ) × (get_file_name (combine_path dir name) ≡ some n)
      × (n ≡ length dir + 1)
      × (drop n (combine_path dir name) ≡ name)
  unfolding combine_path
  get_file_name-combine_path = (
    length dir + 1,
    get_file_name_found (dir ++ slash ∷ name) (length dir + length name) (length dir)
          (omega (arith, length-append dir (slash ∷ name))) (back_to_slash_name (length name))
        ∙ rw byte_at-slash refl,
    refl,
    drop-append_length dir (slash ∷ name) 1,
  )
