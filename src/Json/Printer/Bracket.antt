-- ===== src/Json/Printer/Bracket.antt =====
-- src/json.cpp: the text of an array or object, with no accumulator and nothing erased.
use instant_send.Prelude.{
  ℕ, ◌-◌, ◌≡◌, refl, ◌∙◌, List, [], ◌∷◌, ◌++◌, append-nil, append_assoc, arith, ltb, true,
  if◌then◌else◌, Bytes, length, length-append, take-append_length, codes,
}
use instant_send.Json.Printer.{append_texts, erase_last_two, bracket}

-- Each text behind its comma.
abbrev pub listed : List Bytes → Bytes
listed [] = []
listed (t ∷ ts) = codes ", " ++ (t ++ listed ts)

append_texts-listed :
    (res : Bytes) (t : Bytes) (ts : List Bytes)
    → append_texts res (t ∷ ts) ≡ (res ++ (t ++ listed ts)) ++ codes ", "
unfolding append_texts
append_texts-listed res t [] = simp (append-nil, append_assoc)
append_texts-listed res t (u ∷ us) =
    append_texts-listed (res ++ (t ++ codes ", ")) u us ∙ simp append_assoc

erase_last_two-append : (xs : Bytes) (a b : ℕ) → erase_last_two (xs ++ a ∷ b ∷ []) ≡ xs
unfolding erase_last_two
erase_last_two-append xs a b =
    let e : length (xs ++ a ∷ b ∷ []) - 2 ≡ length xs =
      omega (arith, length-append xs (a ∷ b ∷ [])) in
    rw e (take-append_length xs (a ∷ b ∷ []))

-- A text is there, so the last comma is erased.
close_bracket :
    (xs : Bytes) (a b c : ℕ)
    → (if ltb 1 (length (xs ++ a ∷ b ∷ []))
          then erase_last_two (xs ++ a ∷ b ∷ [])
          else xs ++ a ∷ b ∷ [])
        ++ c ∷ []
      ≡ xs ++ c ∷ []
close_bracket xs a b c =
    let e : ltb 1 (length (xs ++ a ∷ b ∷ [])) ≡ true =
      ground (arith, length-append xs (a ∷ b ∷ [])) in
    rw (e, erase_last_two-append) refl

pub bracket_nil : (o c : ℕ) → bracket o c [] ≡ o ∷ c ∷ []
unfolding bracket append_texts
bracket_nil o c = refl

pub bracket_cons :
    (o c : ℕ) (t : Bytes) (ts : List Bytes)
    → bracket o c (t ∷ ts) ≡ o ∷ (t ++ (listed ts ++ c ∷ []))
unfolding bracket
bracket_cons o c t ts =
    rw (append_texts-listed (o ∷ []) t ts)
      (close_bracket (o ∷ (t ++ listed ts)) b',' b' ' c ∙ simp append_assoc)

-- The same in front of what follows.
pub bracket_cons-append :
    (o c : ℕ) (t : Bytes) (ts : List Bytes) (rest : Bytes)
    → bracket o c (t ∷ ts) ++ rest ≡ o ∷ ((t ++ listed ts) ++ c ∷ rest)
bracket_cons-append o c t ts rest = rw bracket_cons (simp append_assoc)
