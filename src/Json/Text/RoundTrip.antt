-- ===== src/Json/Text/RoundTrip.antt =====
-- src/json.cpp: `jsonStr_t::fromString` after `jsonStr_t::toString`.
use instant_send.Prelude.{
  ℕ, zero, suc, ◌+◌, ◌≤◌, ◌<◌, ◌≡◌, ◌≢◌, refl, ◌∙◌, sym, ap, [], ◌∷◌, ◌++◌, append-nil,
  append_assoc, arith, Bytes, length, length-append, first_byte,
}
use instant_send.CString.{NoNul}
use instant_send.Json.Result.{ok}
use instant_send.Json.Text.{stop, append, round, scan, parse_str, escape, escape_onto, print_str}

-- The printed bytes, each in front of what follows.
abbrev escaped : Bytes → Bytes
escaped [] = []
escaped (c ∷ cs) = escape c ++ escaped cs

escape_onto-escaped : (res s : Bytes) → escape_onto res s ≡ res ++ escaped s
unfolding escape_onto
escape_onto-escaped res [] = sym (append-nil res)
escape_onto-escaped res (c ∷ cs) =
    escape_onto-escaped (res ++ escape c) cs ∙ append_assoc res (escape c) (escaped cs)

-- The two bytes of an escape, or the one byte of a plain character, are one round of the loop.
round-escape : (n c : ℕ) (rest : Bytes) → c ≢ 0 → round n (escape c ++ rest) ≡ append (c ∷ []) rest
unfolding round escape
round-escape n c rest h = ground arith

round_quote : (n : ℕ) (rest : Bytes) → round n (b'"' ∷ rest) ≡ stop rest
unfolding round
round_quote n rest = refl

scan-escaped :
    (s : Bytes) (fuel n : ℕ) (res rest : Bytes)
    → NoNul s
    → length s < fuel
    → scan fuel n res (escaped s ++ b'"' ∷ rest) ≡ ok (res ++ s, rest)
unfolding scan
scan-escaped s zero n res rest h enough = absurd (omega arith)
scan-escaped [] (suc fuel) n res rest h enough = rw (append-nil, scan, round_quote)
scan-escaped (c ∷ cs) (suc fuel) n res rest h enough =
    rw (append_assoc (escape c) (escaped cs) (b'"' ∷ rest), scan, round-escape n c _ h.0)
      (scan-escaped cs fuel n (res ++ c ∷ []) rest h.1 (omega arith)
        ∙ ap (λ s. ok (s, rest)) (append_assoc res (c ∷ []) cs))

length-escape : (c : ℕ) → 1 ≤ length (escape c)
unfolding escape
length-escape c = ground arith

length-escaped : (s rest : Bytes) → length s + length rest ≤ length (escaped s ++ rest)
length-escaped [] rest = omega arith
length-escaped (c ∷ cs) rest = rw (append_assoc (escape c) (escaped cs) rest) (
    omega (
      arith,
      length-append (escape c) (escaped cs ++ rest),
      length-escape c,
      length-escaped cs rest,
    ))

print_str-escaped : (s : Bytes) → print_str s ≡ b'"' ∷ (escaped s ++ b'"' ∷ [])
unfolding print_str
print_str-escaped s = rw escape_onto-escaped refl

-- What `jsonStr_t::toString` wrote of a text with no NUL, `jsonStr_t::fromString` reads back, whatever the text
-- holds, and leaves what follows.
pub parse_str-print_str :
    (s rest : Bytes) → NoNul s → parse_str (print_str s ++ rest) ≡ ok (s, rest)
unfolding parse_str
parse_str-print_str s rest h =
    rw (print_str-escaped s, append_assoc (escaped s) (b'"' ∷ []) rest)
      (scan-escaped s _ _ [] rest h (omega (arith, length-escaped s (b'"' ∷ rest))))

pub first_byte-print_str : (s rest : Bytes) → first_byte (print_str s ++ rest) ≡ b'"'
first_byte-print_str s rest = rw print_str-escaped refl
