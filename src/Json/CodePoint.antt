-- ===== src/Json/CodePoint.antt =====
-- src/json.cpp: `unicodeHexToInt` and `codePointToUTF8`. The shifts and masks are written by `/`
-- and `%`, and `|` of disjoint bits by `+`.
use instant_send.Prelude.{
  ℕ, ◌+◌, ◌-◌, ◌*◌, ◌/◌, ◌%◌, ◌^◌, ◌&&◌, [], ◌∷◌, leb, ◌==◌, if◌then◌else◌, Bytes, length,
}
use instant_send.Json.Result.{Result, ok, syntax_err, last_index}

-- A byte that is no hexadecimal digit adds nothing.
unfoldable pub hex_digit : ℕ → ℕ
hex_digit c =
    if leb b'0' c && leb c b'9'
    then c - b'0'
    else if leb b'a' c && leb c b'f'
    then c - b'a' + 10
    else if leb b'A' c && leb c b'F'
    then c - b'A' + 10
    else 0

-- The loop, from the value so far. An `unsigned int` holds all four digits.
pub hex_digits : ℕ → Bytes → ℕ
hex_digits res [] = res
hex_digits res (c ∷ cs) = hex_digits (res * 16 + hex_digit c) cs

unfoldable pub unicode_hex_to_int : Bytes → Result ℕ
unfolding hex_digits hex_digit
unicode_hex_to_int str =
    if length str == 4 then ok (hex_digits 0 str) else syntax_err (last_index (length str))

unfoldable pub code_point_to_utf8 : ℕ → Bytes
code_point_to_utf8 cp =
    if leb cp 0x7f
    then cp ∷ []
    else if leb cp 0x7ff
    then (0xc0 + cp / 2 ^ 6 % 2 ^ 5) ∷ (0x80 + cp % 2 ^ 6) ∷ []
    else if leb cp 0xffff
    then (0xe0 + cp / 2 ^ 12 % 2 ^ 4) ∷ (0x80 + cp / 2 ^ 6 % 2 ^ 6) ∷ (0x80 + cp % 2 ^ 6) ∷ []
    else if leb cp 0x10ffff
    then (0xf0 + cp / 2 ^ 18 % 2 ^ 3)
      ∷ (0x80 + cp / 2 ^ 12 % 2 ^ 6)
      ∷ (0x80 + cp / 2 ^ 6 % 2 ^ 6)
      ∷ (0x80 + cp % 2 ^ 6)
      ∷ []
    else []
