-- ===== src/Json/Text/Utf8.antt =====
-- src/json.cpp: `\u` escapes, against the definition of UTF-8.
use instant_send.Json.Text.{round, append, parse_str, scan, unicode}
use instant_send.Prelude.{
  ◌∙◌, ap, ℕ, suc, ◌+◌, ◌-◌, ◌*◌, ◌^◌, ◌≤◌, ◌≡◌, refl, ◌&&◌, Bool, [], ◌∷◌, ◌++◌, Option, none,
  some, arith, leb, ltb, if◌then◌else◌, Bytes,
}
use instant_send.Json.Result.{ok}
use instant_send.Json.CodePoint.{hex_digit, unicode_hex_to_int, code_point_to_utf8}

-- A continuation byte is 10xxxxxx.
abbrev is_continuation : ℕ → Bool
is_continuation b = leb 0x80 b && ltb b 0xc0

-- The bits of a continuation byte.
abbrev low_bits : ℕ → ℕ
low_bits b = b - 0x80

-- RFC 3629, less its ban on surrogates: the code point of a whole text, in its shortest form.
pub utf8_decode : Bytes → Option ℕ
utf8_decode (a ∷ []) = if ltb a 0x80 then some a else none
utf8_decode (a ∷ b ∷ []) =
    if leb 0xc2 a && ltb a 0xe0 && is_continuation b
    then some ((a - 0xc0) * 2 ^ 6 + low_bits b)
    else none
utf8_decode (a ∷ b ∷ c ∷ []) =
    let cp = (a - 0xe0) * 2 ^ 12 + low_bits b * 2 ^ 6 + low_bits c in
    if leb 0xe0 a && ltb a 0xf0 && is_continuation b && is_continuation c && leb 0x800 cp
    then some cp
    else none
utf8_decode (a ∷ b ∷ c ∷ d ∷ []) =
    let cp = (a - 0xf0) * 2 ^ 18 + low_bits b * 2 ^ 12 + low_bits c * 2 ^ 6 + low_bits d in
    if leb 0xf0 a
      && ltb a 0xf8
      && is_continuation b
      && is_continuation c
      && is_continuation d
      && leb 0x10000 cp
      && leb cp 0x10ffff
    then some cp
    else none
utf8_decode _ = none

-- What `codePointToUTF8` writes is read by `utf8_decode` as the same code point; for a number that is
-- none, what it writes is not UTF-8 of any.
pub utf8_decode-code_point_to_utf8 :
    (cp : ℕ) → utf8_decode (code_point_to_utf8 cp) ≡ (if leb cp 0x10ffff then some cp else none)
unfolding utf8_decode code_point_to_utf8
utf8_decode-code_point_to_utf8 cp = ground arith

code_point_small : (cp : ℕ) → cp ≤ 0xffff → utf8_decode (code_point_to_utf8 cp) ≡ some cp
code_point_small cp h = ground (arith, utf8_decode-code_point_to_utf8 cp)

hex_digit-le : (c : ℕ) → hex_digit c ≤ 15
unfolding hex_digit
hex_digit-le c = ground arith

-- The number that four hexadecimal digits stand for.
abbrev pub hex_number : ℕ → ℕ → ℕ → ℕ → ℕ
hex_number a b c d = hex_digit a * 4096 + hex_digit b * 256 + hex_digit c * 16 + hex_digit d

four_digits : (a b c d : ℕ) → unicode_hex_to_int (a ∷ b ∷ c ∷ d ∷ []) ≡ ok (hex_number a b c d)
unfolding unicode_hex_to_int
four_digits a b c d = ap ok (omega arith)

scan_unicode :
    (a b c d n : ℕ) (rest : Bytes)
    → round n (b'\\' ∷ b'u' ∷ a ∷ b ∷ c ∷ d ∷ rest)
      ≡ append (code_point_to_utf8 (hex_number a b c d)) rest
unfolding round
scan_unicode a b c d n rest = rw (unicode, four_digits a b c d) refl

scan_append :
    (fuel n : ℕ) (res str bytes rest : Bytes)
    → round n str ≡ append bytes rest
    → scan (suc fuel) n res str ≡ scan fuel n (res ++ bytes) rest
unfolding scan
scan_append fuel n res str bytes rest h = rw (scan, h) refl

scan_quote : (fuel n : ℕ) (res rest : Bytes) → scan (suc fuel) n res (b'"' ∷ rest) ≡ ok (res, rest)
unfolding scan round
scan_quote fuel n res rest = refl

-- A text that is one `\u` escape is read as the UTF-8 encoding of the number that its four digits
-- stand for.
parse_str-unicode :
    (a b c d : ℕ) (rest : Bytes)
    → (bytes : Bytes) × (parse_str (b'"' ∷ b'\\' ∷ b'u' ∷ a ∷ b ∷ c ∷ d ∷ b'"' ∷ rest)
        ≡ ok (bytes, rest))
      × (utf8_decode bytes ≡ some (hex_number a b c d))
unfolding parse_str
parse_str-unicode a b c d rest = (
  code_point_to_utf8 (hex_number a b c d),
  scan_append _ _ [] _ _ _ (scan_unicode a b c d _ (b'"' ∷ rest)) ∙ scan_quote _ _ _ rest,
  code_point_small (hex_number a b c d) (omega (arith, hex_digit-le)),
)
