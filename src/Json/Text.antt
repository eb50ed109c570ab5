-- ===== src/Json/Text.antt =====
-- src/json.cpp: `jsonStr_t::fromString` and `jsonStr_t::toString`.
pub mod Utf8
pub mod RoundTrip
pub mod Ends
use instant_send.Prelude.{
  ℕ, zero, suc, ◌+◌, ◌-◌, ◌*◌, Bool, true, false, not, ◌&&◌, ◌||◌, [], ◌∷◌, ◌++◌, leb, ◌==◌,
  if◌then◌else◌, Bytes, first_byte, length, take, drop,
}
use instant_send.Json.Result.{Result, ok, syntax_err, out_of_fuel, last_index, ◌>>=◌}
use instant_send.Json.CodePoint.{unicode_hex_to_int, code_point_to_utf8}

-- What the `switch` appends for the byte behind a backslash, other than `u`.
unescape : ℕ → Bytes
unescape c =
    if c == b'"'
    then b'"' ∷ []
    else if c == b'\\'
    then b'\\' ∷ []
    else if c == b'/'
    then b'/' ∷ []
    else if c == b'b'
    then 8 ∷ []
    else if c == b'f'
    then 12 ∷ []
    else if c == b'n'
    then 10 ∷ []
    else if c == b'r'
    then 13 ∷ []
    else if c == b't'
    then 9 ∷ []
    else []

-- What one round of the loop does: it stops, it throws, or it appends bytes and goes on.
pub data Round : Type 0 where
  stop : Bytes → Round
  throw : ℕ → Round
  append : Bytes → Bytes → Round

-- `case 'u'`, on the string behind the `u`.
unicode : Bytes → Round
unicode rest = elim (unicode_hex_to_int (take 4 rest)) [
  | ok cp ↦ append (code_point_to_utf8 cp) (drop 4 rest)
  | syntax_err p ↦ throw p
  | out_of_fuel ↦ throw 0
]

escape_round : Bytes → Round
escape_round [] = append (b'\\' ∷ []) []
escape_round (c ∷ rest) = if c == b'u' then unicode rest else append (unescape c) rest

-- The argument is what stands from `i` on, and `n` is the length of the whole string.
unfoldable pub round : ℕ → Bytes → Round
unfolding unescape unicode escape_round
round n [] = throw (last_index n)
round n (c ∷ cs) =
    if c == b'"' || c == 0
    then stop cs
    else if c == b'\\'
    then escape_round cs
    else append (c ∷ []) cs

unfoldable pub scan : ℕ → ℕ → Bytes → Bytes → Result (Bytes × Bytes)
scan zero n res str = out_of_fuel
scan (suc fuel) n res str = elim (round n str) [
  | stop rest ↦ ok (res, rest)
  | throw p ↦ syntax_err p
  | append bytes rest ↦ scan fuel n (res ++ bytes) rest
]

-- The contents, and what is left of the string.
unfoldable pub parse_str : Bytes → Result (Bytes × Bytes)
parse_str [] = syntax_err 0
parse_str (c ∷ cs) =
    if c == b'"' then scan (suc (length cs)) (length (c ∷ cs)) [] cs else syntax_err 0

unfoldable pub escape : ℕ → Bytes
escape c =
    if c == b'\\'
    then b'\\' ∷ b'\\' ∷ []
    else if c == b'"'
    then b'\\' ∷ b'"' ∷ []
    else if c == b'/'
    then b'\\' ∷ b'/' ∷ []
    else if c == 8
    then b'\\' ∷ b'b' ∷ []
    else if c == 10
    then b'\\' ∷ b'n' ∷ []
    else if c == 12
    then b'\\' ∷ b'f' ∷ []
    else if c == 13
    then b'\\' ∷ b'r' ∷ []
    else if c == 9
    then b'\\' ∷ b't' ∷ []
    else c ∷ []

unfoldable pub escape_onto : Bytes → Bytes → Bytes
unfolding escape
escape_onto res [] = res
escape_onto res (c ∷ cs) = escape_onto (res ++ escape c) cs

unfoldable pub print_str : Bytes → Bytes
print_str s = escape_onto (b'"' ∷ []) s ++ b'"' ∷ []
