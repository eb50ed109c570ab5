-- ===== src/Json/Int.antt =====
-- src/json.cpp: `parseInt`, and `jsonInt_t::toString`.
pub mod RoundTrip
use instant_send.Prelude.{
  ℕ, zero, suc, ◌+◌, ◌-◌, ◌*◌, ◌%◌, Bool, true, false, ◌&&◌, ◌||◌, List, [], ◌∷◌, leb, ◌==◌,
  if◌then◌else◌, Bytes, first_byte, tail,
}
use instant_send.Word.{Int64, add64, mul64, neg64, div64, mod64, is_negative}

abbrev pub is_digit : ℕ → Bool
is_digit c = leb b'0' c && leb c b'9'

-- `case '-': case '0'...'9'` of `loadComponent`.
abbrev pub starts_int : ℕ → Bool
starts_int c = c == b'-' || is_digit c

-- The loop of `parseInt`: the value so far and the bytes from position `i` on.
unfoldable pub parse_digits : Int64 → Bytes → Int64 × Bytes
parse_digits v [] = (v, [])
parse_digits v (c ∷ cs) =
    if is_digit c then parse_digits (add64 (mul64 v 10) (c - b'0')) cs else (v, c ∷ cs)

-- The result, and what is left of the string.
unfoldable pub parse_int : Bytes → Int64 × Bytes
parse_int str =
    let c = first_byte str in
    let (v, rest) = parse_digits 0 (if c == b'-' || c == b'+' then tail str else str) in
    (if c == b'-' then neg64 v else v, rest)

-- The loop that fills the buffer from its end: `done` stands to the right of `bptr`. Each round
-- takes a place of the buffer.
unfoldable pub print_digits : ℕ → Int64 → Bytes → Bytes
print_digits zero tmp done = done
print_digits (suc room) tmp done =
    let more = print_digits room (div64 tmp 10) ((b'0' + mod64 tmp 10) % 256 ∷ done) in
    if tmp == 0 then done else more

-- `3*sizeof(intL_t) + 1`, the places before the terminating NUL.
abbrev pub buffer_size : ℕ
buffer_size = 25

unfoldable pub print_int : Int64 → Bytes
print_int v =
    if v == 0
    then b'0' ∷ []
    else let negative = is_negative v in
      let written = print_digits buffer_size (if negative then mul64 v (neg64 1) else v) [] in
      if negative then b'-' ∷ written else written
