-- ===== src/Json/Float.antt =====
-- src/json.cpp: `jsonFloat_t::fromString` and `jsonFloat_t::toString`, over the arithmetic of
-- `double`, which is a parameter.
use instant_send.Prelude.{
  ℕ, ◌-◌, ◌*◌, ◌%◌, ◌^◌, not, ◌||◌, [], ◌∷◌, ◌==◌, if◌then◌else◌, Bytes, first_byte, tail, take,
}
use instant_send.Word.{Int64, add64, mul64, is_negative}
use instant_send.Json.Int.{is_digit, parse_int}

-- What the code uses of `double` and of the C library. `of_int32` takes the bit pattern of an
-- `int`, and `format_f` gives the text of `%f`.
pub record FloatOps (F : Type 0) : Type 0 where
  pub of_int : Int64 → F
  pub of_int32 : ℕ → F
  pub add : F → F → F
  pub sub : F → F → F
  pub mul : F → F → F
  pub div : F → F → F
  pub pow10 : Int64 → F
  pub format_f : F → Bytes

-- The loop behind the point: `decval`, `div`, which is an `int`, and what follows the digits.
unfoldable pub parse_fraction : Int64 → ℕ → Bytes → Int64 × ℕ × Bytes
parse_fraction decval div [] = (decval, div, [])
parse_fraction decval div (c ∷ cs) =
    if is_digit c
    then parse_fraction (add64 (mul64 decval 10) (c - b'0')) (div * 10 % 2 ^ 32) cs
    else (decval, div, c ∷ cs)

module _ {F : Type 0} (fl : FloatOps F) where
  -- Behind the digits: an exponent, if there is one.
  unfoldable pub parse_exponent : F → Bytes → F × Bytes
  parse_exponent res str =
      if first_byte str == b'e' || first_byte str == b'E'
      then (let (expval, rest) = parse_int (tail str) in (fl.mul res (fl.pow10 expval), rest))
      else (res, str)

  unfoldable pub parse_float : Bytes → F × Bytes
  parse_float str =
      let (intval, rest) = if first_byte str == b'.' then (0, str) else parse_int str in
      if not (first_byte rest == b'.')
      then (fl.of_int intval, rest)
      else let (decval, div, after) = parse_fraction 0 1 (tail rest) in
        let quotient = fl.div (fl.of_int decval) (fl.of_int32 div) in
        let res =
          if is_negative intval
          then fl.sub (fl.of_int intval) quotient
          else fl.add (fl.of_int intval) quotient in
        parse_exponent res after

  -- `snprintf` into 50 bytes, the last of them NUL.
  unfoldable pub print_float : F → Bytes
  print_float x = take 49 (fl.format_f x)
