-- ===== src/Json/Number.antt =====
-- src/json.cpp: a number with a fraction, read by `loadComponent` and by `jsonFloat_t::fromString`.
use instant_send.Prelude.{ℕ, ◌≡◌, false, ◌==◌, if◌then◌else◌, Bytes, first_byte, tail, ◌||◌, arith}
use instant_send.Word.{Int64, is_negative}
use instant_send.Json.Int.{parse_int}
use instant_send.Json.Float.{FloatOps, parse_fraction, parse_exponent, parse_float}
use instant_send.Json.Loader.{parse_number}
use instant_send.Json.Syntax.{float}

module _ {F : Type 0} (fl : FloatOps F) (s rest after : Bytes) (n decval : Int64) (div : ℕ) where
  abbrev quotient : F
  quotient = fl.div (fl.of_int decval) (fl.of_int32 div)

  -- The integer part of a number with a fraction and no exponent: `jsonFloat_t::fromString`
  -- subtracts the fraction from a negative one, and `loadComponent` adds it to every one.
  parse_number-parse_float :
      parse_int s ≡ (n, rest)
      → first_byte rest ≡ b'.'
      → (first_byte s == b'.') ≡ false
      → parse_fraction 0 1 (tail rest) ≡ (decval, div, after)
      → (first_byte after == b'e' || first_byte after == b'E') ≡ false
      → (parse_number fl s ≡ (float (fl.add (fl.add (fl.of_int 0) quotient) (fl.of_int n)), after))
        × (parse_float fl s ≡ (
          (if is_negative n then fl.sub (fl.of_int n) quotient else fl.add (fl.of_int n) quotient),
          after,
        ))
  unfolding parse_number parse_float parse_exponent
  parse_number-parse_float int point starts fraction plain = (ground arith, ground arith)
