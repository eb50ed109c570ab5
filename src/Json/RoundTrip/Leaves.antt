-- ===== src/Json/RoundTrip/Leaves.antt =====
-- src/json.cpp: `loadComponent` after `toString`, for a value with no parts, and how a text begins.
use instant_send.Json.Printable.{IsPrintable}
use instant_send.Prelude.{◌||◌}
use instant_send.Json.Text.{print_str}
use instant_send.Prelude.{
  ℕ, suc, ◌^◌, ◌≡◌, ◌≢◌, refl, Bool, true, false, [], ◌∷◌, ◌++◌, arith, ◌==◌, Bytes, first_byte,
  codes,
}
use instant_send.Word.{IsInt64}
use instant_send.Json.Result.{ok}
use instant_send.Json.Int.{starts_int}
use instant_send.Json.Int.RoundTrip.{EndsDigits, parse_int-print_int, first_byte-print_int}
use instant_send.CString.{NoNul}
use instant_send.Json.Text.RoundTrip.{parse_str-print_str, first_byte-print_str}
use instant_send.Json.Syntax.{
  Json, int, float, str, bool, null, arr, obj, no_items, item, no_fields, field,
}
use instant_send.Json.Float.{FloatOps}
use instant_send.Json.Loader.{
  is_blank, skip_blanks, skip_separators, parse_bool, parse_null, parse_number, load,
}
use instant_send.Json.Printer.{print}
use instant_send.Json.Printer.Bracket.{bracket_nil, bracket_cons}

-- What may stand behind a value so that it is read as it was written.
abbrev pub EndsValue : Bytes → Type 0
EndsValue rest = EndsDigits rest × (first_byte rest ≢ b'.')

-- How a printed value begins: with no blank, and with no bracket that closes.
abbrev pub StartsValue : Bytes → Type 0
StartsValue s = (skip_separators s ≡ s) × (skip_blanks s ≡ s) × ((first_byte s == b']') ≡ false)

pub starts_with :
    (s : Bytes)
    → (is_blank (first_byte s) || first_byte s == b',' || first_byte s == b']') ≡ false
    → StartsValue s
unfolding skip_separators skip_blanks
starts_with [] h = (refl, refl, refl)
starts_with (c ∷ s) h = ground arith

starts_with_int : (s : Bytes) → starts_int (first_byte s) ≡ true → StartsValue s
starts_with_int s h = starts_with s (ground arith)

pub print_str-StartsValue : (s rest : Bytes) → StartsValue (print_str s ++ rest)
print_str-StartsValue s rest = starts_with (print_str s ++ rest) (rw first_byte-print_str refl)

module _ {F : Type 0} (fl : FloatOps F) where
  pub load_int :
      (n : ℕ)
      → IsInt64 n
      → n ≢ 2 ^ 63
      → (rest : Bytes) → EndsValue rest
      → (fuel : ℕ) → load fl (suc fuel) (print fl (int n) ++ rest) ≡ ok (int n, rest)
  unfolding load print parse_number
  load_int n h ne rest (ends, point) fuel =
      ground (arith, first_byte-print_int n rest h ne, parse_int-print_int n rest h ne ends)

  pub load_str :
      (s : Bytes)
      → NoNul s
      → (rest : Bytes) → (fuel : ℕ)
      → load fl (suc fuel) (print fl (str s) ++ rest) ≡ ok (str s, rest)
  unfolding load print
  load_str s h rest fuel = ground (arith, first_byte-print_str s rest, parse_str-print_str s rest h)

  pub load_bool :
      (b : Bool) (rest : Bytes)
      → (fuel : ℕ) → load fl (suc fuel) (print fl (bool b) ++ rest) ≡ ok (bool b, rest)
  unfolding load print parse_bool
  load_bool true rest fuel = refl
  load_bool false rest fuel = refl

  pub load_null :
      (rest : Bytes) → (fuel : ℕ) → load fl (suc fuel) (print fl null ++ rest) ≡ ok (null, rest)
  unfolding load print parse_null
  load_null rest fuel = refl

  pub print-StartsValue :
      (v : Json F) → IsPrintable v → (rest : Bytes) → StartsValue (print fl v ++ rest)
  unfolding print IsPrintable
  print-StartsValue (int n) (h, ne) rest = starts_with_int _ (first_byte-print_int n rest h ne)
  print-StartsValue (float x) h rest = absurd h
  print-StartsValue (str s) h rest = print_str-StartsValue s rest
  print-StartsValue (bool true) h rest = starts_with (codes "true" ++ rest) refl
  print-StartsValue (bool false) h rest = starts_with (codes "false" ++ rest) refl
  print-StartsValue null h rest = starts_with (codes "null" ++ rest) refl
  print-StartsValue (arr no_items) h rest = rw bracket_nil (starts_with (codes "[]" ++ rest) refl)
  print-StartsValue (arr (item v xs)) h rest = rw bracket_cons (starts_with (b'[' ∷ _) refl)
  print-StartsValue (obj no_fields) h rest = rw bracket_nil (starts_with (codes "{}" ++ rest) refl)
  print-StartsValue (obj (field k v m)) h rest = rw bracket_cons (starts_with (b'{' ∷ _) refl)
