-- ===== src/Tests/JsonRuns.antt =====
-- src/json.cpp: texts read and written by the model.
use instant_send.Prelude.{◌≡◌, refl, true, [], ◌∷◌, ◌^◌, ◌-◌, codes}
use instant_send.Word.{Int64}
use instant_send.Json.Result.{ok, syntax_err}
use instant_send.Json.Float.{FloatOps, parse_float, parse_fraction, parse_exponent}
use instant_send.Json.Int.{parse_int, parse_digits, print_int, print_digits}
use instant_send.Json.Text.{parse_str, print_str, scan, round, escape_onto}
use instant_send.Json.CodePoint.{unicode_hex_to_int, code_point_to_utf8}
use instant_send.Json.Printer.{print, bracket, append_texts, erase_last_two}
use instant_send.Json.Syntax.{
  Json, Items, int, float, str, bool, null, arr, obj, no_items, item, no_fields, field,
}
use instant_send.Json.Loader.{load, skip_separators, parse_number}

-- A `double` as the operations that made it.
pub data Term : Type 0 where
  num num32 power : Int64 → Term
  plus minus times over : Term → Term → Term

abbrev pub term_ops : FloatOps Term
term_ops = record {
  of_int = num;
  of_int32 = num32;
  add = plus;
  sub = minus;
  mul = times;
  div = over;
  pow10 = power;
  format_f = λ x. codes "?";
}

-- {"action" : "accept", "list" : [1, -5, null, true]}
abbrev pub sample : Json Term
sample =
    obj
      (field (codes "action") (str (codes "accept")) (field (codes "list") (arr numbers) no_fields))
  where
    numbers : Items Term
    numbers = item (int 1) (item (int (2 ^ 64 - 5)) (item null (item (bool true) no_items)))

load_spaced : load term_ops 20 (codes "[ 12,x") ≡ syntax_err 0
unfolding load skip_separators parse_number parse_int parse_digits
load_spaced = refl

load_number :
    load term_ops 9 (codes "-2.5")
    ≡ ok (float (plus (plus (num 0) (over (num 5) (num32 10))) (num (2 ^ 64 - 2))), [])
unfolding load parse_number parse_int parse_digits parse_float parse_fraction parse_exponent
load_number = refl

print-sample :
    print term_ops sample ≡ codes "{\"action\" : \"accept\", \"list\" : [1, -5, null, true]}"
unfolding print bracket append_texts erase_last_two print_str escape_onto print_int print_digits
print-sample = refl

parse_escapes :
    parse_str (codes "\"a\\/\\u20ac\\q\\\\\"")
    ≡ ok (b'a' ∷ b'/' ∷ 0xe2 ∷ 0x82 ∷ 0xac ∷ b'\\' ∷ [], [])
unfolding parse_str scan round unicode_hex_to_int code_point_to_utf8
parse_escapes = refl
