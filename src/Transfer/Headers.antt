-- ===== src/Transfer/Headers.antt =====
-- src/datareceiver.cpp, src/client.cpp: the headers that the client writes, read by the receiver.
use instant_send.Prelude.{
  ◌^◌, ◌<◌, ◌≤◌, ◌≡◌, ◌∙◌, refl, [], ◌∷◌, ◌++◌, arith, Bytes, first_byte, length, codes,
  length-append, drop-append_length,
}
use instant_send.Word.{Int64}
use instant_send.Json.Result.{ok}
use instant_send.Json.Int.{print_int}
use instant_send.Json.Int.RoundTrip.{length-print_int}
use instant_send.Json.Text.{parse_str, scan, round, print_str, escape_onto}
use instant_send.CString.{NoNul, c_string, c_string-NoNul, c_string-whole}
use instant_send.Json.Printer.Plain.{print-NoNul}
use instant_send.Json.Fields.{compare_bytes, map_insert, map_assign, map_find}
use instant_send.Json.Syntax.{Json, int, str, obj, no_fields, field}
use instant_send.Json.Float.{FloatOps}
use instant_send.Json.Printer.{print}
use instant_send.Json.Printer.Bracket.{bracket_cons}
use instant_send.Json.Printable.{IsPrintable}
use instant_send.Json.Loader.{cfg_read_str, load, skip_separators, skip_blanks, bytes_eq}
use instant_send.Json.Whole.{cfg_read_str-print}
use instant_send.Json.Cast.{read_object}
use instant_send.Json.Object.{gie, insert_val}
use instant_send.Transfer.{
  hear_header, hear, fragment, fragment_header, finished, end_of_file, overrun,
}

module _ {F : Type 0} (fl : FloatOps F) where
  header_text :
      (n : Int64) → fragment_header fl n ≡ codes "{\"position\" : " ++ (print_int n ++ codes "}")
  unfolding fragment_header insert_val map_assign print print_str escape_onto
  header_text n = bracket_cons b'{' b'}' _ [] ∙ refl

  position_header : Int64 → Json F
  position_header n = obj (field (codes "position") (int n) no_fields)

  header-IsPrintable : (n : Int64) → n < 2 ^ 63 → IsPrintable (position_header n)
  unfolding IsPrintable position_header
  header-IsPrintable n small = ground arith

  fragment_header-NoNul : (n : Int64) → n < 2 ^ 63 → NoNul (fragment_header fl n)
  unfolding fragment_header insert_val map_assign position_header
  fragment_header-NoNul n small = print-NoNul fl (position_header n) (header-IsPrintable n small)

  -- The header leaves room for data.
  pub length-fragment_header : (n : Int64) → n < 2 ^ 63 → length (fragment_header fl n) ≤ 35
  length-fragment_header n small = rw (header_text n) (
      omega (
        arith,
        length-print_int n (omega arith) (omega arith),
        length-append (print_int n) (codes "}"),
      ))

  load_header :
      (n : Int64)
      → n < 2 ^ 63
      → cfg_read_str fl (fragment_header fl n)
        ≡ ok (obj (field (codes "position") (int n) no_fields))
  unfolding fragment_header insert_val map_assign position_header
  load_header n small = cfg_read_str-print fl (position_header n) (header-IsPrintable n small)

  read_header :
      (n : Int64)
      → n < 2 ^ 63
      → read_object fl (fragment_header fl n) ≡ ok (field (codes "position") (int n) no_fields)
  unfolding read_object
  read_header n small =
      let first : first_byte (fragment_header fl n) ≡ b'{' = rw (header_text n) refl in
      rw (read_object, first, load_header n small) refl

  hear_header-fragment :
      (n : Int64) (s chunk : Bytes)
      → NoNul s
      → hear_header {F = F} (s ++ 0 ∷ chunk) (field (codes "position") (int n) no_fields)
        ≡ fragment n chunk
  unfolding hear_header gie map_find compare_bytes
  hear_header-fragment n s chunk h =
      rw (c_string-NoNul s chunk h)
        (ground (arith, length-append s (0 ∷ chunk), drop-append_length s (0 ∷ chunk) 1))

  -- A fragment's message is heard as that fragment.
  pub hear-fragment :
      (n : Int64) (chunk : Bytes)
      → n < 2 ^ 63
      → hear fl (fragment_header fl n ++ 0 ∷ chunk) ≡ fragment n chunk
  unfolding hear
  hear-fragment n chunk small =
      let plain = fragment_header-NoNul n small in
      rw (hear, c_string-NoNul (fragment_header fl n) chunk plain, read_header n small)
        (hear_header-fragment n (fragment_header fl n) chunk plain)

  hear_header_bare :
      (n : Int64) (s : Bytes)
      → c_string s ≡ s
      → hear_header {F = F} s (field (codes "position") (int n) no_fields) ≡ overrun
  unfolding hear_header gie map_find compare_bytes
  hear_header_bare n s h = rw h (ground arith)

  -- The header alone.
  pub hear-header : (n : Int64) → n < 2 ^ 63 → hear fl (fragment_header fl n) ≡ overrun
  unfolding hear
  hear-header n small =
      let whole = c_string-whole (fragment_header fl n) (fragment_header-NoNul n small) in
      rw (hear, whole, read_header n small) (hear_header_bare n (fragment_header fl n) whole)

  read_finished :
      read_object fl (codes "{\"action\":\"finished\"}")
      ≡ ok (field (codes "action") (str (codes "finished")) no_fields)
  unfolding read_object cfg_read_str load skip_separators skip_blanks parse_str scan round
      map_insert bytes_eq
  read_finished = refl

  -- So is the last message, whatever stands behind its NUL.
  pub hear-finished : (stale : Bytes) → hear fl (finished stale) ≡ end_of_file
  unfolding hear hear_header gie map_find compare_bytes bytes_eq
  hear-finished stale =
      rw
        (
          hear,
          c_string-NoNul (codes "{\"action\":\"finished\"}") stale (ground arith),
          read_finished,
        )
        refl
