-- ===== src/Json/Whole.antt =====
-- src/json.cpp: `cfgReadStr` of a whole text. The fuel that the model hands out is enough for
-- every text that `toString` writes.
use instant_send.Prelude.{
  ◌+◌, ◌-◌, ◌*◌, ◌≤◌, ◌<◌, ◌≡◌, refl, [], ◌∷◌, ◌++◌, append-nil, arith, Bytes, length,
  length-append, codes, first_byte,
}
use instant_send.Json.Result.{ok}
use instant_send.Json.Int.RoundTrip.{first_byte-print_int}
use instant_send.Json.Int.{print_int}
use instant_send.Json.Text.{print_str}
use instant_send.Json.Text.RoundTrip.{first_byte-print_str}
use instant_send.Json.Syntax.{
  Json, Items, Fields, int, float, str, bool, null, arr, obj, no_items, item, no_fields, field,
}
use instant_send.Json.Float.{FloatOps}
use instant_send.Json.Loader.{cfg_read_str}
use instant_send.Json.Printable.{
  IsPrintable, ArePrintable, FieldsPrintable, need, need_items, need_fields,
}
use instant_send.Json.Printer.{print, print_items, print_fields}
use instant_send.Json.Printer.Bracket.{listed, bracket_nil, bracket_cons}
use instant_send.Json.RoundTrip.{load-print}

length_pos : (s : Bytes) → (first_byte s ≡ 0 → ⊥) → 0 < length s
length_pos [] h = absurd (h refl)
length_pos (c ∷ s) h = omega arith

-- Each comma, and each bracket, stands for a call.
module _ {F : Type 0} (fl : FloatOps F) where
  abbrev Fits : Json F → Type 0
  Fits v = IsPrintable v → need v < length (print fl v)

  abbrev ItemsFit : Items F → Type 0
  ItemsFit xs = ArePrintable xs → need_items xs ≤ length (listed (print_items fl xs)) - 2

  abbrev FieldsFit : Fields F → Type 0
  FieldsFit m = FieldsPrintable m → need_fields m ≤ length (listed (print_fields fl m)) - 2

  arr-Fits : (xs : Items F) → ItemsFit xs → Fits (arr xs)
  unfolding print need IsPrintable
  arr-Fits no_items h p = rw bracket_nil (omega arith)
  arr-Fits (item v xs) h p = rw bracket_cons (
      omega (
        arith,
        h p,
        length-append (print fl v) (listed (print_items fl xs) ++ b']' ∷ []),
        length-append (listed (print_items fl xs)) (b']' ∷ []),
        length-append (print fl v) (listed (print_items fl xs)),
      ))

  obj-Fits : (m : Fields F) → FieldsFit m → Fits (obj m)
  unfolding print need IsPrintable
  obj-Fits no_fields h p = rw bracket_nil (omega arith)
  obj-Fits (field k v m) h p =
      let text = print_str k ++ (codes " : " ++ print fl v) in
      rw bracket_cons (
        omega (
          arith,
          h p,
          length-append text (listed (print_fields fl m) ++ b'}' ∷ []),
          length-append (listed (print_fields fl m)) (b'}' ∷ []),
          length-append text (listed (print_fields fl m)),
        ))

  fits : (v : Json F) → Fits v
  unfolding print need IsPrintable
  fits v = elim v as Fits ItemsFit FieldsFit [
    | int n ↦ λ p.
        length_pos (print_int n) λ e. cc (rw (append-nil, e) at (first_byte-print_int n [] p.0 p.1))
    | float x ↦ λ p. absurd p
    | str s ↦ λ p.
        length_pos (print_str s)
          λ e. absurd (omega (arith, rw (append-nil, e) at (first_byte-print_str s [])))
    | bool b ↦ λ p. ground arith
    | null ↦ λ p. omega arith
    | arr (xs → ih) ↦ arr-Fits xs ih
    | obj (m → ih) ↦ obj-Fits m ih
    | no_items ↦ λ p. omega arith
    | item (w → ih) (xs → ihs) ↦
        λ p. omega (arith, ih p.0, ihs p.1, length-append (print fl w) (listed (print_items fl xs)))
    | no_fields ↦ λ p. omega arith
    | field k (w → ih) (m → ihs) ↦ λ p. omega (
      arith,
      ih p.1,
      ihs p.3,
      length-append (print_str k ++ (codes " : " ++ print fl w)) (listed (print_fields fl m)),
      length-append (print_str k) (codes " : " ++ print fl w),
    )
  ]

  -- `cfgReadStr` gives back every value that `toString` wrote.
  pub cfg_read_str-print : (v : Json F) → IsPrintable v → cfg_read_str fl (print fl v) ≡ ok v
  unfolding cfg_read_str
  cfg_read_str-print v p =
      let whole =
        load-print fl v p [] (ground arith) (2 * length (print fl v) + 2)
          (omega (arith, fits v p)) in
      rw (rw append-nil at whole) refl
