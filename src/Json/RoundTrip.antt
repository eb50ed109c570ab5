-- ===== src/Json/RoundTrip.antt =====
-- src/json.cpp: `loadComponent` after `toString`.
mod Leaves
mod Steps
use Steps.{
  load_item, load_field, load_items_comma, load_fields_comma, load_arr, load_obj, read_no_items,
  read_no_fields, items-EndsValue, fields-EndsValue,
}
pub use Leaves.{EndsValue}
use Leaves.{
  StartsValue, print_str-StartsValue, print-StartsValue, load_int, load_str, load_bool, load_null,
}
use instant_send.Json.Printable.{
  IsPrintable, ArePrintable, FieldsPrintable, need, need_items, need_fields,
}
use instant_send.Json.Fields.Append.{
  behind, AllFollow, behind_nil, behind_assoc, map_insert-Follows, AllFollow-behind, AllFollow-nil,
}
use instant_send.Json.Text.{print_str}
use Prim.Native.Nat.{Ordering, gt}
use instant_send.Prelude.{
  ℕ, zero, suc, ◌+◌, ◌*◌, ◌^◌, ◌≤◌, ◌<◌, ◌≤◌, ◌≡◌, ◌≢◌, refl, sym, ◌∙◌, ap, Bool, true, false, List,
  [], ◌∷◌, ◌++◌, append-nil, append_assoc, arith, ◌==◌, if◌then◌else◌, Bytes, first_byte, length,
  codes,
}
use instant_send.Word.{IsInt64}
use instant_send.Json.Result.{ok, ◌>>=◌}
use instant_send.Json.Int.{is_digit, starts_int}
use instant_send.Json.Int.RoundTrip.{EndsDigits, parse_int-print_int, first_byte-print_int}
use instant_send.CString.{NoNul}
use instant_send.Json.Text.RoundTrip.{parse_str-print_str, first_byte-print_str}
use instant_send.Json.Syntax.{
  Json, Items, Fields, int, float, str, bool, null, arr, obj, no_items, item, no_fields, field,
}
use instant_send.Json.Float.{FloatOps}
use instant_send.Json.Fields.{compare_bytes, map_insert}
use instant_send.Json.Loader.{
  is_blank, skip_blanks, skip_separators, parse_bool, parse_null, parse_number, load, load_items,
  load_fields, cfg_read_str,
}
use instant_send.Json.Printer.{print, print_items, print_fields, bracket}
use instant_send.Json.Printer.Bracket.{listed, bracket_nil, bracket_cons-append}

-- A call with more fuel than it needs makes its own calls with one unit less.
calls {ℓ} :
    {least : ℕ} (Returns : ℕ → Type ℓ)
    → ((left : ℕ) → least ≤ left → Returns (suc left))
    → (fuel : ℕ) → least < fuel
    → Returns fuel
calls Returns body (suc left) enough = body left (omega arith)
calls Returns body zero none_left = absurd (omega arith)

module _ {F : Type 0} (fl : FloatOps F) where
  ReadsValue : Json F → Type 0
  ReadsValue v =
      IsPrintable v
      → (rest : Bytes) → EndsValue rest
      → (fuel : ℕ) → need v < fuel
      → load fl fuel (print fl v ++ rest) ≡ ok (v, rest)

  ReadsItems : Items F → Type 0
  ReadsItems xs =
      ArePrintable xs
      → (rest : Bytes) (fuel : ℕ) → need_items xs < fuel
      → load_items fl fuel (listed (print_items fl xs) ++ b']' ∷ rest) ≡ ok (xs, rest)

  ReadsFields : Fields F → Type 0
  ReadsFields m =
      FieldsPrintable m
      → (acc : Fields F) → AllFollow acc m
      → (rest : Bytes) (fuel : ℕ) → need_fields m < fuel
      → load_fields fl fuel acc (listed (print_fields fl m) ++ b'}' ∷ rest)
        ≡ ok (behind acc m, rest)

  read_arr :
      (xs : Items F) (rest : Bytes) (fuel : ℕ)
      → load_items fl fuel (listed (print_items fl xs) ++ b']' ∷ rest) ≡ ok (xs, rest)
      → load fl (suc fuel) (print fl (arr xs) ++ rest) ≡ ok (arr xs, rest)
  unfolding print
  read_arr no_items rest fuel h = rw (bracket_nil, load_arr, h) refl
  read_arr (item v xs) rest fuel h = rw (bracket_cons-append, load_arr, ← load_items_comma, h) refl

  read_obj :
      (m : Fields F) (rest : Bytes) (fuel : ℕ)
      → load_fields fl fuel no_fields (listed (print_fields fl m) ++ b'}' ∷ rest) ≡ ok (m, rest)
      → load fl (suc fuel) (print fl (obj m) ++ rest) ≡ ok (obj m, rest)
  unfolding print
  read_obj no_fields rest fuel h = rw (bracket_nil, load_obj, h) refl
  read_obj (field k v m) rest fuel h =
      rw (bracket_cons-append, load_obj, ← load_fields_comma, h) refl

  read_item :
      (v : Json F) (xs : Items F) (rest : Bytes) (f : ℕ)
      → IsPrintable v
      → ReadsValue v
      → need v < f
      → load_items fl f (listed (print_items fl xs) ++ b']' ∷ rest) ≡ ok (xs, rest)
      → load_items fl (suc f) (listed (print_items fl (item v xs)) ++ b']' ∷ rest)
        ≡ ok (item v xs, rest)
  unfolding ReadsValue print
  read_item v xs rest f p reads_v enough others =
      rw (load_items_comma, append_assoc (print fl v) (listed (print_items fl xs)) (b']' ∷ rest))
        (load_item fl v xs f rest p (reads_v p _ (items-EndsValue fl xs rest) f enough) others)

  read_field :
      (k : Bytes) (v : Json F) (m acc n : Fields F) (rest : Bytes) (f : ℕ)
      → NoNul k
      → IsPrintable v
      → ReadsValue v
      → need v < f
      → load_fields fl f (map_insert k v acc) (listed (print_fields fl m) ++ b'}' ∷ rest)
        ≡ ok (n, rest)
      → load_fields fl (suc f) acc (listed (print_fields fl (field k v m)) ++ b'}' ∷ rest)
        ≡ ok (n, rest)
  unfolding ReadsValue print
  read_field k v m acc n rest f h p reads_v enough others =
      let text = print_str k ++ (codes " : " ++ print fl v) in
      rw (load_fields_comma, append_assoc text (listed (print_fields fl m)) (b'}' ∷ rest))
        (load_field fl k v f acc m n rest h p (reads_v p _ (fields-EndsValue fl m rest) f enough)
          others)

  reads : (v : Json F) → ReadsValue v
  unfolding ReadsValue ReadsItems ReadsFields IsPrintable need print
  reads v = elim v as ReadsValue ReadsItems ReadsFields [
    | int n ↦ λ p rest ends. calls _ λ f h. load_int fl n p.0 p.1 rest ends f
    | float x ↦ λ p. absurd p
    | str s ↦ λ p rest ends. calls _ λ f h. load_str fl s p rest f
    | bool b ↦ λ p rest ends. calls _ λ f h. load_bool fl b rest f
    | null ↦ λ p rest ends. calls _ λ f h. load_null fl rest f
    | arr (xs → ih) ↦ λ p rest ends. calls _ λ f h. read_arr xs rest f (ih p rest f (omega arith))
    | obj (m → ih) ↦ λ p rest ends.
        calls _ λ f h. read_obj m rest f (ih p no_fields (AllFollow-nil m) rest f (omega arith))
    | no_items ↦ λ p rest. calls _ λ f h. read_no_items fl rest f
    | item (w → ih) (xs → ihs) ↦ λ p rest.
        calls _ λ f h. read_item w xs rest f p.0 ih (omega arith) (ihs p.1 rest f (omega arith))
    | no_fields ↦ λ p acc after rest. calls _ λ f h. rw behind_nil (read_no_fields fl acc rest f)
    | field k (w → ih) (m → ihs) ↦ λ p acc after rest. calls _ λ f h.
        let inserted : map_insert k w acc ≡ behind acc (field k w no_fields) =
          map_insert-Follows k w acc after.0 in
        read_field k w m acc _ rest f p.0 p.1 ih (omega arith) (
          rw (inserted) (
            ihs p.3 _ (AllFollow-behind k w acc m after.1 p.2) rest f (omega arith)
            ∙ ap (λ n. ok (n, rest)) (behind_assoc acc (field k w no_fields) m)))
  ]

  -- `loadComponent` reads back what `toString` wrote of a value, whatever follows that does not
  -- continue a number, and leaves that.
  pub load-print :
      (v : Json F)
      → IsPrintable v
      → (rest : Bytes) → EndsValue rest
      → (fuel : ℕ) → need v < fuel
      → load fl fuel (print fl v ++ rest) ≡ ok (v, rest)
  unfolding ReadsValue
  load-print = reads
