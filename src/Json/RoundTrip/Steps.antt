-- ===== src/Json/RoundTrip/Steps.antt =====
-- src/json.cpp: a round of the loops of `fromString` on printed text.
use instant_send.Json.RoundTrip.Leaves.{
  EndsValue, StartsValue, print_str-StartsValue, print-StartsValue,
}
use instant_send.Json.Printable.{IsPrintable}
use instant_send.Json.Text.{print_str}
use instant_send.Prelude.{ℕ, zero, suc, ◌≡◌, refl, ◌∷◌, ◌++◌, append_assoc, arith, Bytes, codes}
use instant_send.Json.Result.{ok, ◌>>=◌}
use instant_send.CString.{NoNul}
use instant_send.Json.Text.RoundTrip.{parse_str-print_str, first_byte-print_str}
use instant_send.Json.Syntax.{Json, Items, Fields, arr, obj, no_items, item, no_fields, field}
use instant_send.Json.Float.{FloatOps}
use instant_send.Json.Fields.{map_insert}
use instant_send.Json.Loader.{skip_blanks, skip_separators, load, load_items, load_fields}
use instant_send.Json.Printer.{print, print_items, print_fields}
use instant_send.Json.Printer.Bracket.{listed}

module _ {F : Type 0} (fl : FloatOps F) where
  pub load_items_step :
      (v : Json F) (xs : Items F) (fuel c : ℕ) (cs rest : Bytes)
      → StartsValue (print fl v ++ c ∷ cs)
      → load fl fuel (print fl v ++ c ∷ cs) ≡ ok (v, c ∷ cs)
      → load_items fl fuel (c ∷ cs) ≡ ok (xs, rest)
      → load_items fl (suc fuel) (print fl v ++ c ∷ cs) ≡ ok (item v xs, rest)
  unfolding load
  load_items_step v xs fuel c cs rest (skip, _, open_mark) one others =
      rw (load_items, skip, open_mark, one, others) refl

  pub load_fields_step :
      (k : Bytes) (v : Json F) (fuel c : ℕ) (acc m : Fields F) (cs rest : Bytes)
      → NoNul k
      → StartsValue (print fl v ++ c ∷ cs)
      → load fl fuel (print fl v ++ c ∷ cs) ≡ ok (v, c ∷ cs)
      → load_fields fl fuel (map_insert k v acc) (c ∷ cs) ≡ ok (m, rest)
      → load_fields fl (suc fuel) acc ((print_str k ++ (codes " : " ++ print fl v)) ++ c ∷ cs)
        ≡ ok (m, rest)
  unfolding load
  load_fields_step k v fuel c acc m cs rest h (_, skip, _) one others =
      let value = print fl v ++ c ∷ cs in
      let colon : Bytes = codes " : " ++ value in
      rw
        (
          append_assoc (print_str k) (codes " : " ++ print fl v) (c ∷ cs),
          load_fields,
          (print_str-StartsValue k colon).0,
          first_byte-print_str k colon,
          parse_str-print_str k colon h,
        )
        (unfold skip_blanks in rw (skip, one) others)

  pub load_item :
      (v : Json F) (xs : Items F) (fuel : ℕ) (rest : Bytes)
      → IsPrintable v
      → let s = listed (print_items fl xs) ++ b']' ∷ rest in
        load fl fuel (print fl v ++ s) ≡ ok (v, s)
        → load_items fl fuel s ≡ ok (xs, rest)
        → load_items fl (suc fuel) (print fl v ++ s) ≡ ok (item v xs, rest)
  unfolding print
  load_item v no_items fuel rest h =
      load_items_step v no_items fuel b']' rest rest (print-StartsValue fl v h _)
  load_item v (item w xs) fuel rest h =
      load_items_step v (item w xs) fuel b',' _ rest (print-StartsValue fl v h _)

  pub load_field :
      (k : Bytes) (v : Json F) (fuel : ℕ) (acc m n : Fields F) (rest : Bytes)
      → NoNul k
      → IsPrintable v
      → let s = listed (print_fields fl m) ++ b'}' ∷ rest in
        load fl fuel (print fl v ++ s) ≡ ok (v, s)
        → load_fields fl fuel (map_insert k v acc) s ≡ ok (n, rest)
        → load_fields fl (suc fuel) acc ((print_str k ++ (codes " : " ++ print fl v)) ++ s)
          ≡ ok (n, rest)
  unfolding print
  load_field k v fuel acc no_fields n rest h p =
      load_fields_step k v fuel b'}' acc n rest rest h (print-StartsValue fl v p _)
  load_field k v fuel acc (field j w m) n rest h p =
      load_fields_step k v fuel b',' acc n _ rest h (print-StartsValue fl v p _)

  -- A comma in front is skipped.
  pub load_items_comma :
      (fuel : ℕ) (s : Bytes) → load_items fl fuel (codes ", " ++ s) ≡ load_items fl fuel s
  unfolding load skip_separators
  load_items_comma zero s = refl
  load_items_comma (suc fuel) s = refl

  pub load_fields_comma :
      (fuel : ℕ) (acc : Fields F) (s : Bytes)
      → load_fields fl fuel acc (codes ", " ++ s) ≡ load_fields fl fuel acc s
  unfolding load skip_separators
  load_fields_comma zero acc s = refl
  load_fields_comma (suc fuel) acc s = refl

  pub load_arr :
      (fuel : ℕ) (s : Bytes)
      → load fl (suc fuel) (b'[' ∷ s) ≡ (load_items fl fuel s >>= λ (xs, rest). ok (arr xs, rest))
  unfolding load
  load_arr fuel s = refl

  pub load_obj :
      (fuel : ℕ) (s : Bytes)
      → load fl (suc fuel) (b'{' ∷ s)
        ≡ (load_fields fl fuel no_fields s >>= λ (m, rest). ok (obj m, rest))
  unfolding load
  load_obj fuel s = refl

  pub read_no_items :
      (rest : Bytes) (f : ℕ) → load_items fl (suc f) (b']' ∷ rest) ≡ ok (no_items, rest)
  unfolding load skip_separators
  read_no_items rest f = refl

  pub read_no_fields :
      (acc : Fields F) (rest : Bytes) (f : ℕ)
      → load_fields fl (suc f) acc (b'}' ∷ rest) ≡ ok (acc, rest)
  unfolding load skip_separators
  read_no_fields acc rest f = refl

  pub items-EndsValue :
      (xs : Items F) (rest : Bytes) → EndsValue (listed (print_items fl xs) ++ b']' ∷ rest)
  unfolding print
  items-EndsValue no_items rest = ground arith
  items-EndsValue (item v xs) rest = ground arith

  pub fields-EndsValue :
      (m : Fields F) (rest : Bytes) → EndsValue (listed (print_fields fl m) ++ b'}' ∷ rest)
  unfolding print
  fields-EndsValue no_fields rest = ground arith
  fields-EndsValue (field k v m) rest = ground arith
