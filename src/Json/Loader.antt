-- ===== src/Json/Loader.antt =====
-- src/json.cpp: `loadComponent`, and `fromString` of the classes but strings and numbers. A
-- parser returns its value with what is left of the string; each call costs a unit of fuel.
use instant_send.Prelude.{
  ℕ, zero, suc, ◌+◌, ◌-◌, ◌*◌, Bool, true, false, not, ◌||◌, [], ◌∷◌, ◌==◌, if◌then◌else◌, Bytes,
  first_byte, tail, length, take, drop, codes,
}
use instant_send.Json.Result.{Result, ok, syntax_err, out_of_fuel, last_index, ◌>>=◌}
use instant_send.Json.Int.{starts_int, parse_int}
use instant_send.Json.Text.{parse_str}
use instant_send.Json.Syntax.{
  Json, Items, Fields, int, float, str, bool, null, arr, obj, no_items, item, no_fields,
}
use instant_send.Json.Float.{FloatOps, parse_float}
use instant_send.Json.Fields.{map_insert}

abbrev pub is_blank : ℕ → Bool
is_blank c = c == b' ' || c == b'\n' || c == b'\t'

unfoldable pub skip_blanks : Bytes → Bytes
skip_blanks [] = []
skip_blanks (c ∷ cs) = if is_blank c then skip_blanks cs else c ∷ cs

-- Commas are blanks between items.
unfoldable pub skip_separators : Bytes → Bytes
skip_separators [] = []
skip_separators (c ∷ cs) = if is_blank c || c == b',' then skip_separators cs else c ∷ cs

-- `str->substr(0, n) == text`
unfoldable pub bytes_eq : Bytes → Bytes → Bool
bytes_eq [] [] = true
bytes_eq [] (y ∷ ys) = false
bytes_eq (x ∷ xs) [] = false
bytes_eq (x ∷ xs) (y ∷ ys) = if x == y then bytes_eq xs ys else false

unfoldable pub parse_bool : Bytes → Result (Bool × Bytes)
unfolding bytes_eq
parse_bool s =
    if bytes_eq (take 4 s) (codes "true")
    then ok (true, drop 4 s)
    else if bytes_eq (take 5 s) (codes "false")
    then ok (false, drop 5 s)
    else syntax_err 0

-- Another text is neither taken off the string nor refused.
unfoldable pub parse_null : Bytes → Bytes
unfolding bytes_eq
parse_null s = if bytes_eq (take 4 s) (codes "null") then drop 4 s else s

module _ {F : Type 0} (fl : FloatOps F) where
  -- `intVal < 0` compares a pointer with NULL, and is false.
  unfoldable pub parse_number : Bytes → Json F × Bytes
  parse_number s =
      let (n, rest) = parse_int s in
      if not (first_byte rest == b'.')
      then (int n, rest)
      else (let (x, after) = parse_float fl rest in (float (fl.add x (fl.of_int n)), after))

  unfoldable mutual
    pub load : ℕ → Bytes → Result (Json F × Bytes)
    load zero s = out_of_fuel
    load (suc fuel) s =
        let c = first_byte s in
        let object = load_fields fuel no_fields (tail s) >>= λ (m, rest). ok (obj m, rest) in
        let array = load_items fuel (tail s) >>= λ (xs, rest). ok (arr xs, rest) in
        if c == b'{'
        then object
        else if c == b'['
        then array
        else if c == b't' || c == b'f'
        then parse_bool s >>= (λ (b, rest). ok (bool b, rest))
        else if c == b'n'
        then ok (null, parse_null s)
        else if c == b'"'
        then parse_str s >>= (λ (t, rest). ok (str t, rest))
        else if starts_int c
        then ok (parse_number s)
        else syntax_err 0

    -- The loop of `jsonArr_t::fromString`, from position `i`. It also ends with the string.
    pub load_items : ℕ → Bytes → Result (Items F × Bytes)
    load_items zero s = out_of_fuel
    load_items (suc fuel) s =
        let start = skip_separators s in
        let more = load fuel start >>= λ (v, rest). elim rest [
          | [] ↦ ok (item v no_items, [])
          | c ∷ cs ↦ load_items fuel (c ∷ cs) >>= λ (xs, after). ok (item v xs, after)
        ] in
        if first_byte start == b']' then ok (no_items, tail start) else more

    -- The loop of `jsonObj_t::fromString`, from position `i`, with the entries so far.
    pub load_fields : ℕ → Fields F → Bytes → Result (Fields F × Bytes)
    load_fields zero m s = out_of_fuel
    load_fields (suc fuel) m s =
        let start = skip_separators s in
        let more = parse_str start >>= λ (k, behind).
        let colon = skip_blanks behind in
        let value = load fuel (skip_blanks (tail colon)) >>= λ (v, rest). elim rest [
          | [] ↦ syntax_err (last_index 0)
          | c ∷ cs ↦ load_fields fuel (map_insert k v m) (c ∷ cs)
        ] in
        if first_byte colon == b':' then value else syntax_err (length behind - length colon) in
        if first_byte start == b'}' then ok (m, tail start) else more

  -- `cfgReadStr`; the string that is left is dropped. The fuel is for two calls a byte.
  unfoldable pub cfg_read_str : Bytes → Result (Json F)
  cfg_read_str s = load (2 * length s + 2) s >>= λ (v, rest). ok v
