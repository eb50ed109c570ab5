-- ===== src/Json/Printer.antt =====
-- src/json.cpp: `toString`.
pub mod Bracket
pub mod Plain
use instant_send.Prelude.{
  ℕ, ◌+◌, ◌-◌, Bool, true, false, List, [], ◌∷◌, ◌++◌, ltb, if◌then◌else◌, Bytes, length, take,
  codes,
}
use instant_send.Json.Int.{print_int}
use instant_send.Json.Text.{print_str}
use instant_send.Json.Syntax.{
  Json, Items, Fields, int, float, str, bool, null, arr, obj, no_items, item, no_fields, field,
}
use instant_send.Json.Float.{FloatOps, print_float}

-- The loop: each text and a comma behind what is there.
unfoldable pub append_texts : Bytes → List Bytes → Bytes
append_texts res [] = res
append_texts res (t ∷ ts) = append_texts (res ++ (t ++ codes ", ")) ts

-- `res.erase(res.length() - 2, 2)`
unfoldable pub erase_last_two : Bytes → Bytes
erase_last_two res = take (length res - 2) res

unfoldable pub bracket : ℕ → ℕ → List Bytes → Bytes
bracket open_mark close_mark ts =
    let res = append_texts (open_mark ∷ []) ts in
    (if ltb 1 (length res) then erase_last_two res else res) ++ close_mark ∷ []

module _ {F : Type 0} (fl : FloatOps F) where
  unfoldable mutual
    pub print : Json F → Bytes
    print (int n) = print_int n
    print (float x) = print_float fl x
    print (str s) = print_str s
    print (bool b) = if b then codes "true" else codes "false"
    print null = codes "null"
    print (arr xs) = bracket b'[' b']' (print_items xs)
    print (obj m) = bracket b'{' b'}' (print_fields m)

    pub print_items : Items F → List Bytes
    print_items no_items = []
    print_items (item v xs) = print v ∷ print_items xs

    pub print_fields : Fields F → List Bytes
    print_fields no_fields = []
    print_fields (field k v m) = (print_str k ++ (codes " : " ++ print v)) ∷ print_fields m
