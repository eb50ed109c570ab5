-- ===== src/Json/Printable.antt =====
-- include/json.h: the values that are printed and loaded again with nothing lost.
use instant_send.Json.Fields.Append.{Exceeds}
use instant_send.Prelude.{ℕ, suc, ◌+◌, ◌^◌, ◌≢◌}
use instant_send.Word.{IsInt64}
use instant_send.CString.{NoNul}
use instant_send.Json.Syntax.{
  Json, Items, Fields, int, float, str, bool, null, arr, obj, no_items, item, no_fields, field,
}

module _ {F : Type 0} where
  -- What `toString` writes and `loadComponent` reads back: no number with a fraction, no -2^63,
  -- no NUL in a text, and the maps in the order that `std::map` keeps.
  unfoldable mutual
    pub IsPrintable : Json F → Type 0
    IsPrintable (int n) = IsInt64 n × (n ≢ 2 ^ 63)
    IsPrintable (float x) = ⊥
    IsPrintable (str s) = NoNul s
    IsPrintable (bool b) = Unit
    IsPrintable null = Unit
    IsPrintable (arr xs) = ArePrintable xs
    IsPrintable (obj m) = FieldsPrintable m

    pub ArePrintable : Items F → Type 0
    ArePrintable no_items = Unit
    ArePrintable (item v xs) = IsPrintable v × ArePrintable xs

    pub FieldsPrintable : Fields F → Type 0
    FieldsPrintable no_fields = Unit
    FieldsPrintable (field k v m) = NoNul k × IsPrintable v × Exceeds k m × FieldsPrintable m

  -- The calls below the first one that reading a value makes.
  unfoldable mutual
    pub need : Json F → ℕ
    need (arr xs) = suc (need_items xs)
    need (obj m) = suc (need_fields m)
    need (int n) = 0
    need (float x) = 0
    need (str s) = 0
    need (bool b) = 0
    need null = 0

    pub need_items : Items F → ℕ
    need_items no_items = 0
    need_items (item v xs) = suc (need v + need_items xs)

    pub need_fields : Fields F → ℕ
    need_fields no_fields = 0
    need_fields (field k v m) = suc (need v + need_fields m)
