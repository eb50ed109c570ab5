-- ===== src/Json/Array.antt =====
-- include/json.h: the operations of `jsonArr_t` that the rest of the program uses.
use instant_send.Prelude.{ℕ, zero, suc, Option, none, some}
use instant_send.Json.Syntax.{Json, Items, no_items, item}

module _ {F : Type 0} where
  -- `addNew`, `addVal`
  unfoldable pub add_new : Json F → Items F → Items F
  add_new value no_items = item value no_items
  add_new value (item v xs) = item v (add_new value xs)

  -- `(*this)[ptr]`; `none` is outside the vector.
  unfoldable pub item_at : ℕ → Items F → Option (Json F)
  item_at i no_items = none
  item_at zero (item v xs) = some v
  item_at (suc i) (item v xs) = item_at i xs

  unfoldable pub array_count : Items F → ℕ
  array_count no_items = 0
  array_count (item v xs) = suc (array_count xs)
