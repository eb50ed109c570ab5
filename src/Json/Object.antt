-- ===== src/Json/Object.antt =====
-- include/json.h, src/json.cpp: the accessors of `jsonObj_t`, and `clone`.
pub mod Laws
pub mod Clone
use Prim.Native.Nat.{Ordering, lt, eq, gt}
use instant_send.Prelude.{
  ℕ, suc, Bool, true, false, not, Option, none, some, [], ◌∷◌, Bytes, ◌==◌, ltb, if◌then◌else◌,
}
use instant_send.Json.Syntax.{
  Json, Items, Fields, int, float, str, bool, null, arr, obj, no_items, item, no_fields, field,
}
use instant_send.Json.Fields.{map_insert, map_assign, map_find, map_size}

-- `jsonNotExist` carries the key.
pub data Access {ℓ} (A : Type ℓ) : Type ℓ where
  found : A → Access A
  not_exist : Bytes → Access A

module _ {F : Type 0} where
  unfoldable pub gie : Bytes → Fields F → Access (Json F)
  gie key m = elim (map_find key m) [ none ↦ not_exist key | some v ↦ found v ]

  -- `data.count(key) > 0`
  unfoldable pub exists : Bytes → Fields F → Bool
  exists key m = elim (map_find key m) [ none ↦ false | some v ↦ true ]

  -- With `inserted.second`; at `false` a warning is written.
  unfoldable pub insert_new : Bytes → Json F → Fields F → Fields F × Bool
  unfolding exists
  insert_new key value m = (map_insert key value m, not (exists key m))

  unfoldable pub insert_val : Bytes → Json F → Fields F → Fields F
  insert_val key value m = map_assign key value m

  unfoldable pub count : Fields F → ℕ
  count m = map_size m

  unfoldable mutual
    pub clone : Json F → Json F
    clone (int n) = int n
    clone (float x) = float x
    clone (str s) = str s
    clone (bool b) = bool b
    clone null = null
    clone (arr xs) = arr (clone_items xs)
    clone (obj m) = obj (clone_fields no_fields m)

    pub clone_items : Items F → Items F
    clone_items no_items = no_items
    clone_items (item v xs) = item (clone v) (clone_items xs)

    -- The loop, with what `insertNew` has put into the new object.
    pub clone_fields : Fields F → Fields F → Fields F
    clone_fields acc no_fields = acc
    clone_fields acc (field k v m) = clone_fields (map_insert k (clone v) acc) m
