-- ===== src/Json/Fields.antt =====
-- The operations of `std::map<string, itemContainer_t>` that include/json.h and src/json.cpp use.
pub mod Append
pub mod Laws
use Prim.Native.Nat.{compare, Ordering, lt, eq, gt}
use instant_send.Prelude.{ℕ, zero, suc, ◌+◌, Bool, true, false, Option, none, some, [], ◌∷◌, Bytes}
use instant_send.Json.Syntax.{Json, Fields, no_fields, field}

-- `string::compare`: bytes as `unsigned char`, and a prefix before what it begins.
unfoldable pub compare_bytes : Bytes → Bytes → Ordering
compare_bytes [] [] = eq
compare_bytes [] (y ∷ ys) = lt
compare_bytes (x ∷ xs) [] = gt
compare_bytes (x ∷ xs) (y ∷ ys) = elim (compare x y) [
  | lt ↦ lt
  | eq ↦ compare_bytes xs ys
  | gt ↦ gt
]

module _ {F : Type 0} where
  -- `map::insert` leaves an entry that is there.
  unfoldable pub map_insert : Bytes → Json F → Fields F → Fields F
  map_insert k v no_fields = field k v no_fields
  map_insert k v (field j w m) = elim (compare_bytes k j) [
    | lt ↦ field k v (field j w m)
    | eq ↦ field j w m
    | gt ↦ field j w (map_insert k v m)
  ]

  -- `map[k] = v` replaces it.
  unfoldable pub map_assign : Bytes → Json F → Fields F → Fields F
  map_assign k v no_fields = field k v no_fields
  map_assign k v (field j w m) = elim (compare_bytes k j) [
    | lt ↦ field k v (field j w m)
    | eq ↦ field j v m
    | gt ↦ field j w (map_assign k v m)
  ]

  unfoldable pub map_find : Bytes → Fields F → Option (Json F)
  map_find k no_fields = none
  map_find k (field j w m) = elim (compare_bytes k j) [
    | lt ↦ none
    | eq ↦ some w
    | gt ↦ map_find k m
  ]

  unfoldable pub map_size : Fields F → ℕ
  map_size no_fields = 0
  map_size (field k v m) = suc (map_size m)
