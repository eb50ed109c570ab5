-- ===== src/Json/Fields/Append.antt =====
-- `std::map<string, itemContainer_t>`: keys inserted in ascending order stand in that order.
use Prim.Native.Nat.{gt}
use instant_send.Prelude.{◌≡◌, refl, ap, Bytes}
use instant_send.Json.Syntax.{Json, Fields, no_fields, field}
use instant_send.Json.Fields.{compare_bytes, map_insert}

module _ {F : Type 0} where
  -- Every key of the map comes behind `k`.
  abbrev pub Exceeds : Bytes → Fields F → Type 0
  Exceeds k no_fields = Unit
  Exceeds k (field j v m) = (compare_bytes j k ≡ gt) × Exceeds k m

  -- `m` behind `acc`.
  abbrev pub behind : Fields F → Fields F → Fields F
  behind no_fields m = m
  behind (field k v acc) m = field k v (behind acc m)

  pub behind_nil : (acc : Fields F) → behind acc no_fields ≡ acc
  behind_nil no_fields = refl
  behind_nil (field k v acc) = ap (field k v) (behind_nil acc)

  pub behind_assoc : (a b c : Fields F) → behind (behind a b) c ≡ behind a (behind b c)
  behind_assoc no_fields b c = refl
  behind_assoc (field k v a) b c = ap (field k v) (behind_assoc a b c)

  -- `k` comes behind every key of the map.
  abbrev pub Follows : Bytes → Fields F → Type 0
  Follows k no_fields = Unit
  Follows k (field j v m) = (compare_bytes k j ≡ gt) × Follows k m

  abbrev pub AllFollow : Fields F → Fields F → Type 0
  AllFollow acc no_fields = Unit
  AllFollow acc (field k v m) = Follows k acc × AllFollow acc m

  pub map_insert-Follows :
      (k : Bytes) (v : Json F) (acc : Fields F)
      → Follows k acc
      → map_insert k v acc ≡ behind acc (field k v no_fields)
  unfolding map_insert
  map_insert-Follows k v no_fields h = refl
  map_insert-Follows k v (field j w m) (first, h) =
      rw (first, map_insert) (ap (field j w) (map_insert-Follows k v m h))

  Follows-behind :
      (k j : Bytes) (v : Json F) (acc : Fields F)
      → Follows k acc
      → compare_bytes k j ≡ gt
      → Follows k (behind acc (field j v no_fields))
  Follows-behind k j v no_fields h e = (e, tt)
  Follows-behind k j v (field i w m) (first, h) e = (first, Follows-behind k j v m h e)

  pub AllFollow-behind :
      (k : Bytes) (v : Json F) (acc m : Fields F)
      → AllFollow acc m
      → Exceeds k m
      → AllFollow (behind acc (field k v no_fields)) m
  AllFollow-behind k v acc no_fields h e = tt
  AllFollow-behind k v acc (field j w m) (first, h) (e, es) =
      (Follows-behind j k v acc first e, AllFollow-behind k v acc m h es)

  pub AllFollow-nil : (m : Fields F) → AllFollow no_fields m
  AllFollow-nil no_fields = tt
  AllFollow-nil (field k v m) = (tt, AllFollow-nil m)
