-- ===== src/Json/Object/Laws.antt =====
-- include/json.h: reading a `jsonObj_t` after writing it.
use Prim.Native.Nat.{Ordering, lt, eq, gt}
use instant_send.Prelude.{
  ◌≡◌, ◌≢◌, refl, true, false, not, ◌&&◌, ◌||◌, Bool, arith, Bytes, if◌then◌else◌,
}
use instant_send.Json.Syntax.{Json, Fields}
use instant_send.Json.Fields.{compare_bytes}
use instant_send.Json.Fields.Laws.{
  map_find-map_insert_self, map_find-map_insert_ne, map_find-map_assign_self,
  map_find-map_assign_ne, compare_bytes-eq,
}
use instant_send.Json.Object.{found, gie, exists, insert_new, insert_val}

-- Neither key is before the other.
abbrev pub same_key : Bytes → Bytes → Bool
same_key j k = elim (compare_bytes j k) [ eq ↦ true | _ ↦ false ]

pub data Compared (j k : Bytes) : Type 0 where
  same : j ≡ k → same_key j k ≡ true → Compared j k
  other : compare_bytes j k ≢ eq → same_key j k ≡ false → Compared j k

Compared-by : (j k : Bytes) (o : Ordering) → compare_bytes j k ≡ o → Compared j k
Compared-by j k lt e = other (λ q. cc) (rw (e, same_key) refl)
Compared-by j k eq e = same (compare_bytes-eq j k e) (rw (e, same_key) refl)
Compared-by j k gt e = other (λ q. cc) (rw (e, same_key) refl)

pub compared : (j k : Bytes) → Compared j k
compared j k = Compared-by j k (compare_bytes j k) refl

module _ {F : Type 0} (j k : Bytes) (v : Json F) (m : Fields F) where
  -- `insertNew` adds an entry where there is none, tells whether it did, and changes nothing at any
  -- other key or at a key that is there.
  gie-insert_new :
      (gie j (insert_new k v m).0 ≡ (if same_key j k && not (exists k m) then found v else gie j m))
      × ((insert_new k v m).1 ≡ not (exists k m))
  unfolding gie exists insert_new
  gie-insert_new = elim (compared j k) [
    | same e t ↦ (rw (t, e) (ground (arith, map_find-map_insert_self k v m)), refl)
    | other ne t ↦ (rw t (ground (arith, map_find-map_insert_ne j k v m ne)), refl)
  ]

  -- `insertVal` sets the entry whether it was there or not, and changes nothing at any other key.
  gie-insert_val :
      (gie j (insert_val k v m) ≡ (if same_key j k then found v else gie j m))
      × (exists j (insert_val k v m) ≡ (same_key j k || exists j m))
  unfolding gie exists insert_val
  gie-insert_val = elim (compared j k) [
    | same e t ↦ rw (t, e) (ground (arith, map_find-map_assign_self k v m))
    | other ne t ↦ rw t (ground (arith, map_find-map_assign_ne j k v m ne))
  ]
