-- ===== src/Json/Fields/Laws.antt =====
-- `std::map<string, itemContainer_t>`: the order of the entries, and lookups after an insertion.
use Prim.Native.Nat.{Ordering, lt, eq, gt}
use instant_send.Prelude.{◌≡◌, ◌≢◌, refl, Option, none, some, [], ◌∷◌, arith, Bytes}
use instant_send.Json.Syntax.{Json, Fields, no_fields, field}
use instant_send.Json.Fields.{compare_bytes, map_insert, map_assign, map_find}
use instant_send.Json.Fields.Append.{Exceeds}

compare_bytes_refl : (a : Bytes) → compare_bytes a a ≡ eq
unfolding compare_bytes
compare_bytes_refl [] = refl
compare_bytes_refl (x ∷ xs) = ground (arith, compare_bytes_refl xs)

pub compare_bytes-eq : (a b : Bytes) → compare_bytes a b ≡ eq → a ≡ b
unfolding compare_bytes
compare_bytes-eq [] [] h = refl
compare_bytes-eq [] (y ∷ ys) h = cc
compare_bytes-eq (x ∷ xs) [] h = cc
compare_bytes-eq (x ∷ xs) (y ∷ ys) h = ground (arith, compare_bytes-eq xs ys)

compare_bytes_swap : (a b : Bytes) → compare_bytes a b ≡ lt → compare_bytes b a ≡ gt
unfolding compare_bytes
compare_bytes_swap [] [] h = cc
compare_bytes_swap [] (y ∷ ys) h = refl
compare_bytes_swap (x ∷ xs) [] h = cc
compare_bytes_swap (x ∷ xs) (y ∷ ys) h = ground (arith, compare_bytes_swap xs ys)

pub compare_bytes_swap' : (a b : Bytes) → compare_bytes a b ≡ gt → compare_bytes b a ≡ lt
unfolding compare_bytes
compare_bytes_swap' [] [] h = cc
compare_bytes_swap' [] (y ∷ ys) h = cc
compare_bytes_swap' (x ∷ xs) [] h = refl
compare_bytes_swap' (x ∷ xs) (y ∷ ys) h = ground (arith, compare_bytes_swap' xs ys)

compare_bytes_trans :
    (a b c : Bytes) → compare_bytes a b ≡ gt → compare_bytes b c ≡ gt → compare_bytes a c ≡ gt
unfolding compare_bytes
compare_bytes_trans [] [] c h k = cc
compare_bytes_trans [] (y ∷ ys) c h k = cc
compare_bytes_trans (x ∷ xs) [] [] h k = cc
compare_bytes_trans (x ∷ xs) [] (z ∷ zs) h k = cc
compare_bytes_trans (x ∷ xs) (y ∷ ys) [] h k = refl
compare_bytes_trans (x ∷ xs) (y ∷ ys) (z ∷ zs) h k = ground (arith, compare_bytes_trans xs ys zs)

pub compare_bytes-lt_trans :
    (a b c : Bytes) → compare_bytes a b ≡ lt → compare_bytes b c ≡ lt → compare_bytes a c ≡ lt
compare_bytes-lt_trans a b c h k =
    compare_bytes_swap' c a
      (compare_bytes_trans c b a (compare_bytes_swap b c k) (compare_bytes_swap a b h))

module _ {F : Type 0} where
  abbrev pub IsSorted : Fields F → Type 0
  IsSorted no_fields = Unit
  IsSorted (field k v m) = Exceeds k m × IsSorted m

  Exceeds-trans : (a b : Bytes) (m : Fields F) → compare_bytes b a ≡ gt → Exceeds b m → Exceeds a m
  Exceeds-trans a b no_fields h e = tt
  Exceeds-trans a b (field j w m) h (e, es) =
      (compare_bytes_trans j b a e h, Exceeds-trans a b m h es)

  Exceeds-map_insert :
      (i k : Bytes) (v : Json F) (m : Fields F)
      → compare_bytes k i ≡ gt
      → Exceeds i m
      → Exceeds i (map_insert k v m)
  unfolding map_insert
  Exceeds-map_insert i k v no_fields h e = (h, tt)
  Exceeds-map_insert i k v (field j w m) h (e, es) =
      (elim (compare_bytes k j)
        as (λ o. Exceeds i (elim o [
          | lt ↦ field k v (field j w m)
          | eq ↦ field j w m
          | gt ↦ field j w (map_insert k v m)
        ])) [ lt ↦ (h, (e, es)) | eq ↦ (e, es) | gt ↦ (e, Exceeds-map_insert i k v m h es) ])

  insert-IsSorted :
      (k j : Bytes) (v w : Json F) (m : Fields F)
      → (o : Ordering) → compare_bytes k j ≡ o
      → Exceeds j m
      → IsSorted m
      → IsSorted (map_insert k v m)
      → IsSorted (map_insert k v (field j w m))
  unfolding map_insert
  insert-IsSorted k j v w m lt e x s t =
      rw (e, map_insert)
        ((compare_bytes_swap k j e, Exceeds-trans k j m (compare_bytes_swap k j e) x), (x, s))
  insert-IsSorted k j v w m eq e x s t = rw (e, map_insert) (x, s)
  insert-IsSorted k j v w m gt e x s t = rw (e, map_insert) (Exceeds-map_insert j k v m e x, t)

  -- An insertion keeps the keys in ascending order, and so without a duplicate.
  map_insert-IsSorted :
      (k : Bytes) (v : Json F) (m : Fields F) → IsSorted m → IsSorted (map_insert k v m)
  unfolding map_insert
  map_insert-IsSorted k v no_fields s = (tt, tt)
  map_insert-IsSorted k v (field j w m) (x, s) =
      insert-IsSorted k j v w m (compare_bytes k j) refl x s (map_insert-IsSorted k v m s)

  abbrev pub or_else : Option (Json F) → Json F → Json F
  or_else none v = v
  or_else (some w) v = w

  -- `map::insert` does not replace: the key is found with the value that was there before, or else
  -- with the new one.
  pub map_find-map_insert_self :
      (k : Bytes) (v : Json F) (m : Fields F)
      → map_find k (map_insert k v m) ≡ some (or_else (map_find k m) v)
  unfolding map_find map_insert
  map_find-map_insert_self k v no_fields = ground (arith, compare_bytes_refl k)
  map_find-map_insert_self k v (field j w m) =
      ground (arith, compare_bytes_refl k, map_find-map_insert_self k v m)

  -- `map[k] = v` replaces.
  pub map_find-map_assign_self :
      (k : Bytes) (v : Json F) (m : Fields F) → map_find k (map_assign k v m) ≡ some v
  unfolding map_find map_assign
  map_find-map_assign_self k v no_fields = ground (arith, compare_bytes_refl k)
  map_find-map_assign_self k v (field j w m) =
      ground (arith, compare_bytes_refl k, map_find-map_assign_self k v m)

  -- Other keys are found as before.
  pub map_find-map_insert_ne :
      (j k : Bytes) (v : Json F) (m : Fields F)
      → compare_bytes j k ≢ eq
      → map_find j (map_insert k v m) ≡ map_find j m
  unfolding map_find map_insert
  map_find-map_insert_ne j k v no_fields h = ground arith
  map_find-map_insert_ne j k v (field i w m) h =
      ground (
        arith,
        compare_bytes-lt_trans j k i,
        map_find-map_insert_ne j k v m h,
        compare_bytes-eq k i,
      )

  pub map_find-map_assign_ne :
      (j k : Bytes) (v : Json F) (m : Fields F)
      → compare_bytes j k ≢ eq
      → map_find j (map_assign k v m) ≡ map_find j m
  unfolding map_find map_assign
  map_find-map_assign_ne j k v no_fields h = ground arith
  map_find-map_assign_ne j k v (field i w m) h =
      ground (
        arith,
        compare_bytes-lt_trans j k i,
        map_find-map_assign_ne j k v m h,
        compare_bytes-eq k i,
      )
