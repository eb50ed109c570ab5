-- ===== src/ConfigTool/Targets.antt =====
-- src/configtool.cpp: what a key reads after targets were added or imported.
use Prim.Native.Nat.{Ordering, lt, eq, gt}
use instant_send.Prelude.{
  ◌≡◌, ◌∙◌, refl, true, Option, none, some, Bytes, codes, arith, Bool-cases, inl, inr,
}
use instant_send.Json.Syntax.{Json, Fields, no_fields, field}
use instant_send.Json.Fields.{compare_bytes, map_insert, map_find}
use instant_send.Json.Fields.Append.{Exceeds}
use instant_send.Json.Fields.Laws.{
  IsSorted, map_find-map_insert_self, map_find-map_insert_ne, compare_bytes-eq,
  compare_bytes-lt_trans, compare_bytes_swap',
}
use instant_send.Json.Object.{exists, insert_new, clone, gie}
use instant_send.Json.Cast.{value, raised, missing, member}
use instant_send.ConfigTool.{add_all, import_all, section, export_target}

module _ {F : Type 0} where
  -- What was there is kept, and what was not is a clone of what is new.
  abbrev pub first_of : Option (Json F) → Option (Json F) → Option (Json F)
  first_of none none = none
  first_of none (some v) = some (clone v)
  first_of (some w) _ = some w

  map_insert-exists :
      (k : Bytes) (v : Json F) (m : Fields F) → exists k m ≡ true → map_insert k v m ≡ m
  unfolding map_insert exists map_find
  map_insert-exists k v no_fields h = absurd (ground arith)
  map_insert-exists k v (field j w m) h = ground (arith, map_insert-exists k v m)

  -- `importTargets` leaves the targets that `addTargets` leaves.
  pub import_all-add_all :
      (new targets : Fields F) → import_all new targets ≡ (add_all new targets).0
  unfolding import_all add_all insert_new
  import_all-add_all no_fields targets = refl
  import_all-add_all (field k v m) targets = elim (Bool-cases (exists k targets)) [
    | inl e ↦ rw (map_insert-exists k (clone v) targets e, e) (import_all-add_all m targets)
    | inr e ↦ rw e (import_all-add_all m (map_insert k (clone v) targets))
  ]

  find_below :
      (j k : Bytes) (m : Fields F) → compare_bytes j k ≡ lt → Exceeds k m → map_find j m ≡ none
  unfolding map_find
  find_below j k no_fields e h = refl
  find_below j k (field i w m) e h =
      rw (map_find, compare_bytes-lt_trans j k i e (compare_bytes_swap' i k h.0)) refl

  -- One entry, by the place of its key.
  merge_entry :
      (j k : Bytes) (v : Json F) (m targets : Fields F)
      → Exceeds k m
      → (o : Ordering) → compare_bytes j k ≡ o
      → {merged : Option (Json F)}
      → merged ≡ first_of (map_find j (map_insert k (clone v) targets)) (map_find j m)
      → merged ≡ first_of (map_find j targets) (map_find j (field k v m))
  unfolding map_find
  merge_entry j k v m targets x lt e ih =
      ih
      ∙ rw
          (
            map_find-map_insert_ne j k (clone v) targets (λ q. cc),
            find_below j k m e x,
            map_find,
            e,
          )
          refl
  merge_entry j k v m targets x gt e ih =
      ih ∙ rw (map_find-map_insert_ne j k (clone v) targets (λ q. cc), map_find, e) refl
  merge_entry j k v m targets x eq e ih =
      ground (arith, map_find-map_insert_self k (clone v) targets, compare_bytes-eq j k e)

  -- After the import a target reads as before if there was one, and else as in the new ones.
  map_find-import_all :
      (j : Bytes) (new targets : Fields F)
      → IsSorted new
      → map_find j (import_all new targets) ≡ first_of (map_find j targets) (map_find j new)
  unfolding import_all insert_new map_find
  map_find-import_all j no_fields targets s =
      elim (map_find j targets) as (λ o. o ≡ first_of o none) [ none ↦ refl | some w ↦ refl ]
  map_find-import_all j (field k v m) targets (x, s) =
      merge_entry j k v m targets x (compare_bytes j k) refl
        (map_find-import_all j m (map_insert k (clone v) targets) s)

  -- `exportTarget` of a target that exists throws: it reads the name from an object that is empty.
  pub export_target-section :
      (name : Bytes) (cfg : Json F) (targets : Fields F)
      → section (codes "targets") cfg ≡ value targets
      → export_target name cfg ≡ raised (missing name)
  unfolding export_target member gie map_find
  export_target-section name cfg targets e = rw e (ground arith)
