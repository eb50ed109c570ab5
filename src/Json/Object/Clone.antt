-- ===== src/Json/Object/Clone.antt =====
-- src/json.cpp: `clone` copies the whole value.
use instant_send.Prelude.{◌≡◌, refl, ap, ◌∙◌}
use instant_send.Json.Syntax.{
  Json, Items, Fields, int, float, str, bool, null, arr, obj, no_items, item, no_fields, field,
}
use instant_send.Json.Fields.Append.{
  Exceeds, behind, AllFollow, behind_nil, behind_assoc, map_insert-Follows, AllFollow-behind,
  AllFollow-nil,
}
use instant_send.Json.Object.{clone, clone_items, clone_fields}

module _ {F : Type 0} where
  -- Every object in the value has its keys in ascending order, as `std::map` keeps them.
  unfoldable mutual
    IsOrdered : Json F → Type 0
    IsOrdered (arr xs) = ItemsOrdered xs
    IsOrdered (obj m) = FieldsOrdered m
    IsOrdered (int n) = Unit
    IsOrdered (float x) = Unit
    IsOrdered (str s) = Unit
    IsOrdered (bool b) = Unit
    IsOrdered null = Unit

    pub ItemsOrdered : Items F → Type 0
    ItemsOrdered no_items = Unit
    ItemsOrdered (item v xs) = IsOrdered v × ItemsOrdered xs

    pub FieldsOrdered : Fields F → Type 0
    FieldsOrdered no_fields = Unit
    FieldsOrdered (field k v m) = IsOrdered v × Exceeds k m × FieldsOrdered m

  abbrev Copies : Json F → Type 0
  Copies v = IsOrdered v → clone v ≡ v

  abbrev CopiesItems : Items F → Type 0
  CopiesItems xs = ItemsOrdered xs → clone_items xs ≡ xs

  abbrev CopiesFields : Fields F → Type 0
  CopiesFields m =
      FieldsOrdered m → (acc : Fields F) → AllFollow acc m → clone_fields acc m ≡ behind acc m

  copies : (v : Json F) → Copies v
  unfolding clone IsOrdered
  copies v = elim v as Copies CopiesItems CopiesFields [
    | arr (xs → ih) ↦ λ h. ap arr (ih h)
    | obj (m → ih) ↦ λ h. ap obj (ih h no_fields (AllFollow-nil m))
    | no_items ↦ λ h. refl
    | item (w → ih) (xs → ihs) ↦ λ h. rw (ih h.0, ihs h.1) refl
    | no_fields ↦ λ h acc after. rw behind_nil refl
    | field k (w → ih) (m → ihs) ↦ λ h acc after.
        rw (ih h.0, map_insert-Follows k w acc after.0)
          (ihs h.2 _ (AllFollow-behind k w acc m after.1 h.1)
            ∙ behind_assoc acc (field k w no_fields) m)
    | _ ↦ λ h. refl
  ]

  -- A clone equals its original.
  clone_lem : (v : Json F) → IsOrdered v → clone v ≡ v
  clone_lem = copies
