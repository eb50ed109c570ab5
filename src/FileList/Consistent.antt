-- ===== src/FileList/Consistent.antt =====
-- src/filelist.cpp: every entry of the list leads to the controller that was made for it.
use instant_send.Prelude.{
  ℕ, ◌<◌, ◌≡◌, ◌≢◌, ◌⊎◌, refl, ◌∙◌, Bool, true, false, List, [], ◌∷◌, Option, none, some, ◌==◌,
  Bytes, arith, Bool-cases, inl, inr,
}
use instant_send.Word.{Int64}
use instant_send.FileList.{Controller, FileList, set_at, remove_found, remove_controller}

-- The controller of an entry is in memory, below the next address, and has the entry's id.
abbrev pub Leads : FileList → ℕ → ℕ → Type 0
Leads l id p = (c : Controller) × (l.heap p ≡ some c) × (c.identifier ≡ id) × (p < l.next)

abbrev pub IsConsistent : FileList → Type 0
IsConsistent l = (id p : ℕ) → l.identifiers id ≡ some p → Leads l id p

module _ {ℓ} {A : Type ℓ} where
  set_at-other : (k n : ℕ) (v : Option A) (f : ℕ → Option A) → n ≢ k → set_at k v f n ≡ f n
  set_at-other k n v f e = ground arith

-- Two entries lead to different controllers.
apart :
    (l : FileList) (i j p : ℕ)
    → IsConsistent l
    → l.identifiers i ≡ some p
    → l.identifiers j ≡ some p
    → i ≡ j
apart l i j p h e f =
    let (c, here, same, below) = h i p e in
    let (d, there, also, under) = h j p f in let one : c ≡ d = cc in cc

differ : (i j : ℕ) → (i == j) ≡ false → i ≡ j → ⊥
differ i j b e = ground arith

remove_found-IsConsistent :
    (o : Option ℕ) (id : ℕ) (del : Bool) (l : FileList)
    → l.identifiers id ≡ o
    → IsConsistent l
    → IsConsistent (remove_found o id del l)
unfolding remove_found
remove_found-IsConsistent none id del l e h j q f = h j q f
remove_found-IsConsistent (some p) id true l e h j q f = elim (Bool-cases (j == id)) [
  | inl b ↦
      let gone : (remove_found (some p) id true l).identifiers j ≡ none = rw b refl in absurd cc
  | inr b ↦
      let old : (remove_found (some p) id true l).identifiers j ≡ l.identifiers j = rw b refl in
      let kept : l.identifiers j ≡ some q = cc in
      let (d, there, same, below) = h j q kept in
      let other : q ≢ p = λ x. absurd (differ j id b (apart l j id q h kept cc)) in
      (d, set_at-other p q none (l.heap) other ∙ there, same, below)
]
remove_found-IsConsistent (some p) id false l e h j q f = h j q (ground arith)

-- One of the numbers is no id of the list.
abbrev pub HasFree : List ℕ → FileList → Type 0
HasFree [] l = ⊥
HasFree (id ∷ more) l = (l.identifiers id ≡ none) ⊎ HasFree more l

-- One of the numbers is this one.
abbrev pub Among : ℕ → List ℕ → Type 0
Among i [] = ⊥
Among i (x ∷ xs) = (i ≡ x) ⊎ Among i xs

-- The list behind a call is consistent and has every entry that it had.
abbrev pub Keeps : FileList → FileList → Type 0
Keeps old new =
    IsConsistent new × ((j q : ℕ) → old.identifiers j ≡ some q → new.identifiers j ≡ some q)

-- The address is the one that the list has under the id, and nothing is changed; or it is a new one,
-- with a controller of the arguments in memory, under an id that was free: under the id that was asked
-- for, or, where that is 0, under one of the random numbers.
abbrev pub Answers : List ℕ → ℕ → Bytes → Int64 → Bytes → ℕ → FileList → FileList → Type 0
Answers random id name size machine p old new =
    ((id ≢ 0) × (old.identifiers id ≡ some p) × (new ≡ old))
    ⊎ ((i : ℕ) × (((id ≢ 0) × (i ≡ id)) ⊎ ((id ≡ 0) × Among i random))
        × (old.identifiers i ≡ none)
        × (new.identifiers i ≡ some p)
        × (p ≡ old.next)
        × (new.heap p
            ≡ some (record {
              identifier = i;
              file_name = name;
              file_size = size;
              machine_id = machine;
            })))

-- `removeController` keeps the list consistent, also when the controller is deleted.
pub remove_controller-IsConsistent :
    (id : ℕ) (del : Bool) (l : FileList)
    → IsConsistent l
    → IsConsistent (remove_controller id del l)
unfolding remove_controller
remove_controller-IsConsistent id del l h =
    remove_found-IsConsistent (l.identifiers id) id del l refl h
