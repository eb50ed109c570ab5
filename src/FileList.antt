-- ===== src/FileList.antt =====
-- src/filelist.cpp, and `insertController` of src/filewriter.cpp: the list of the files that are received.
-- A controller is known by its address.
pub mod Consistent
use instant_send.Prelude.{
  ℕ, suc, Bool, true, false, List, [], ◌∷◌, Option, none, some, ◌==◌, ◌&&◌, if◌then◌else◌, Bytes,
}
use instant_send.Word.{Int64}

-- What a `fileWriter_t` is made of.
pub record Controller : Type 0 where
  pub identifier : ℕ
  pub file_name : Bytes
  pub file_size : Int64
  pub machine_id : Bytes

-- `identifiers`, the controllers in memory, and the next address that `new` gives.
pub record FileList : Type 0 where
  pub identifiers : ℕ → Option ℕ
  pub heap : ℕ → Option Controller
  pub next : ℕ

abbrev pub set_at {ℓ} : {A : Type ℓ} → ℕ → Option A → (ℕ → Option A) → ℕ → Option A
set_at k v f n = if n == k then v else f n

-- `map::insert` keeps an entry that is there.
unfoldable pub insert_controller : Controller → FileList → ℕ × FileList
insert_controller c l =
    let entry : Option ℕ = elim (l.identifiers (c.identifier)) [
      | none ↦ some (l.next)
      | some p ↦ some p
    ] in
    (
      l.next,
      record {
        identifiers = set_at (c.identifier) entry (l.identifiers);
        heap = set_at (l.next) (some c) (l.heap);
        next = suc (l.next);
      },
    )

-- The loop over the numbers that `random` gives; `none` is a list of them that is too short.
unfoldable pub draw : List ℕ → FileList → Option ℕ
draw [] l = none
draw (id ∷ more) l = elim (l.identifiers id) [ none ↦ some id | some p ↦ draw more l ]

unfoldable pub insert_drawn : Option ℕ → Bytes → Int64 → Bytes → FileList → Option (ℕ × FileList)
insert_drawn none name size machine l = none
insert_drawn (some id) name size machine l = some (
    insert_controller
      (record { identifier = id; file_name = name; file_size = size; machine_id = machine }) l)

unfoldable pub find_or_insert : Option ℕ → ℕ → Bytes → Int64 → Bytes → FileList → ℕ × FileList
find_or_insert (some p) id name size machine l = (p, l)
find_or_insert none id name size machine l =
    insert_controller
      (record { identifier = id; file_name = name; file_size = size; machine_id = machine }) l

-- The address of the controller, and the list.
unfoldable pub get_controller :
    List ℕ → ℕ → Bytes → Int64 → Bytes → FileList → Option (ℕ × FileList)
get_controller random id name size machine l =
    if id == 0
    then insert_drawn (draw random l) name size machine l
    else some (find_or_insert (l.identifiers id) id name size machine l)

unfoldable pub remove_found : Option ℕ → ℕ → Bool → FileList → FileList
remove_found none id del l = l
remove_found (some p) id del l = record l {
  identifiers = set_at id none (l.identifiers);
  heap = if del then set_at p none (l.heap) else l.heap;
}

unfoldable pub remove_controller : ℕ → Bool → FileList → FileList
remove_controller id del l = remove_found (l.identifiers id) id del l
