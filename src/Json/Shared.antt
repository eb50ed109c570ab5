-- ===== src/Json/Shared.antt =====
-- include/json.h: `itemContainer_t`, the counted references of arrays and objects to what is inside them.
pub mod Freed
pub mod Assigned
use instant_send.Prelude.{
  ℕ, zero, suc, ◌+◌, ◌-◌, ◌^◌, ◌%◌, Option, none, some, List, [], ◌∷◌, ◌++◌, take, drop, get_elem?,
  if◌then◌else◌, ◌==◌,
}

-- A container that owns its item shares the counter of it with its copies; one without is `none`. A
-- counter and its item, which are deleted together, are known by their address.
abbrev pub Container : Type 0
Container = Option ℕ

-- `next` is the address that `new` gives, `rc` are the counters, and `frees` says how often each of them
-- was deleted. `held` are the containers.
pub record Store : Type 0 where
  pub next : ℕ
  pub rc : ℕ → ℕ
  pub frees : ℕ → ℕ
  pub held : List Container

abbrev pub empty : Store
empty = record { next = 0; rc = λ c. 0; frees = λ c. 0; held = [] }

abbrev pub set : (ℕ → ℕ) → ℕ → ℕ → ℕ → ℕ
set f c n x = if x == c then n else f x

-- `invalidate`
unfoldable pub invalidate : Container → Store → Store
invalidate none s = s
invalidate (some c) s =
    let n = (s.rc c + (2 ^ 32 - 1)) % 2 ^ 32 in
    record s {
      rc = set s.rc c n;
      frees = set s.frees c (if n == 0 then suc (s.frees c) else s.frees c);
    }

-- The copy constructor.
unfoldable pub copy_of : Container → Store → Store
copy_of none s = record s { held = none ∷ s.held }
copy_of (some c) s = record s { rc = set s.rc c ((s.rc c + 1) % 2 ^ 32); held = some c ∷ s.held }

-- What is done to containers: `own` and `borrow` are the constructor with `owns` true and false, and
-- `copy` and `destroy` say which container they are called on.
pub data Op : Type 0 where
  own borrow : Op
  copy destroy : ℕ → Op

unfoldable pub apply_op : Op → Store → Store
apply_op own s = record s { next = suc s.next; rc = set s.rc s.next 1; held = some s.next ∷ s.held }
apply_op borrow s = record s { held = none ∷ s.held }
apply_op (copy i) s = elim (get_elem? s.held i) [ none ↦ s | some x ↦ copy_of x s ]
apply_op (destroy i) s = elim (get_elem? s.held i) [
  | none ↦ s
  | some x ↦ invalidate x (record s { held = take i s.held ++ drop (suc i) s.held })
]

unfoldable pub run_ops : List Op → Store → Store
run_ops [] s = s
run_ops (o ∷ os) s = run_ops os (apply_op o s)

-- `operator=` of the container `i`, with the container `j` on its right.
unfoldable pub assign : ℕ → ℕ → Store → Store
assign i j s = elim (get_elem? s.held i) [
  | none ↦ s
  | some x ↦ elim (get_elem? s.held j) [
    | none ↦ s
    | some y ↦ invalidate x (record s { held = take i s.held ++ y ∷ drop (suc i) s.held })
  ]
]
