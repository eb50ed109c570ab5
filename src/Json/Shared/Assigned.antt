-- ===== src/Json/Shared/Assigned.antt =====
-- include/json.h: `operator=` of `itemContainer_t` does not count the reference.
use instant_send.Prelude.{
  ℕ, zero, suc, ◌<◌, ◌^◌, ◌≡◌, refl, ap, ◌∙◌, none, some, List, [], ◌∷◌, ◌++◌, arith, length, take,
  drop, get_elem?,
}
use instant_send.Json.Shared.{
  Container, Store, empty, invalidate, Op, destroy, apply_op, run_ops, assign,
}
use instant_send.Json.Shared.Freed.{holders, holders-append, split_at, Sound-run_ops, Sound-empty}

get_elem?-put :
    (i : ℕ) (held zs : List Container) (x y : Container)
    → get_elem? held i ≡ some x
    → get_elem? (take i held ++ y ∷ zs) i ≡ some y
get_elem?-put i [] zs x y e = absurd cc
get_elem?-put zero (z ∷ held) zs x y e = refl
get_elem?-put (suc i) (z ∷ held) zs x y e = get_elem?-put i held zs x y e

take-put :
    (i : ℕ) (held zs : List Container) (x y : Container)
    → get_elem? held i ≡ some x
    → take i (take i held ++ y ∷ zs) ≡ take i held
take-put i [] zs x y e = absurd cc
take-put zero (z ∷ held) zs x y e = refl
take-put (suc i) (z ∷ held) zs x y e = ap (◌∷◌ z) (take-put i held zs x y e)

drop-put :
    (i : ℕ) (held zs : List Container) (x y : Container)
    → get_elem? held i ≡ some x
    → drop (suc i) (take i held ++ y ∷ zs) ≡ zs
drop-put i [] zs x y e = absurd cc
drop-put zero (z ∷ held) zs x y e = refl
drop-put (suc i) (z ∷ held) zs x y e = drop-put i held zs x y e

apply_op-destroy :
    (i : ℕ) (s : Store) (x : Container)
    → get_elem? s.held i ≡ some x
    → apply_op (destroy i) s
      ≡ invalidate x (record s { held = take i s.held ++ drop (suc i) s.held })
unfolding apply_op
apply_op-destroy i s x e = rw (apply_op, e) refl

module _ (s : Store) (i j c : ℕ) (e : get_elem? s.held i ≡ some none)
    (f : get_elem? s.held j ≡ some (some c)) where
  assigned : assign i j s ≡ record s { held = take i s.held ++ some c ∷ drop (suc i) s.held }
  unfolding assign invalidate
  assigned = rw (assign, e, f) refl

  -- The assigned container is destroyed.
  destroyed :
      apply_op (destroy i) (assign i j s)
      ≡ invalidate (some c) (record s { held = take i s.held ++ drop (suc i) s.held })
  destroyed = rw assigned (
      apply_op-destroy i _ (some c) (get_elem?-put i s.held (drop (suc i) s.held) none (some c) e)
      ∙ ap (λ l. invalidate (some c) (record s { held = l }))
          (rw
            (
              take-put i s.held (drop (suc i) s.held) none (some c) e,
              drop-put i s.held (drop (suc i) s.held) none (some c) e,
            )
            refl))

  same_holders : holders c (take i s.held ++ drop (suc i) s.held) ≡ holders c s.held
  same_holders = omega (
    arith,
    ap (holders c) (split_at i s.held none e),
    holders-append c (take i s.held) (drop (suc i) s.held),
    holders-append c (take i s.held) (none ∷ drop (suc i) s.held),
  )

-- When a container without an item of its own is assigned the only container of an item, and then
-- destroyed, the item is deleted while the other container still holds it.
pub assign-dangles :
    (os : List Op) (i j c : ℕ)
    → length os < 2 ^ 32
    → get_elem? (run_ops os empty).held i ≡ some none
    → get_elem? (run_ops os empty).held j ≡ some (some c)
    → holders c (run_ops os empty).held ≡ 1
    → ((apply_op (destroy i) (assign i j (run_ops os empty))).frees c ≡ 1)
      × (holders c (apply_op (destroy i) (assign i j (run_ops os empty))).held ≡ 1)
unfolding invalidate
assign-dangles os i j c few e f only =
    let s = run_ops os empty in
    let h = Sound-run_ops os empty Sound-empty (omega arith) in
    let same = same_holders s i j c e f in
    rw (destroyed s i j c e f) (ground (arith, h.counted c, h.freed c, h.fresh c), same ∙ only)
