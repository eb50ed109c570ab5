-- ===== src/Json/Shared/Freed.antt =====
-- include/json.h: an item is deleted once, when its last container goes.
use instant_send.Prelude.{
  ℕ, zero, suc, ◌+◌, ◌≤◌, ◌<◌, ◌^◌, ◌≡◌, refl, ap, Option, none, some, List, [], ◌∷◌, ◌++◌, arith,
  length, take, drop, get_elem?, if◌then◌else◌, ◌==◌,
}
use instant_send.Json.Shared.{
  Container, Store, empty, invalidate, copy_of, Op, own, borrow, copy, destroy, apply_op, run_ops,
}

-- The containers that share the item `c`.
abbrev pub holders : ℕ → List Container → ℕ
holders c [] = 0
holders c (none ∷ held) = holders c held
holders c (some x ∷ held) = (if x == c then 1 else 0) + holders c held

pub holders-append :
    (c : ℕ) (xs ys : List Container) → holders c (xs ++ ys) ≡ holders c xs + holders c ys
holders-append c [] ys = omega arith
holders-append c (none ∷ xs) ys = holders-append c xs ys
holders-append c (some x ∷ xs) ys = omega (arith, holders-append c xs ys)

holders-length : (c : ℕ) (held : List Container) → holders c held ≤ length held
holders-length c [] = omega arith
holders-length c (none ∷ held) = omega (arith, holders-length c held)
holders-length c (some x ∷ held) = ground (arith, holders-length c held)

-- The container at a place, and the others.
pub split_at :
    (i : ℕ) (held : List Container) (x : Container)
    → get_elem? held i ≡ some x
    → held ≡ take i held ++ x ∷ drop (suc i) held
split_at i [] x e = absurd cc
split_at zero (y ∷ held) x e = let same : y ≡ x = cc in ap (λ z. z ∷ held) same
split_at (suc i) (y ∷ held) x e = ap (◌∷◌ y) (split_at i held x e)

pub record Sound (s : Store) : Type 0 where
  pub counted : (c : ℕ) → s.rc c ≡ holders c s.held
  pub freed : (c : ℕ) → c < s.next → s.frees c ≡ (if holders c s.held == 0 then 1 else 0)
  pub fresh : (c : ℕ) → s.next ≤ c → (holders c s.held ≡ 0) × (s.frees c ≡ 0)

Sound-own : (s : Store) → Sound s → Sound (apply_op own s)
unfolding apply_op
Sound-own s h = record {
  counted = λ c. ground (arith, h.counted c, h.fresh c);
  freed = λ c lt. ground (arith, h.freed c, h.fresh c);
  fresh = λ c le. ground (arith, h.fresh c);
}

Sound-copy_of :
    (x : Container) (s : Store)
    → Sound s
    → length s.held + 1 < 2 ^ 32
    → ((c : ℕ) → x ≡ some c → 1 ≤ holders c s.held)
    → Sound (copy_of x s)
unfolding copy_of
Sound-copy_of none s h few there = record { counted = h.counted; freed = h.freed; fresh = h.fresh }
Sound-copy_of (some d) s h few there = record {
  counted = λ c. ground (arith, h.counted c, holders-length c s.held);
  freed = λ c lt. ground (arith, h.freed c, there d refl);
  fresh = λ c le. ground (arith, h.fresh c, there d refl);
}

-- A container that is held goes.
module _ (s : Store) (xs ys : List Container) (h : Sound s) (few : length s.held < 2 ^ 32) where
  Sound-invalidate :
      (x : Container) → s.held ≡ xs ++ x ∷ ys → Sound (invalidate x (record s { held = xs ++ ys }))
  unfolding invalidate
  Sound-invalidate none e =
      let same : (c : ℕ) → holders c (xs ++ ys) ≡ holders c s.held = λ c.
        omega (arith, ap (holders c) e, holders-append c xs ys, holders-append c xs (none ∷ ys)) in
      record {
        counted = λ c. ground (arith, h.counted c, same c);
        freed = λ c lt. rw (same c) (h.freed c lt);
        fresh = λ c le. rw (same c) (h.fresh c le);
      }
  Sound-invalidate (some d) e =
      let split : (c : ℕ) → holders c s.held ≡ (if d == c then 1 else 0) + holders c (xs ++ ys) =
        λ c.
          omega
            (arith, ap (holders c) e, holders-append c xs ys, holders-append c xs (some d ∷ ys)) in
      let bound = holders-length d s.held in
      record {
        counted = λ c. ground (arith, h.counted c, h.counted d, split c, split d);
        freed = λ c lt. ground (arith, h.counted d, h.freed c, split c, split d);
        fresh = λ c le. ground (arith, h.counted d, h.fresh c, split c, split d);
      }

few_kept : (i : ℕ) (held : List Container) → length (take i held ++ drop (suc i) held) ≤ length held
few_kept zero [] = omega arith
few_kept (suc i) [] = omega arith
few_kept zero (x ∷ held) = omega arith
few_kept (suc i) (x ∷ held) = omega (arith, few_kept i held)

held-invalidate : (x : Container) (s : Store) → (invalidate x s).held ≡ s.held
unfolding invalidate
held-invalidate none s = refl
held-invalidate (some c) s = refl

length-copy_of : (x : Container) (s : Store) → length (copy_of x s).held ≤ length s.held + 1
unfolding copy_of
length-copy_of none s = omega arith
length-copy_of (some c) s = omega arith

module _ (s : Store) (h : Sound s) (few : length s.held + 1 < 2 ^ 32) (i : ℕ) where
  -- A state that is sound and holds one container more at most.
  abbrev Fine : Store → Type 0
  Fine t = Sound t × (length t.held ≤ length s.held + 1)

  listed :
      (x : Container) → get_elem? s.held i ≡ some x → (c : ℕ) → x ≡ some c → 1 ≤ holders c s.held
  listed x e c same =
      let split = split_at i s.held x e in
      rw (split, same)
        (omega (
          arith,
          holders-append c (take i s.held) (some c ∷ drop (suc i) s.held),
          ap (λ y. holders c (y ∷ [])) same,
          one c,
        ))
    where
      one : (c : ℕ) → holders c (some c ∷ []) ≡ 1
      one c = ground arith

  Fine-copy :
      (r : Option Container)
      → get_elem? s.held i ≡ r
      → Fine (elim r as (λ _. Store) [ none ↦ s | some x ↦ copy_of x s ])
  Fine-copy none e = (h, omega arith)
  Fine-copy (some x) e = (Sound-copy_of x s h few (listed x e), length-copy_of x s)

  Fine-destroy :
      (r : Option Container)
      → get_elem? s.held i ≡ r
      → Fine (elim r as (λ _. Store) [
        | none ↦ s
        | some x ↦ invalidate x (record s { held = take i s.held ++ drop (suc i) s.held })
      ])
  Fine-destroy none e = (h, omega arith)
  Fine-destroy (some x) e = (
    Sound-invalidate s (take i s.held) (drop (suc i) s.held) h (omega arith) x
        (split_at i s.held x e),
    rw (held-invalidate x (record s { held = take i s.held ++ drop (suc i) s.held }))
        (omega (arith, few_kept i s.held)),
  )

Fine-apply_op :
    (o : Op) (s : Store)
    → Sound s
    → length s.held + 1 < 2 ^ 32
    → Sound (apply_op o s) × (length (apply_op o s).held ≤ length s.held + 1)
unfolding apply_op
Fine-apply_op own s h few = (Sound-own s h, omega arith)
Fine-apply_op borrow s h few =
    (record { counted = h.counted; freed = h.freed; fresh = h.fresh }, omega arith)
Fine-apply_op (copy i) s h few = Fine-copy s h few i (get_elem? s.held i) refl
Fine-apply_op (destroy i) s h few = Fine-destroy s h few i (get_elem? s.held i) refl

pub Sound-run_ops :
    (os : List Op) (s : Store) → Sound s → length s.held + length os < 2 ^ 32 → Sound (run_ops os s)
unfolding run_ops
Sound-run_ops [] s h few = h
Sound-run_ops (o ∷ os) s h few =
    let (sound, longer) = Fine-apply_op o s h (omega arith) in
    Sound-run_ops os (apply_op o s) sound (omega arith)

pub Sound-empty : Sound empty
Sound-empty = record {
  counted = λ c. refl;
  freed = λ c lt. absurd (omega arith);
  fresh = λ c le. (refl, refl);
}

-- As long as no container is assigned to, an item that some container owns is not deleted, and one that
-- none owns any more was deleted once, whatever containers were made, copied and destroyed; there are
-- fewer than 2 ^ 32 of these operations.
pub run_ops-frees :
    (os : List Op) (c : ℕ)
    → length os < 2 ^ 32
    → c < (run_ops os empty).next
    → (run_ops os empty).frees c ≡ (if holders c (run_ops os empty).held == 0 then 1 else 0)
run_ops-frees os c few lt = (Sound-run_ops os empty Sound-empty (omega arith)).freed c lt
