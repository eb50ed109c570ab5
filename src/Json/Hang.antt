-- ===== src/Json/Hang.antt =====
-- src/json.cpp: `jsonArr_t::fromString` on an array that holds an `n` which does not begin `null`.
use instant_send.Prelude.{ℕ, zero, suc, ◌≡◌, refl, false, ◌∷◌, Bytes, take, codes}
use instant_send.Json.Result.{ok, out_of_fuel}
use instant_send.Json.Float.{FloatOps}
use instant_send.Json.Loader.{bytes_eq, skip_separators, parse_null, load, load_items}
use instant_send.Json.Syntax.{null}

module _ {F : Type 0} (fl : FloatOps F) (s : Bytes) where
  -- `null` is read, and nothing is taken off the string.
  load_bad_null :
      (fuel : ℕ)
      → bytes_eq (take 4 (b'n' ∷ s)) (codes "null") ≡ false
      → load fl (suc fuel) (b'n' ∷ s) ≡ ok (null, b'n' ∷ s)
  unfolding load parse_null
  load_bad_null fuel h = rw h refl

  load_items_bad_null :
      (fuel : ℕ)
      → bytes_eq (take 4 (b'n' ∷ s)) (codes "null") ≡ false
      → load_items fl fuel (b'n' ∷ s) ≡ out_of_fuel
  unfolding load skip_separators
  load_items_bad_null zero h = refl
  load_items_bad_null (suc zero) h = refl
  load_items_bad_null (suc (suc fuel)) h =
      rw (load_items, load_bad_null fuel h, load_items_bad_null (suc fuel) h) refl

  -- An array that begins with an `n` which does not begin `null` is never read to its end: no
  -- amount of fuel makes `loadComponent` return or throw.
  load-bad_null :
      (fuel : ℕ)
      → bytes_eq (take 4 (b'n' ∷ s)) (codes "null") ≡ false
      → load fl fuel (b'[' ∷ b'n' ∷ s) ≡ out_of_fuel
  unfolding load
  load-bad_null zero h = refl
  load-bad_null (suc fuel) h = rw (load, load_items_bad_null fuel h) refl
