-- ===== src/Json/Result.antt =====
-- include/json.h: what a parser of src/json.cpp ends with.
use instant_send.Prelude.{ℕ, ◌+◌, ◌-◌, ◌%◌, ◌^◌}

-- `out_of_fuel` has no counterpart in the program: the model did not get to the end of the loops.
pub data Result {ℓ} (A : Type ℓ) : Type ℓ where
  ok : A → Result A
  syntax_err : ℕ → Result A
  out_of_fuel : Result A

module _ {ℓ κ} {A : Type ℓ} {B : Type κ} where
  infixl 5 ◌>>=◌
  abbrev pub ◌>>=◌ : Result A → (A → Result B) → Result B
  ok a >>= f = f a
  syntax_err p >>= f = syntax_err p
  out_of_fuel >>= f = out_of_fuel

-- The position of an error is an `int`; this is the bit pattern of `n - 1`, at 0 that of -1.
abbrev pub last_index : ℕ → ℕ
last_index n = (n + 2 ^ 32 - 1) % 2 ^ 32
