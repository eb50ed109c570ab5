-- ===== src/Json/Cast.antt =====
-- include/json.h: how the rest of the program takes values apart: `dynamic_cast`, `gie`, and the
-- constructor of `jsonObj_t` from a string.
use instant_send.Prelude.{ℕ, Bytes, ◌==◌, if◌then◌else◌, first_byte}
use instant_send.Word.{Int64}
use instant_send.Json.Result.{Result, ok, syntax_err, out_of_fuel}
use instant_send.Json.Float.{FloatOps}
use instant_send.Json.Loader.{cfg_read_str}
use instant_send.Json.Object.{gie, found, not_exist}
use instant_send.Json.Syntax.{Json, Items, Fields, int, str, arr, obj}

-- `jsonSyntaxErr`, `jsonNotExist`, `std::bad_cast`, and `std::runtime_error` with its text.
pub data Thrown : Type 0 where
  bad_syntax : ℕ → Thrown
  missing : Bytes → Thrown
  bad_cast : Thrown
  runtime : Bytes → Thrown

-- `endless` is a text that is never read to its end.
pub data Attempt {ℓ} (A : Type ℓ) : Type ℓ where
  value : A → Attempt A
  raised : Thrown → Attempt A
  endless : Attempt A

module _ {ℓ κ} {A : Type ℓ} {B : Type κ} where
  infixl 5 ◌>>=◌
  abbrev pub ◌>>=◌ : Attempt A → (A → Attempt B) → Attempt B
  value a >>= f = f a
  raised e >>= f = raised e
  endless >>= f = endless

abbrev pub attempt {ℓ} : {A : Type ℓ} → Result A → Attempt A
attempt (ok a) = value a
attempt (syntax_err p) = raised (bad_syntax p)
attempt out_of_fuel = endless

module _ {F : Type 0} where
  abbrev pub as_obj : Json F → Attempt (Fields F)
  as_obj (obj m) = value m
  as_obj _ = raised bad_cast

  abbrev pub as_arr : Json F → Attempt (Items F)
  as_arr (arr xs) = value xs
  as_arr _ = raised bad_cast

  abbrev pub as_str : Json F → Attempt Bytes
  as_str (str s) = value s
  as_str _ = raised bad_cast

  abbrev pub as_int : Json F → Attempt Int64
  as_int (int n) = value n
  as_int _ = raised bad_cast

  -- `o.gie(key)`
  unfoldable pub member : Bytes → Fields F → Attempt (Json F)
  member key m = elim (gie key m) [ found v ↦ value v | not_exist k ↦ raised (missing k) ]

  as_object : Json F → Result (Fields F)
  as_object (obj m) = ok m
  as_object _ = syntax_err 0

module _ {F : Type 0} (fl : FloatOps F) where
  -- `jsonObj_t(&s)`
  unfoldable pub read_object : Bytes → Result (Fields F)
  unfolding as_object
  read_object s =
      let object : Result (Fields F) = elim (cfg_read_str fl s) [
        | ok v ↦ as_object v
        | syntax_err p ↦ syntax_err p
        | out_of_fuel ↦ out_of_fuel
      ] in
      if first_byte s == b'{' then object else syntax_err 0
