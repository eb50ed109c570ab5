-- ===== src/Word.antt =====
-- include/json.h: `intL_t`, which is `int64_t`. A value is its two's complement bit pattern, a
-- number below 2 ^ 64. Overflow, which C++ leaves undefined, wraps as the compilers in use do.
use instant_send.Prelude.{ℕ, ◌+◌, ◌-◌, ◌*◌, ◌/◌, ◌%◌, ◌^◌, ◌<◌, Bool, leb, ltb, if◌then◌else◌}

abbrev pub Int64 : Type 0
Int64 = ℕ

abbrev pub add64 : Int64 → Int64 → Int64
add64 a b = (a + b) % 2 ^ 64

abbrev pub mul64 : Int64 → Int64 → Int64
mul64 a b = (a * b) % 2 ^ 64

abbrev pub neg64 : Int64 → Int64
neg64 a = (2 ^ 64 - a) % 2 ^ 64

abbrev pub is_negative : Int64 → Bool
is_negative a = leb (2 ^ 63) a

-- `a / b` and `a % b` for a positive `b` round towards zero.
abbrev pub div64 : Int64 → ℕ → Int64
div64 a b = if is_negative a then neg64 ((2 ^ 64 - a) / b) else a / b

abbrev pub mod64 : Int64 → ℕ → Int64
mod64 a b = if is_negative a then neg64 ((2 ^ 64 - a) % b) else a % b

-- A bit pattern of 64 bits.
abbrev pub IsInt64 : Int64 → Type 0
IsInt64 a = a < 2 ^ 64

-- `a < b`
abbrev pub signed_ltb : Int64 → Int64 → Bool
signed_ltb a b = ltb ((a + 2 ^ 63) % 2 ^ 64) ((b + 2 ^ 63) % 2 ^ 64)
