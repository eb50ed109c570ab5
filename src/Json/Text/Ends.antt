-- ===== src/Json/Text/Ends.antt =====
-- src/json.cpp: the loop of `jsonStr_t::fromString` comes to an end on every input.
use instant_send.Prelude.{
  ℕ, zero, suc, ◌≤◌, ◌<◌, [], ◌∷◌, ◌++◌, arith, Bytes, length, length-drop, Bool-cases, ◌==◌, inl,
  inr,
}
use instant_send.Json.Result.{Result, ok, syntax_err, out_of_fuel}
use instant_send.Json.CodePoint.{unicode_hex_to_int}
use instant_send.Json.Text.{Round, stop, throw, append, unicode, round, scan, parse_str}

-- A round takes at least one byte off the string.
abbrev Advances : ℕ → Round → Type 0
Advances n (stop rest) = length rest < n
Advances n (throw p) = Unit
Advances n (append bytes rest) = length rest < n

unicode-Advances : (rest : Bytes) → Advances (suc (suc (length rest))) (unicode rest)
unfolding unicode unicode_hex_to_int
unicode-Advances rest = ground (arith, length-drop 4 rest)

round-Advances : (n : ℕ) (str : Bytes) → Advances (length str) (round n str)
unfolding round
round-Advances n [] = tt
round-Advances n (c ∷ []) = ground arith
round-Advances n (c ∷ d ∷ rest) = ground (arith, unicode-Advances rest)

-- The loop ends within its fuel, and leaves less than it got.
abbrev pub EndsBelow {ℓ} : {A : Type ℓ} → ℕ → Result (A × Bytes) → Type 0
EndsBelow n (ok (a, rest)) = length rest < n
EndsBelow n (syntax_err p) = Unit
EndsBelow n out_of_fuel = ⊥

pub EndsBelow-mono {ℓ} :
    {A : Type ℓ} {m n : ℕ} (r : Result (A × Bytes)) → m ≤ n → EndsBelow m r → EndsBelow n r
EndsBelow-mono (ok (a, rest)) le h = omega arith
EndsBelow-mono (syntax_err p) le h = tt
EndsBelow-mono out_of_fuel le h = h

scan-EndsBelow :
    (fuel n : ℕ) (res str : Bytes)
    → length str < fuel
    → EndsBelow (length str) (scan fuel n res str)
unfolding scan
scan-EndsBelow zero n res str h = absurd (omega arith)
scan-EndsBelow (suc fuel) n res str h =
    (elim (round n str)
        as (λ r.
          Advances (length str) r
          → EndsBelow (length str) (elim r [
            | stop rest ↦ ok (res, rest)
            | throw p ↦ syntax_err p
            | append bytes rest ↦ scan fuel n (res ++ bytes) rest
          ])) [
            | stop rest ↦ λ shorter. shorter
            | throw p ↦ λ _. tt
            | append bytes rest ↦ λ shorter.
                EndsBelow-mono _ (omega arith)
                  (scan-EndsBelow fuel n (res ++ bytes) rest (omega arith))
          ])
      (round-Advances n str)

-- On every input `jsonStr_t::fromString` returns or throws, and what it leaves is shorter.
pub parse_str-EndsBelow : (str : Bytes) → EndsBelow (length str) (parse_str str)
unfolding parse_str
parse_str-EndsBelow [] = tt
parse_str-EndsBelow (c ∷ cs) = elim (Bool-cases (c == b'"')) [
  | inl e ↦
      rw e (EndsBelow-mono _ (omega arith) (scan-EndsBelow (suc (length cs)) _ [] cs (omega arith)))
  | inr e ↦ rw e tt
]
