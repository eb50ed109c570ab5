-- ===== src/Json/Int/RoundTrip.antt =====
-- src/json.cpp: `parseInt` after `jsonInt_t::toString`.
use native.Mathlib.Nat.{pow-suc}
use native.Mathlib.Decide.{dec_lt}
use instant_send.Prelude.{
  ℕ, zero, suc, ◌+◌, ◌-◌, ◌/◌, ◌%◌, ◌^◌, ◌≤◌, ◌<◌, ◌≡◌, ◌≢◌, refl, ◌∙◌, true, false, [], ◌∷◌, ◌++◌,
  arith, ◌==◌, inl, inr, Bytes, first_byte, length, Bool-cases, ap,
}
use instant_send.Word.{Int64, IsInt64, mul64, neg64, div64, mod64}
use instant_send.Json.Int.{
  starts_int, is_digit, parse_digits, parse_int, print_digits, print_int, buffer_size,
}

-- One digit, read back.
parse_digits_step :
    (n : ℕ) (done : Bytes)
    → n < 2 ^ 63
    → parse_digits (n / 10) ((b'0' + n % 10) % 256 ∷ done) ≡ parse_digits n done
unfolding parse_digits
parse_digits_step n done small = ground (arith)

-- Below 2 ^ 63 the C++ division is that of the numbers.
div64-eq : (n : ℕ) → n < 2 ^ 63 → div64 n 10 ≡ n / 10
div64-eq n small = ground arith

mod64-eq : (n : ℕ) → n < 2 ^ 63 → mod64 n 10 ≡ n % 10
mod64-eq n small = ground arith

parse_digits-print_digits :
    (room n : ℕ) (done : Bytes)
    → n < 2 ^ 63
    → n < 10 ^ room
    → parse_digits 0 (print_digits room n done) ≡ parse_digits n done
unfolding print_digits
parse_digits-print_digits zero n done small fits = ap (λ v. parse_digits v done) (omega arith)
parse_digits-print_digits (suc room) n done small fits = elim (Bool-cases (n == 0)) [
  | inl e ↦ ground arith
  | inr e ↦
      rw (e, div64-eq n small, mod64-eq n small)
        (parse_digits-print_digits room (n / 10) _ (omega arith) (omega (arith, pow-suc 10 room))
          ∙ parse_digits_step n done small)
]

-- What stops `parseInt`.
abbrev pub EndsDigits : Bytes → Type 0
EndsDigits rest = is_digit (first_byte rest) ≡ false

parse_digits-EndsDigits : (v : ℕ) (rest : Bytes) → EndsDigits rest → parse_digits v rest ≡ (v, rest)
unfolding parse_digits
parse_digits-EndsDigits v [] h = refl
parse_digits-EndsDigits v (c ∷ cs) h = rw h refl

print_digits-append :
    (room n : ℕ) (done rest : Bytes)
    → print_digits room n done ++ rest ≡ print_digits room n (done ++ rest)
unfolding print_digits
print_digits-append zero n done rest = refl
print_digits-append (suc room) n done rest = elim (Bool-cases (n == 0)) [
  | inl e ↦ rw e refl
  | inr e ↦ rw e (print_digits-append room _ _ rest)
]

-- What is written in front of a digit begins with a digit.
first_byte-print_digits :
    (room n : ℕ) (done : Bytes)
    → n < 2 ^ 63
    → is_digit (first_byte done) ≡ true
    → is_digit (first_byte (print_digits room n done)) ≡ true
unfolding print_digits
first_byte-print_digits zero n done small h = h
first_byte-print_digits (suc room) n done small h =
    ground (arith, first_byte-print_digits room (n / 10) ((b'0' + n % 10) % 256 ∷ done))

length-print_digits :
    (room n k : ℕ) (done : Bytes)
    → n < 2 ^ 63
    → n < 10 ^ k
    → length (print_digits room n done) ≤ k + length done
unfolding print_digits
length-print_digits zero n k done small fits = omega arith
length-print_digits (suc room) n zero done small fits = ground arith
length-print_digits (suc room) n (suc k) done small fits = elim (Bool-cases (n == 0)) [
  | inl e ↦ rw e (omega arith)
  | inr e ↦
      rw (e, div64-eq n small)
        (omega (
          arith,
          pow-suc 10 k,
          length-print_digits room (n / 10) k ((b'0' + mod64 n 10) % 256 ∷ done),
        ))
]

first_byte-print_digits-suc :
    (room n : ℕ) → 0 < n → n < 2 ^ 63 → is_digit (first_byte (print_digits (suc room) n [])) ≡ true
unfolding print_digits
first_byte-print_digits-suc room n pos small =
    ground (arith, first_byte-print_digits room (n / 10) ((b'0' + n % 10) % 256 ∷ []))

parse_digits-written :
    (n : ℕ) (rest : Bytes)
    → n < 2 ^ 63
    → EndsDigits rest
    → parse_digits 0 (print_digits buffer_size n [] ++ rest) ≡ (n, rest)
parse_digits-written n rest small h =
    rw print_digits-append
      (parse_digits-print_digits 25 n rest small (omega arith) ∙ parse_digits-EndsDigits n rest h)

first_byte-append :
    (str rest : Bytes)
    → is_digit (first_byte str) ≡ true
    → first_byte (str ++ rest) ≡ first_byte str
first_byte-append [] rest h = cc
first_byte-append (c ∷ str) rest h = refl

-- A text that begins with a digit is read from there; after a `-` the value is negated.
parse_int_unsigned :
    (str : Bytes) → is_digit (first_byte str) ≡ true → parse_int str ≡ parse_digits 0 str
unfolding parse_int
parse_int_unsigned str h = ground arith

parse_int_negated :
    (str : Bytes) → parse_int (b'-' ∷ str) ≡ (neg64 (parse_digits 0 str).0, (parse_digits 0 str).1)
unfolding parse_int
parse_int_negated str = refl

print_int_pos : (v : Int64) → 0 < v → v < 2 ^ 63 → print_int v ≡ print_digits buffer_size v []
unfolding print_int
print_int_pos v pos small = ground arith

print_int_neg :
    (v : Int64)
    → 2 ^ 63 < v
    → IsInt64 v
    → print_int v ≡ b'-' ∷ print_digits buffer_size (2 ^ 64 - v) []
unfolding print_int
print_int_neg v neg h = let e : mul64 v (neg64 1) ≡ 2 ^ 64 - v = omega arith in rw e (ground arith)

parse_int-print_int_zero :
    (rest : Bytes) → EndsDigits rest → parse_int (print_int 0 ++ rest) ≡ (0, rest)
unfolding print_int
parse_int-print_int_zero rest ends =
    parse_int_unsigned (b'0' ∷ rest) refl
    ∙ unfold parse_digits in parse_digits-EndsDigits 0 rest ends

parse_int-print_int_pos :
    (v : Int64) (rest : Bytes)
    → 0 < v
    → v < 2 ^ 63
    → EndsDigits rest
    → parse_int (print_int v ++ rest) ≡ (v, rest)
parse_int-print_int_pos v rest pos small ends =
    let digit = first_byte-print_digits-suc 24 v pos small in
    rw (print_int_pos v pos small) (
      parse_int_unsigned (print_digits buffer_size v [] ++ rest)
        (rw (first_byte-append _ rest digit) digit)
      ∙ parse_digits-written v rest small ends)

parse_int-print_int_neg :
    (v : Int64) (rest : Bytes)
    → 2 ^ 63 < v
    → IsInt64 v
    → EndsDigits rest
    → parse_int (print_int v ++ rest) ≡ (v, rest)
parse_int-print_int_neg v rest neg h ends =
    let e : neg64 (2 ^ 64 - v) ≡ v = omega arith in
    rw
      (
        print_int_neg v neg h,
        parse_int_negated,
        parse_digits-written (2 ^ 64 - v) rest (omega arith) ends,
        e,
      )
      refl

-- The values that have an opposite: 0, the positive and the negative ones.
data Signed (v : Int64) : Type 0 where
  is_zero : v ≡ 0 → Signed v
  is_pos : 0 < v → v < 2 ^ 63 → Signed v
  is_neg : 2 ^ 63 < v → Signed v

Signed-cases : (v : Int64) → v ≢ 2 ^ 63 → Signed v
Signed-cases zero ne = is_zero refl
Signed-cases (suc n) ne = elim (dec_lt (suc n) (2 ^ 63)) [
  | yes small ↦ is_pos (omega arith) small
  | no large ↦ is_neg (omega arith)
]

-- `parseInt` reads back what `jsonInt_t::toString` wrote, for every value but -2^63, and leaves the
-- text that follows if that does not begin with a digit.
pub parse_int-print_int :
    (v : Int64) (rest : Bytes)
    → IsInt64 v
    → v ≢ 2 ^ 63
    → EndsDigits rest
    → parse_int (print_int v ++ rest) ≡ (v, rest)
parse_int-print_int v rest h ne ends = elim (Signed-cases v ne) [
  | is_zero e ↦ rw e (parse_int-print_int_zero rest ends)
  | is_pos pos small ↦ parse_int-print_int_pos v rest pos small ends
  | is_neg neg ↦ parse_int-print_int_neg v rest neg h ends
]

-- The text of every value but -2^63 has 20 bytes at most, so that it fits the buffer of 26 bytes
-- with its terminating NUL.
pub length-print_int : (v : Int64) → IsInt64 v → v ≢ 2 ^ 63 → length (print_int v) ≤ 20
length-print_int v h ne = elim (Signed-cases v ne) [
  | is_zero e ↦ rw e (unfold print_int in omega arith)
  | is_pos pos small ↦
      rw (print_int_pos v pos small) (omega (arith, length-print_digits 25 v 19 []))
  | is_neg neg ↦
      rw (print_int_neg v neg h) (omega (arith, length-print_digits 25 (2 ^ 64 - v) 19 []))
]

-- The sign of a printed value, and its first digit.
pub first_byte-print_int :
    (v : Int64) (rest : Bytes)
    → IsInt64 v
    → v ≢ 2 ^ 63
    → starts_int (first_byte (print_int v ++ rest)) ≡ true
first_byte-print_int v rest h ne = elim (Signed-cases v ne) [
  | is_zero e ↦ rw e (unfold print_int in refl)
  | is_pos pos small ↦
      let digit = first_byte-print_digits-suc 24 v pos small in
      rw (print_int_pos v pos small, first_byte-append _ rest digit) (ground arith)
  | is_neg neg ↦ rw (print_int_neg v neg h) refl
]
