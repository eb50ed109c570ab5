-- ===== src/Json/Printer/Plain.antt =====
-- src/json.cpp: printed values hold no NUL, so that they pass through C strings.
use instant_send.Prelude.{
  ℕ, zero, suc, ◌^◌, ◌<◌, ◌≢◌, [], ◌∷◌, ◌++◌, List, arith, ◌==◌, Bytes, Bool-cases, inl, inr, codes,
}
use instant_send.Word.{Int64, IsInt64, is_negative, mul64, neg64}
use instant_send.CString.{NoNul, NoNul-append}
use instant_send.Json.Int.{print_int, print_digits}
use instant_send.Json.Text.{escape, escape_onto, print_str}
use instant_send.Json.Syntax.{
  Json, Items, Fields, int, float, str, bool, null, arr, obj, no_items, item, no_fields, field,
}
use instant_send.Json.Float.{FloatOps}
use instant_send.Json.Printer.{print, print_items, print_fields, bracket}
use instant_send.Json.Printer.Bracket.{listed, bracket_nil, bracket_cons}
use instant_send.Json.Printable.{IsPrintable, ArePrintable, FieldsPrintable}

print_digits-NoNul :
    (room : ℕ) (n : Int64) (done : Bytes)
    → n < 2 ^ 63
    → NoNul done
    → NoNul (print_digits room n done)
unfolding print_digits
print_digits-NoNul zero n done small h = h
print_digits-NoNul (suc room) n done small h = elim (Bool-cases (n == 0)) [
  | inl e ↦ rw e h
  | inr e ↦ rw e (print_digits-NoNul room _ _ (ground arith) (ground arith, h))
]

pub print_int-NoNul : (n : Int64) → IsInt64 n → n ≢ 2 ^ 63 → NoNul (print_int n)
unfolding print_int
print_int-NoNul n h ne = elim (Bool-cases (n == 0)) [
  | inl e ↦ rw e (omega arith, tt)
  | inr e ↦ elim (Bool-cases (is_negative n)) [
    | inl neg ↦
        rw (e, neg) (omega arith, print_digits-NoNul 25 (mul64 n (neg64 1)) [] (ground arith) tt)
    | inr pos ↦ rw (e, pos) (print_digits-NoNul 25 n [] (ground arith) tt)
  ]
]

escape-NoNul : (c : ℕ) → c ≢ 0 → NoNul (escape c)
unfolding escape
escape-NoNul c h = ground arith

escape_onto-NoNul : (res s : Bytes) → NoNul res → NoNul s → NoNul (escape_onto res s)
unfolding escape_onto
escape_onto-NoNul res [] h k = h
escape_onto-NoNul res (c ∷ s) h k =
    escape_onto-NoNul (res ++ escape c) s (NoNul-append res (escape c) h (escape-NoNul c k.0)) k.1

pub print_str-NoNul : (s : Bytes) → NoNul s → NoNul (print_str s)
unfolding print_str
print_str-NoNul s h =
    NoNul-append _ (b'"' ∷ []) (escape_onto-NoNul (b'"' ∷ []) s (omega arith, tt) h)
      (omega arith, tt)

abbrev AllNoNul : List Bytes → Type 0
AllNoNul [] = Unit
AllNoNul (t ∷ ts) = NoNul t × AllNoNul ts

listed-NoNul : (ts : List Bytes) → AllNoNul ts → NoNul (listed ts)
listed-NoNul [] h = tt
listed-NoNul (t ∷ ts) h =
    NoNul-append (codes ", ") (t ++ listed ts) (ground arith)
      (NoNul-append t (listed ts) h.0 (listed-NoNul ts h.1))

bracket-NoNul : (o c : ℕ) (ts : List Bytes) → o ≢ 0 → c ≢ 0 → AllNoNul ts → NoNul (bracket o c ts)
bracket-NoNul o c [] ho hc h = rw bracket_nil (ho, (hc, tt))
bracket-NoNul o c (t ∷ ts) ho hc h =
    rw bracket_cons
      (ho, NoNul-append t _ h.0 (NoNul-append (listed ts) (c ∷ []) (listed-NoNul ts h.1) (hc, tt)))

module _ {F : Type 0} (fl : FloatOps F) where
  entry-NoNul :
      (k text : Bytes) → NoNul k → NoNul text → NoNul (print_str k ++ (codes " : " ++ text))
  entry-NoNul k text h t =
      NoNul-append (print_str k) (codes " : " ++ text) (print_str-NoNul k h)
        (NoNul-append (codes " : ") text (ground arith) t)

  abbrev Plain : Json F → Type 0
  Plain v = IsPrintable v → NoNul (print fl v)

  abbrev PlainItems : Items F → Type 0
  PlainItems xs = ArePrintable xs → AllNoNul (print_items fl xs)

  abbrev PlainFields : Fields F → Type 0
  PlainFields m = FieldsPrintable m → AllNoNul (print_fields fl m)

  -- A value that can be printed and read back is printed with no NUL.
  pub print-NoNul : (v : Json F) → Plain v
  unfolding print IsPrintable
  print-NoNul v = elim v as Plain PlainItems PlainFields [
    | int n ↦ λ p. print_int-NoNul n p.0 p.1
    | float x ↦ λ p. absurd p
    | str s ↦ λ p. print_str-NoNul s p
    | bool b ↦ λ p. ground arith
    | null ↦ λ p. ground arith
    | arr (xs → ih) ↦
        λ p. bracket-NoNul b'[' b']' (print_items fl xs) (omega arith) (omega arith) (ih p)
    | obj (m → ih) ↦
        λ p. bracket-NoNul b'{' b'}' (print_fields fl m) (omega arith) (omega arith) (ih p)
    | no_items ↦ λ p. tt
    | item (w → ih) (xs → ihs) ↦ λ p. (ih p.0, ihs p.1)
    | no_fields ↦ λ p. tt
    | field k (w → ih) (m → ihs) ↦ λ p. (entry-NoNul k (print fl w) p.0 (ih p.1), ihs p.3)
  ]
