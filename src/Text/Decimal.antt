-- ===== src/Text/Decimal.antt =====
-- `strconv.Atoi` reads what `strconv.Itoa` writes.
use zakop.Prelude.{
  ℕ, zero, suc, ◌+◌, ◌*◌, ◌/◌, ◌%◌, ◌^◌, ◌≤◌, ◌<◌, ◌≡◌, ◌≢◌, inl, inr, refl, sym, ap, ◌∙◌, true,
  false, [], ◌∷◌, some, arith, ltb, ◌==◌, Bool-cases,
}
use zakop.Prelude.Int.{pos}
use zakop.Text.{Str}
use zakop.Text.Number.{digits_onto, itoa, digit_value, number_from, number, atoi}

abbrev pub AreDigits : Str → Type 0
AreDigits [] = Unit
AreDigits (c ∷ s) = (b'0' ≤ c) × (c ≤ b'9') × AreDigits s

digit_value-digit : (d : ℕ) → d < 10 → digit_value (b'0' + d) ≡ some d
unfolding digit_value
digit_value-digit d small = ground arith

number_from-digit :
    (a d : ℕ) (s : Str) → d < 10 → number_from 10 a ((b'0' + d) ∷ s) ≡ number_from 10 (a * 10 + d) s
unfolding number_from
number_from-digit a d s small =
    let fits : ltb d 10 ≡ true = ground arith in rw (digit_value-digit d small, number_from, fits)

digits_onto_lem :
    (f n : ℕ) (acc : Str)
    → n < f
    → AreDigits acc
    → (number_from 10 0 (digits_onto f n acc) ≡ number_from 10 n acc)
      × AreDigits (digits_onto f n acc)
      × (digits_onto f n acc ≢ [])
unfolding digits_onto
digits_onto_lem zero n acc less v = absurd (omega arith)
digits_onto_lem (suc f) n acc less v = elim (Bool-cases (ltb n 10)) [
  | inl small ↦
      let below : n < 10 = ground (arith, small) in
      let same : 0 * 10 + n ≡ n = omega arith in
      rw small (
        number_from-digit 0 n acc below ∙ ap (λ k. number_from 10 k acc) same,
        (omega arith, omega arith, v),
        λ e. absurd (ground arith),
      )
  | inr large ↦
      let big : 10 ≤ n = ground (arith, large) in
      let last : n % 10 < 10 = omega arith in
      let back : n / 10 * 10 + n % 10 ≡ n = omega arith in
      let (read, digits, some_digit) =
        digits_onto_lem f (n / 10) ((b'0' + n % 10) ∷ acc) (omega arith)
          (omega arith, omega arith, v) in
      rw large (
        read ∙ number_from-digit (n / 10) (n % 10) acc last ∙ ap (λ k. number_from 10 k acc) back,
        digits,
        some_digit,
      )
]

itoa_lem : (n : ℕ) → (number_from 10 0 (itoa n) ≡ some n) × AreDigits (itoa n) × (itoa n ≢ [])
unfolding itoa number_from
itoa_lem n = digits_onto_lem (n + 1) n [] (omega arith) tt

pub itoa-AreDigits : (n : ℕ) → AreDigits (itoa n) × (itoa n ≢ [])
itoa-AreDigits n = let (_, digits, some_digit) = itoa_lem n in (digits, some_digit)

digits-atoi :
    (s : Str) (n : ℕ)
    → AreDigits s
    → s ≢ []
    → n < 2 ^ 63
    → number_from 10 0 s ≡ some n
    → atoi s ≡ some (pos n)
unfolding atoi number
digits-atoi [] n v some_digit small e = absurd (some_digit refl)
digits-atoi (c ∷ s) n v some_digit small e =
    let minus : (c == b'-') ≡ false = ground arith in
    let plus : (c == b'+') ≡ false = ground arith in
    let fits : ltb n (2 ^ 63) ≡ true = ground arith in rw (minus, plus, e, fits)

-- A number in the range of an `int` is read from its decimal digits.
pub atoi-itoa : (n : ℕ) → n < 2 ^ 63 → atoi (itoa n) ≡ some (pos n)
atoi-itoa n small =
    let (read, digits, some_digit) = itoa_lem n in
    digits-atoi (itoa n) n digits some_digit small read

pub itoa_injective : (m n : ℕ) → itoa m ≡ itoa n → m ≡ n
itoa_injective m n e =
    let (a, _, _) = itoa_lem m in
    let (b, _, _) = itoa_lem n in
    let same : some m ≡ some n = sym a ∙ ap (number_from 10 0) e ∙ b in ground (arith, same)
