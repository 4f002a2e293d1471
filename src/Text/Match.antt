-- ===== src/Text/Match.antt =====
-- What equality, prefix, suffix and containment of strings mean.
use zakop.Prelude.{
  ℕ, zero, suc, ◌-◌, ◌≤◌, ◌≡◌, ◌≢◌, ◌↔◌, inl, inr, refl, ap, true, false, [], ◌∷◌, ◌++◌, arith, leb,
  Bool-cases, length, drop, length-append,
}
use zakop.Text.{Str, str_eq, has_prefix, has_suffix, contains}

pub str_eq_iff : (a b : Str) → (str_eq a b ≡ true) ↔ (a ≡ b)
unfolding str_eq
str_eq_iff [] [] = ground arith
str_eq_iff [] (y ∷ b) = ground arith
str_eq_iff (x ∷ a) [] = ground arith
str_eq_iff (x ∷ a) (y ∷ b) = ground (arith, str_eq_iff a b)

pub str_eq_refl : (a : Str) → str_eq a a ≡ true
str_eq_refl a = (str_eq_iff a a).1 refl

pub str_eq-false : (a b : Str) → a ≢ b → str_eq a b ≡ false
str_eq-false a b ne = ground (arith, str_eq_iff a b)

pub has_prefix→append : (s p : Str) → has_prefix s p ≡ true → (t : Str) × (s ≡ p ++ t)
unfolding has_prefix
has_prefix→append s [] h = (s, refl)
has_prefix→append [] (x ∷ p) h = absurd (ground arith)
has_prefix→append (c ∷ s) (x ∷ p) h =
    let (t, e) = has_prefix→append s p (ground arith) in
    let same : c ≡ x = ground arith in (t, ground arith)

pub has_prefix-append : (p t : Str) → has_prefix (p ++ t) p ≡ true
unfolding has_prefix
has_prefix-append [] t = refl
has_prefix-append (x ∷ p) t = ground (arith, has_prefix-append p t)

drop-append : (a b : Str) → drop (length a) (a ++ b) ≡ b
drop-append [] b = refl
drop-append (x ∷ a) b = drop-append a b

split_at : (n : ℕ) (s : Str) → n ≤ length s → (a : Str) × (s ≡ a ++ drop n s)
split_at zero s h = ([], refl)
split_at (suc n) [] h = absurd (omega arith)
split_at (suc n) (x ∷ s) h = let (a, e) = split_at n s (omega arith) in (x ∷ a, ap (◌∷◌ x) e)

pub has_suffix→append : (s p : Str) → has_suffix s p ≡ true → (a : Str) × (s ≡ a ++ p)
unfolding has_suffix
has_suffix→append s p h =
    let (a, e) = split_at (length s - length p) s (omega arith) in
    (a, ground (arith, str_eq_iff (drop (length s - length p) s) p))

pub has_suffix-append : (a p : Str) → has_suffix (a ++ p) p ≡ true
unfolding has_suffix
has_suffix-append a p =
    let e : length (a ++ p) - length p ≡ length a = omega (arith, length-append a p) in
    let fits : leb (length p) (length (a ++ p)) ≡ true = ground (arith, length-append a p) in
    rw (e, drop-append a p, str_eq_refl p, fits)

pub contains→append :
    (s p : Str) → contains s p ≡ true → (a : Str) × (b : Str) × (s ≡ a ++ (p ++ b))
unfolding contains
contains→append [] p h = let (b, e) = has_prefix→append [] p h in ([], b, e)
contains→append (c ∷ s) p h = elim (Bool-cases (has_prefix (c ∷ s) p)) [
  | inl here ↦ let (b, e) = has_prefix→append (c ∷ s) p here in ([], b, e)
  | inr later ↦ let (a, b, e) = contains→append s p (ground arith) in (c ∷ a, b, ap (◌∷◌ c) e)
]

pub contains-append : (a p b : Str) → contains (a ++ (p ++ b)) p ≡ true
unfolding contains
contains-append [] [] [] = refl
contains-append [] [] (y ∷ b) = refl
contains-append [] (x ∷ p) b = ground (arith, has_prefix-append (x ∷ p) b)
contains-append (c ∷ a) p b = ground (arith, contains-append a p b)
