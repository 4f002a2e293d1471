-- ===== src/Text/Trim.antt =====
-- Trimming a text that is trimmed.
use zakop.Prelude.{ℕ, ◌≡◌, ◌⊎◌, inl, inr, refl, ap, ◌∙◌, Bool, true, false, [], ◌∷◌, Bool-cases}
use zakop.Text.{Str, is_space, trim_left, trim_right, keep_unless, trim_space}

module _ (p : ℕ → Bool) where
  trim_left_cases :
      (s : Str)
      → (trim_left p s ≡ []) ⊎ ((c : ℕ) × (rest : Str) × (trim_left p s ≡ c ∷ rest) × (p c ≡ false))
  unfolding trim_left
  trim_left_cases [] = inl refl
  trim_left_cases (c ∷ s) = elim (Bool-cases (p c)) [
    | inl blank ↦ rw blank (trim_left_cases s)
    | inr first ↦ inr (c, s, rw first refl, first)
  ]

  keep-trim :
      (b : Bool) (c : ℕ) (r : Str)
      → p c ≡ b
      → trim_right p r ≡ r
      → trim_right p (keep_unless b c r) ≡ keep_unless b c r
  unfolding trim_right
  keep-trim true c [] e ih = refl
  keep-trim true c (x ∷ s) e ih = rw (e, ih) refl
  keep-trim false c r e ih = rw (e, ih) refl

  trim_right_again : (s : Str) → trim_right p (trim_right p s) ≡ trim_right p s
  unfolding trim_right
  trim_right_again [] = refl
  trim_right_again (c ∷ s) = keep-trim (p c) c (trim_right p s) refl (trim_right_again s)

  trim_left-trim_right :
      (c : ℕ) (s : Str) → p c ≡ false → trim_left p (trim_right p (c ∷ s)) ≡ trim_right p (c ∷ s)
  unfolding trim_left trim_right
  trim_left-trim_right c s e = rw e (rw e refl)

  trim_again :
      (s : Str)
      → trim_right p (trim_left p (trim_right p (trim_left p s))) ≡ trim_right p (trim_left p s)
  unfolding trim_right trim_left
  trim_again s = elim (trim_left_cases s) [
    | inl e ↦ rw e refl
    | inr (c, rest, e, first) ↦
        rw e (ap (trim_right p) (trim_left-trim_right c rest first) ∙ trim_right_again (c ∷ rest))
  ]

-- Trimming spaces again changes nothing.
pub trim_space_again : (s : Str) → trim_space (trim_space s) ≡ trim_space s
unfolding trim_space
trim_space_again s = trim_again is_space s
