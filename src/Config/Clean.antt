-- ===== src/Config/Clean.antt =====
-- What `cleanList` and `cleanDomainList` keep of a list.
use zakop.Prelude.{
  ◌≡◌, ◌≢◌, ◌⊎◌, ◌↔◌, inl, inr, sym, subst, ◌∙◌, true, false, ◌||◌, List, [], ◌∷◌, arith,
  Bool-cases,
}
use zakop.Text.{Str, str_eq}
use zakop.Text.Match.{str_eq_iff}
use zakop.Dict.{contains_text}
use zakop.Config.Lists.{is_empty, clean_from}

abbrev pub Among : Str → List Str → Type 0
Among x [] = ⊥
Among x (y ∷ ys) = (y ≡ x) ⊎ Among x ys

abbrev pub Distinct : List Str → Type 0
Distinct [] = Unit
Distinct (x ∷ xs) = (¬ Among x xs) × Distinct xs

-- One of the values is normalised to this text.
abbrev pub From : (Str → Str) → Str → List Str → Type 0
From norm x [] = ⊥
From norm x (v ∷ vs) = (norm v ≡ x) ⊎ From norm x vs

pub contains_text_iff : (xs : List Str) (s : Str) → (contains_text xs s ≡ true) ↔ Among s xs
unfolding contains_text
contains_text_iff [] s = ground arith
contains_text_iff (x ∷ xs) s = ground (arith, str_eq_iff x s, contains_text_iff xs s)

pub is_empty_iff : (s : Str) → (is_empty s ≡ true) ↔ (s ≡ [])
is_empty_iff [] = ground arith
is_empty_iff (c ∷ s) = ground arith

Among-eq : (x y : Str) (ys : List Str) → x ≡ y → Among x ys → Among y ys
Among-eq x y ys e a = subst (λ z. Among z ys) e a

module _ (norm : Str → Str) where
  -- A value that the loop skips is empty or was seen; one that it keeps is neither.
  skip_cases :
      (seen : List Str) (w : Str)
      → ((is_empty w || contains_text seen w) ≡ true × ((w ≡ []) ⊎ Among w seen))
        ⊎ ((is_empty w || contains_text seen w) ≡ false × (w ≢ []) × (¬ Among w seen))
  skip_cases seen w = ground (arith, is_empty_iff w, contains_text_iff seen w)

  pub clean_from_iff :
      (seen vs : List Str) (x : Str)
      → Among x (clean_from norm seen vs) ↔ ((x ≢ []) × (¬ Among x seen) × From norm x vs)
  unfolding clean_from
  clean_from_iff seen [] x = ground arith
  clean_from_iff seen (v ∷ vs) x = elim (skip_cases seen (norm v)) [
    | inl (skip, why) ↦ rw skip (
        let ih = clean_from_iff seen vs x in
        (
          (λ a. let (n, s, f) = ih.0 a in (n, s, inr f)),
          (λ (n, s, f). ih.1 (n, s, skipped n s why f)),
        ))
    | inr (keep, some_rune, new) ↦ rw keep (
        let ih = clean_from_iff (norm v ∷ seen) vs x in
        (
          (λ a. elim a [
            | inl e ↦
                ((λ z. some_rune (e ∙ z)), (λ b. new (Among-eq x (norm v) seen (sym e) b)), inl e)
            | inr b ↦ let (n, s, f) = ih.0 b in (n, (λ c. s (inr c)), inr f)
          ]),
          (λ (n, s, f). elim (Bool-cases (str_eq (norm v) x)) [
            | inl same ↦ inl ((str_eq_iff (norm v) x).0 same)
            | inr differ ↦ inr (ih.1 (n, (λ c. other s differ c), later differ f))
          ]),
        ))
  ]
    where
      skipped :
          x ≢ []
          → ¬ Among x seen
          → (norm v ≡ []) ⊎ Among (norm v) seen
          → (norm v ≡ x) ⊎ From norm x vs
          → From norm x vs
      skipped n s why (inr f) = f
      skipped n s (inl e) (inl f) = absurd (n (sym f ∙ e))
      skipped n s (inr a) (inl f) = absurd (s (Among-eq (norm v) x seen f a))

      differs : str_eq (norm v) x ≡ false → norm v ≢ x
      differs d e = absurd (ground (arith, d, (str_eq_iff (norm v) x).1 e))

      other : ¬ Among x seen → str_eq (norm v) x ≡ false → ¬ ((norm v ≡ x) ⊎ Among x seen)
      other s d (inl e) = differs d e
      other s d (inr a) = s a

      later : str_eq (norm v) x ≡ false → (norm v ≡ x) ⊎ From norm x vs → From norm x vs
      later d (inl e) = absurd (differs d e)
      later d (inr f) = f
