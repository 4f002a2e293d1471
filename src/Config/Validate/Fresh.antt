-- ===== src/Config/Validate/Fresh.antt =====
-- Tags that a loop adds to a set as it finds them new, and loops of checks that find no error.
use zakop.Prelude.{◌≡◌, ◌⊎◌, inl, inr, refl, sym, subst, List, [], ◌∷◌, ◌++◌, Option, none}
use zakop.Text.{Str}
use zakop.Config.Clean.{Among, Distinct}
use zakop.Config.Fault.{Fault, <|>_none, check_each}

-- Every element has the property.
abbrev pub Each : {A : Type 0} → (A → Type 0) → List A → Type 0
Each P [] = Unit
Each P (x ∷ xs) = P x × Each P xs

pub Each-map :
    {A : Type 0} (P Q : A → Type 0) (xs : List A) → ((x : A) → P x → Q x) → Each P xs → Each Q xs
Each-map P Q [] f e = tt
Each-map P Q (x ∷ xs) f e = (f x e.0, Each-map P Q xs f e.1)

pub Each-split :
    {A : Type 0} (P : A → Type 0) (xs ys : List A) → Each P (xs ++ ys) → Each P xs × Each P ys
Each-split P [] ys e = (tt, e)
Each-split P (x ∷ xs) ys e = let (f, g) = Each-split P xs ys e.1 in ((e.0, f), g)

pub check_each-Each :
    {A : Type 0} (f : A → Option Fault) (xs : List A)
    → check_each f xs ≡ none
    → Each (λ x. f x ≡ none) xs
unfolding check_each
check_each-Each f [] e = tt
check_each-Each f (x ∷ xs) e =
    let (first, rest) = <|>_none (f x) (check_each f xs) e in (first, check_each-Each f xs rest)

-- None of the tags is in the set, with those in front of it added.
abbrev pub Fresh : List Str → List Str → Type 0
Fresh seen [] = Unit
Fresh seen (x ∷ xs) = (¬ Among x seen) × Fresh (x ∷ seen) xs

-- The set with the tags added, one by one.
abbrev pub onto : List Str → List Str → List Str
onto seen [] = seen
onto seen (x ∷ xs) = onto (x ∷ seen) xs

pub Fresh-append :
    (seen xs ys : List Str) → Fresh seen xs → Fresh (onto seen xs) ys → Fresh seen (xs ++ ys)
Fresh-append seen [] ys f g = g
Fresh-append seen (x ∷ xs) ys f g = (f.0, Fresh-append (x ∷ seen) xs ys f.1 g)

pub onto-append : (seen xs ys : List Str) → onto (onto seen xs) ys ≡ onto seen (xs ++ ys)
onto-append seen [] ys = refl
onto-append seen (x ∷ xs) ys = onto-append (x ∷ seen) xs ys

pub onto-Among : (seen xs : List Str) (x : Str) → Among x (onto seen xs) → Among x xs ⊎ Among x seen
onto-Among seen [] x a = inr a
onto-Among seen (y ∷ ys) x a = elim (onto-Among (y ∷ seen) ys x a) [
  | inl later ↦ inl (inr later)
  | inr (inl same) ↦ inl (inl same)
  | inr (inr old) ↦ inr old
]

Fresh-apart : (seen xs : List Str) (x : Str) → Fresh seen xs → Among x xs → ¬ Among x seen
Fresh-apart seen [] x f nowhere old = nowhere
Fresh-apart seen (y ∷ ys) x f (inl same) old = f.0 (subst (λ z. Among z seen) (sym same) old)
Fresh-apart seen (y ∷ ys) x f (inr later) old = Fresh-apart (y ∷ seen) ys x f.1 later (inr old)

pub Fresh-Distinct : (seen xs : List Str) → Fresh seen xs → Distinct xs
Fresh-Distinct seen [] f = tt
Fresh-Distinct seen (x ∷ xs) f =
    ((λ a. Fresh-apart (x ∷ seen) xs x f.1 a (inl refl)), Fresh-Distinct (x ∷ seen) xs f.1)
