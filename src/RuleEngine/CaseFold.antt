-- ===== src/RuleEngine/CaseFold.antt =====
-- The engine does not tell capitals from small letters.
use zakop.Prelude.{
  ℕ, ◌≡◌, refl, sym, ap, ◌∙◌, Bool, true, false, List, [], ◌∷◌, arith, inl, inr, Bool-cases,
}
use zakop.Text.{Str, is_space, lower_rune, to_lower, trim_left, trim_right, trim_space, keep_unless}
use zakop.Config.Types.{Rule}
use zakop.RuleEngine.{normalize_domain, match_domain, domain_decision}

is_space-lower_rune : (c : ℕ) → is_space (lower_rune c) ≡ is_space c
unfolding is_space lower_rune
is_space-lower_rune c = ground arith

trim_left-to_lower : (s : Str) → trim_left is_space (to_lower s) ≡ to_lower (trim_left is_space s)
unfolding trim_left to_lower
trim_left-to_lower [] = refl
trim_left-to_lower (c ∷ s) =
    rw is_space-lower_rune
      (elim (Bool-cases (is_space c)) [ inl e ↦ rw e (trim_left-to_lower s) | inr e ↦ rw e ])

keep_unless-to_lower :
    (b : Bool) (c : ℕ) (s : Str)
    → keep_unless b (lower_rune c) (to_lower s) ≡ to_lower (keep_unless b c s)
unfolding to_lower
keep_unless-to_lower true c [] = refl
keep_unless-to_lower true c (x ∷ s) = refl
keep_unless-to_lower false c s = refl

trim_right-to_lower :
    (s : Str) → trim_right is_space (to_lower s) ≡ to_lower (trim_right is_space s)
unfolding trim_right to_lower
trim_right-to_lower [] = refl
trim_right-to_lower (c ∷ s) =
    rw (is_space-lower_rune, trim_right-to_lower s) (keep_unless-to_lower (is_space c) c _)

lower_rune_idem : (c : ℕ) → lower_rune (lower_rune c) ≡ lower_rune c
unfolding lower_rune
lower_rune_idem c = ground arith

to_lower_idem : (s : Str) → to_lower (to_lower s) ≡ to_lower s
unfolding to_lower
to_lower_idem [] = refl
to_lower_idem (c ∷ s) = rw (lower_rune_idem c, to_lower_idem s)

normalize_domain-to_lower : (s : Str) → normalize_domain (to_lower s) ≡ normalize_domain s
unfolding normalize_domain trim_space
normalize_domain-to_lower s =
    rw (trim_left-to_lower s, trim_right-to_lower (trim_left is_space s), to_lower_idem)

normalize_domain_eq :
    (a b : Str) → to_lower a ≡ to_lower b → normalize_domain a ≡ normalize_domain b
normalize_domain_eq a b e =
    sym (normalize_domain-to_lower a) ∙ ap normalize_domain e ∙ normalize_domain-to_lower b

match_domain_eq :
    (r : Rule) (a b : Str) → to_lower a ≡ to_lower b → match_domain r a ≡ match_domain r b
unfolding match_domain
match_domain_eq r a b e = rw (normalize_domain_eq a b e)

-- Two spellings of a name that differ in capitals only get the same decision from every list of
-- rules.
pub domain_decision_case :
    (rules : List Rule) (a b : Str)
    → to_lower a ≡ to_lower b
    → domain_decision rules a ≡ domain_decision rules b
unfolding domain_decision
domain_decision_case [] a b e = refl
domain_decision_case (r ∷ rs) a b e = rw (match_domain_eq r a b e, domain_decision_case rs a b e)
