-- ===== src/RuleEngine/Matches.antt =====
-- `MatchDomain` against a description of it by relations between texts.
use zakop.Prelude.{
  ◌≡◌, ◌≢◌, ◌↔◌, ◌⊎◌, inl, inr, refl, Bool, true, false, ◌||◌, List, [], ◌∷◌, ◌++◌, arith, ltb,
  length, Bool-cases,
}
use zakop.Text.{Str, str_eq, has_prefix, has_suffix, contains}
use zakop.Text.Match.{
  str_eq_iff, has_prefix→append, has_prefix-append, has_suffix→append, has_suffix-append,
  contains→append, contains-append,
}
use zakop.Config.Types.{Rule}
use zakop.RuleEngine.{
  normalize_domain, match_any_domain, domain_excluded, has_domain_includes, match_domain,
}

-- The four ways in which a name can agree with a pattern.
abbrev pub Same : Str → Str → Type 0
Same name p = name ≡ p

abbrev pub Around : Str → Str → Type 0
Around name p = (a : Str) × (b : Str) × (name ≡ a ++ (p ++ b))

abbrev pub Begins : Str → Str → Type 0
Begins name p = (b : Str) × (name ≡ p ++ b)

abbrev pub Ends : Str → Str → Type 0
Ends name p = (a : Str) × (name ≡ a ++ p)

-- Some pattern of the list, brought into normal form, agrees with the name.
abbrev pub SomePattern : (Str → Str → Type 0) → List Str → Str → Type 0
SomePattern R [] name = ⊥
SomePattern R (p ∷ ps) name = R name (normalize_domain p) ⊎ SomePattern R ps name

abbrev pub Included : Rule → Str → Type 0
Included r name =
    SomePattern Same r.domain_equals name
    ⊎ SomePattern Around r.domain_contains name
    ⊎ SomePattern Begins r.domain_starts_with name
    ⊎ SomePattern Ends r.domain_ends_with name

abbrev pub Excluded : Rule → Str → Type 0
Excluded r name =
    SomePattern Same r.exclude_domain_equals name
    ⊎ SomePattern Around r.exclude_domain_contains name
    ⊎ SomePattern Begins r.exclude_domain_starts_with name
    ⊎ SomePattern Ends r.exclude_domain_ends_with name

match_any_domain_iff :
    (R : Str → Str → Type 0) (fn : Str → Str → Bool) (name : Str)
    → ((p : Str) → (fn name p ≡ true) ↔ R name p)
    → (ps : List Str) → (match_any_domain ps name fn ≡ true) ↔ SomePattern R ps name
unfolding match_any_domain
match_any_domain_iff R fn name h [] = ((λ e. absurd (ground arith)), λ m. absurd m)
match_any_domain_iff R fn name h (p ∷ ps) = elim (Bool-cases (fn name (normalize_domain p))) [
  | inl hit ↦ rw hit ((λ e. inl ((h (normalize_domain p)).0 hit)), λ m. refl)
  | inr miss ↦
      let rest = match_any_domain_iff R fn name h ps in
      rw miss (
        (λ e. inr (rest.0 e)),
        λ m. elim m [
          | inl here ↦ absurd (ground (arith, (h (normalize_domain p)).1 here))
          | inr later ↦ rest.1 later
        ],
      )
]

module _ (name : Str) where
  equals_iff : (ps : List Str) → (match_any_domain ps name str_eq ≡ true) ↔ SomePattern Same ps name
  equals_iff = match_any_domain_iff Same str_eq name (λ p. str_eq_iff name p)

  contains_iff :
      (ps : List Str) → (match_any_domain ps name contains ≡ true) ↔ SomePattern Around ps name
  contains_iff =
      match_any_domain_iff Around contains name
        (λ p. ((λ e. contains→append name p e), λ (a, b, e). rw e (contains-append a p b)))

  starts_iff :
      (ps : List Str) → (match_any_domain ps name has_prefix ≡ true) ↔ SomePattern Begins ps name
  starts_iff =
      match_any_domain_iff Begins has_prefix name
        (λ p. ((λ e. has_prefix→append name p e), λ (b, e). rw e (has_prefix-append p b)))

  Ends-iff :
      (ps : List Str) → (match_any_domain ps name has_suffix ≡ true) ↔ SomePattern Ends ps name
  Ends-iff =
      match_any_domain_iff Ends has_suffix name
        (λ p. ((λ e. has_suffix→append name p e), λ (a, e). rw e (has_suffix-append a p)))

-- A test of four alternatives against the alternatives.
any_of_four :
    {P Q R S : Type 0} (a b c d : Bool)
    → (a ≡ true) ↔ P
    → (b ≡ true) ↔ Q
    → (c ≡ true) ↔ R
    → (d ≡ true) ↔ S
    → ((a || b || c || d) ≡ true) ↔ (P ⊎ Q ⊎ R ⊎ S)
any_of_four true b c d p q r s = ((λ e. inl (p.0 refl)), λ m. refl)
any_of_four false true c d p q r s = ((λ e. inr (inl (q.0 refl))), λ m. refl)
any_of_four false false true d p q r s = ((λ e. inr (inr (inl (r.0 refl)))), λ m. refl)
any_of_four false false false true p q r s = ((λ e. inr (inr (inr (s.0 refl)))), λ m. refl)
any_of_four false false false false p q r s = (
  (λ e. cc),
  elim [
    | inl x ↦ p.1 x
    | inr (inl x) ↦ q.1 x
    | inr (inr (inl x)) ↦ r.1 x
    | inr (inr (inr x)) ↦ s.1 x
  ],
)

domain_excluded_iff : (r : Rule) (name : Str) → (domain_excluded r name ≡ true) ↔ Excluded r name
unfolding domain_excluded
domain_excluded_iff r name =
    any_of_four _ _ _ _ (equals_iff name r.exclude_domain_equals)
      (contains_iff name r.exclude_domain_contains) (starts_iff name r.exclude_domain_starts_with)
      (Ends-iff name r.exclude_domain_ends_with)

Included-iff :
    (r : Rule) (name : Str)
    → ((match_any_domain r.domain_equals name str_eq
          || match_any_domain r.domain_contains name contains
          || match_any_domain r.domain_starts_with name has_prefix
          || match_any_domain r.domain_ends_with name has_suffix)
        ≡ true)
      ↔ Included r name
Included-iff r name =
    any_of_four _ _ _ _ (equals_iff name r.domain_equals) (contains_iff name r.domain_contains)
      (starts_iff name r.domain_starts_with) (Ends-iff name r.domain_ends_with)

SomePattern-pos :
    (R : Str → Str → Type 0) (ps : List Str) (name : Str)
    → SomePattern R ps name
    → ltb 0 (length ps) ≡ true
SomePattern-pos R [] name m = absurd m
SomePattern-pos R (p ∷ ps) name m = ground arith

Included-has_includes : (r : Rule) (name : Str) → Included r name → has_domain_includes r ≡ true
unfolding has_domain_includes
Included-has_includes r name m = elim m [
  | inl x ↦ ground (arith, SomePattern-pos Same r.domain_equals name x)
  | inr (inl x) ↦ ground (arith, SomePattern-pos Around r.domain_contains name x)
  | inr (inr (inl x)) ↦ ground (arith, SomePattern-pos Begins r.domain_starts_with name x)
  | inr (inr (inr x)) ↦ ground (arith, SomePattern-pos Ends r.domain_ends_with name x)
]

-- The rule is enabled, the name is not empty, no exclusion agrees with it and some inclusion does.
pub record Applies (r : Rule) (name : Str) : Type 0 where
  pub is_enabled : r.enabled ≡ true
  pub not_empty : normalize_domain name ≢ []
  pub not_excluded : ¬ Excluded r (normalize_domain name)
  pub included : Included r (normalize_domain name)

-- `MatchDomain` answers true exactly when the rule is enabled, the name is not empty once it is
-- brought into normal form, no exclusion pattern of the rule agrees with it, and some inclusion
-- pattern does: it is equal to the name, stands in it, begins it or ends it, as the list says.
pub match_domain_iff : (r : Rule) (name : Str) → (match_domain r name ≡ true) ↔ Applies r name
unfolding match_domain
match_domain_iff r name = (
  (λ e. record {
    is_enabled = ground arith;
    not_empty = ground (arith, str_eq_iff n []);
    not_excluded = λ x. ground (arith, (domain_excluded_iff r n).1 x);
    included = (Included-iff r n).0 (ground arith);
  }),
  λ a. ground (
    arith,
    a.is_enabled,
    a.not_empty,
    str_eq_iff n [],
    (Included-iff r n).1 a.included,
    Included-has_includes r n a.included,
    not_true (λ e. a.not_excluded ((domain_excluded_iff r n).0 e)),
  ),
)
  where
    n : Str
    n = normalize_domain name

    not_true : ¬ (domain_excluded r n ≡ true) → domain_excluded r n ≡ false
    not_true h = elim (Bool-cases (domain_excluded r n)) [ inl e ↦ absurd (h e) | inr e ↦ e ]
