-- ===== src/Config/Trimmed.antt =====
-- The tags of the outbounds that `Parse` makes have no spaces around them.
use Prim.Native.String.{String}
use zakop.Prelude.{
  ◌≡◌, inl, inr, refl, sym, ap, ◌∙◌, subst, Bool, true, false, List, [], ◌∷◌, ◌++◌, Bool-cases,
  Option-cases, arith, if◌then◌else◌, none,
}
use zakop.Text.{Str, codes, str_eq, trim_space}
use zakop.Text.Trim.{trim_space_again}
use zakop.Config.Types.{Config, Outbound}
use zakop.Config.Uci.{Section, parse_sections}
use zakop.Config.Access.{enabled_custom_outbounds}
use zakop.Config.Lists.{is_empty}
use zakop.Config.ParseOutbound.{parse_outbound}
use zakop.Config.Parse.{
  defaults, add_section, add_sections, first_custom, assign_first_custom_outbound, config_of,
}
use zakop.Config.Validate.{validate, Parsed, parsed, checked, parse}
use zakop.Config.Validate.Fresh.{Each}

abbrev pub IsTrimmed : Outbound → Type 0
IsTrimmed o = trim_space o.tag ≡ o.tag

parse_outbound-IsTrimmed : (s : Section) → IsTrimmed (parse_outbound s)
unfolding parse_outbound
parse_outbound-IsTrimmed s = trim_space_again _

Each-append_one :
    {A : Type 0} (P : A → Type 0) (xs : List A) (y : A) → Each P xs → P y → Each P (xs ++ (y ∷ []))
Each-append_one P [] y e f = (f, tt)
Each-append_one P (x ∷ xs) y e f = (e.0, Each-append_one P xs y e.1 f)

abbrev AllTrimmed : Config → Type 0
AllTrimmed cfg = Each IsTrimmed cfg.outbounds

abbrev has_type : Section → String → Bool
has_type s word = str_eq s.type (codes word)

either : {A : Type 0} (P : A → Type 0) (b : Bool) (x y : A) → P x → P y → P (if b then x else y)
either P true x y e f = e
either P false x y e f = f

add_section-AllTrimmed :
    (cfg : Config) (s : Section) → AllTrimmed cfg → AllTrimmed (add_section cfg s)
unfolding add_section
add_section-AllTrimmed cfg s e = elim (Bool-cases (has_type s "main")) [
  | inl y ↦ rw y e
  | inr n ↦ rw n (elim (Bool-cases (has_type s "client")) [
    | inl y ↦ rw y e
    | inr n ↦ rw n (elim (Bool-cases (has_type s "rule")) [
      | inl y ↦ rw y e
      | inr n ↦ rw n (elim (Bool-cases (has_type s "provider")) [
        | inl y ↦ rw y e
        | inr n ↦ rw n (elim (Bool-cases (has_type s "outbound")) [
          | inl y ↦ rw y (
              Each-append_one IsTrimmed cfg.outbounds (parse_outbound s) e
                (parse_outbound-IsTrimmed s))
          | inr n ↦ rw n (elim (Bool-cases (has_type s "outbound_pool")) [
            | inl y ↦ rw y e
            | inr n ↦
                rw n (elim (Bool-cases (has_type s "subscription")) [
                  | inl y ↦ rw y e
                  | inr n ↦ rw n e
                ])
          ])
        ])
      ])
    ])
  ])
]

add_sections-AllTrimmed :
    (cfg : Config) (ss : List Section) → AllTrimmed cfg → AllTrimmed (add_sections cfg ss)
unfolding add_sections
add_sections-AllTrimmed cfg [] e = e
add_sections-AllTrimmed cfg (s ∷ ss) e =
    add_sections-AllTrimmed (add_section cfg s) ss (add_section-AllTrimmed cfg s e)

config_of-outbounds :
    (sections : List Section)
    → (config_of sections).outbounds ≡ (add_sections defaults sections).outbounds
unfolding config_of assign_first_custom_outbound
config_of-outbounds sections =
    either (λ (cfg : Config). cfg.outbounds ≡ (add_sections defaults sections).outbounds)
      (is_empty (first_custom (enabled_custom_outbounds (add_sections defaults sections)))) _ _ refl
      refl

config_of-AllTrimmed : (sections : List Section) → Each IsTrimmed (config_of sections).outbounds
unfolding defaults
config_of-AllTrimmed sections =
    subst (Each IsTrimmed) (sym (config_of-outbounds sections))
      (add_sections-AllTrimmed defaults sections tt)

checked-parsed : (made c : Config) → checked made ≡ parsed c → (made ≡ c) × (validate made ≡ none)
unfolding checked
checked-parsed made c e = elim (Option-cases (validate made)) [
  | inl accepted ↦
      let same : parsed made ≡ parsed c = sym (rw (accepted, checked) refl) ∙ e in
      (ap config_in same, accepted)
  | inr (error, rejected) ↦ absurd (ground (arith, rejected, e))
]
  where
    config_in : Parsed → Config
    config_in (parsed x) = x
    config_in _ = made

-- What `Parse` returns comes out of the sections, and `Validate` has accepted it.
pub parse-AllTrimmed :
    (text : Str) (c : Config)
    → parse text ≡ parsed c
    → (validate c ≡ none) × Each IsTrimmed c.outbounds
unfolding parse
parse-AllTrimmed text c e = elim (Option-cases (parse_sections text)) [
  | inl bad ↦ absurd (ground (arith, bad, e))
  | inr (sections, good) ↦
      let same : checked (config_of sections) ≡ parsed c = sym (rw (good, parse) refl) ∙ e in
      let (made, accepted) = checked-parsed (config_of sections) c same in
      (
        subst (λ x. validate x ≡ none) made accepted,
        subst (λ x. Each IsTrimmed x.outbounds) made (config_of-AllTrimmed sections),
      )
]
