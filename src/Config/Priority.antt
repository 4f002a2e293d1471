-- ===== src/Config/Priority.antt =====
-- The order of the rules that `Parse` leaves.
use zakop.Prelude.{
  ◌≡◌, inl, inr, refl, ◌∙◌, Bool, true, false, List, [], ◌∷◌, arith, if◌then◌else◌, Bool-cases,
}
use zakop.Prelude.Int.{ℤ, ◌≤ℤ◌, ltb_ℤ}
use zakop.Config.Types.{Rule}
use zakop.Config.Uci.{Section}
use zakop.Config.Parse.{
  insert_rule, sort_rules, config_of, add_sections, defaults, assign_first_custom_outbound,
}

-- The rules stand by rising priority, the first not below the bound.
abbrev pub RisingFrom : ℤ → List Rule → Type 0
RisingFrom n [] = Unit
RisingFrom n (r ∷ rs) = (n ≤ℤ r.priority) × RisingFrom r.priority rs

abbrev pub Rising : List Rule → Type 0
Rising [] = Unit
Rising (r ∷ rs) = RisingFrom r.priority rs

-- The rules of one priority, in their order.
abbrev same_priority : ℤ → Rule → Bool
same_priority n r = if ltb_ℤ r.priority n then false else if ltb_ℤ n r.priority then false else true

abbrev pub with_priority : ℤ → List Rule → List Rule
with_priority n [] = []
with_priority n (r ∷ rs) = if same_priority n r then r ∷ with_priority n rs else with_priority n rs

insert_rule-RisingFrom :
    (n : ℤ) (r : Rule) (rs : List Rule)
    → n ≤ℤ r.priority
    → RisingFrom n rs
    → RisingFrom n (insert_rule r rs)
unfolding insert_rule
insert_rule-RisingFrom n r [] b v = (b, tt)
insert_rule-RisingFrom n r (x ∷ xs) b v = elim (Bool-cases (ltb_ℤ x.priority r.priority)) [
  | inl less ↦ rw less (v.0, insert_rule-RisingFrom x.priority r xs (ground (arith, less)) v.1)
  | inr more ↦ rw more (b, (ground (arith, more), v.1))
]

insert_rule-Rising : (r : Rule) (rs : List Rule) → Rising rs → Rising (insert_rule r rs)
unfolding insert_rule
insert_rule-Rising r [] v = tt
insert_rule-Rising r (x ∷ xs) v = elim (Bool-cases (ltb_ℤ x.priority r.priority)) [
  | inl less ↦ rw less (insert_rule-RisingFrom x.priority r xs (ground (arith, less)) v)
  | inr more ↦ rw more (ground (arith, more), v)
]

sort_rules-Rising : (rs : List Rule) → Rising (sort_rules rs)
unfolding sort_rules
sort_rules-Rising [] = tt
sort_rules-Rising (r ∷ rs) = insert_rule-Rising r (sort_rules rs) (sort_rules-Rising rs)

insert_rule-with_priority :
    (n : ℤ) (r : Rule) (rs : List Rule)
    → with_priority n (insert_rule r rs) ≡ with_priority n (r ∷ rs)
unfolding insert_rule
insert_rule-with_priority n r [] = refl
insert_rule-with_priority n r (x ∷ xs) = ground (arith, insert_rule-with_priority n r xs)

sort_rules-with_priority :
    (n : ℤ) (rs : List Rule) → with_priority n (sort_rules rs) ≡ with_priority n rs
unfolding sort_rules
sort_rules-with_priority n [] = refl
sort_rules-with_priority n (r ∷ rs) =
    insert_rule-with_priority n r (sort_rules rs) ∙ ground (arith, sort_rules-with_priority n rs)

-- The rules of a parsed configuration stand by rising priority, and rules with the same priority
-- stand in the order in which they stood before the sort.
pub config_of-Rising :
    (sections : List Section)
    → Rising (config_of sections).rules
      × ((n : ℤ)
          → with_priority n (config_of sections).rules
            ≡ with_priority n (assign_first_custom_outbound (add_sections defaults sections)).rules)
unfolding config_of
config_of-Rising sections =
    let rules = (assign_first_custom_outbound (add_sections defaults sections)).rules in
    (sort_rules-Rising rules, λ n. sort_rules-with_priority n rules)
