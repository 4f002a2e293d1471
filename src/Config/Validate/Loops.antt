-- ===== src/Config/Validate/Loops.antt =====
-- What the loops of `Validate` over the outbounds and the pools make sure of.
use zakop.Prelude.{
  ◌≤◌, ◌≡◌, inl, inr, refl, sym, ◌∙◌, false, not, List, [], ◌∷◌, ◌++◌, none, arith, if◌then◌else◌,
  Bool-cases, length,
}
use zakop.Text.{Str, str_eq, trim_space}
use zakop.Dict.{contains_text}
use zakop.Config.Types.{Config, Outbound, OutboundPool}
use zakop.Config.Access.{is_blank, reserved_custom_outbound_tag}
use zakop.Config.Clean.{Among, Distinct, contains_text_iff}
use zakop.Config.Fault.{◌<|>◌, <|>_none, passed}
use zakop.Config.Validate.Targets.{
  check_outbound, check_outbounds, see_outbounds, check_pool, check_pools, see_pools, check_members,
}
use zakop.Config.Validate.Fresh.{Each, Fresh, onto, Fresh-Distinct}

-- The trimmed tags of the enabled outbounds, and those of the pools.
abbrev pub enabled_tags : List Outbound → List Str
enabled_tags [] = []
enabled_tags (o ∷ os) =
    let rest = enabled_tags os in if o.enabled then trim_space o.tag ∷ rest else rest

abbrev pub trimmed_pool_tags : List OutboundPool → List Str
trimmed_pool_tags [] = []
trimmed_pool_tags (p ∷ ps) = trim_space p.tag ∷ trimmed_pool_tags ps

abbrev pub target_tags : Config → List Str
target_tags c = enabled_tags c.outbounds ++ trimmed_pool_tags c.outbound_pools

-- Behind a loop that finds no error, the set has the tags in it.
pub see_outbounds-onto :
    (seen : List Str) (os : List Outbound) → see_outbounds seen os ≡ onto seen (enabled_tags os)
unfolding see_outbounds
see_outbounds-onto seen [] = refl
see_outbounds-onto seen (o ∷ os) = elim (Bool-cases o.enabled) [
  | inl on ↦ rw on (see_outbounds-onto (trim_space o.tag ∷ seen) os)
  | inr off ↦ rw off (see_outbounds-onto seen os)
]

pub see_pools-onto :
    (seen : List Str) (ps : List OutboundPool)
    → see_pools seen ps ≡ onto seen (trimmed_pool_tags ps)
unfolding see_pools
see_pools-onto seen [] = refl
see_pools-onto seen (p ∷ ps) = see_pools-onto (trim_space p.tag ∷ seen) ps

absent : (xs : List Str) (x : Str) → contains_text xs x ≡ false → ¬ Among x xs
absent xs x e a = absurd (ground (arith, e, (contains_text_iff xs x).1 a))

-- A tag that is free for an outbound or a pool.
abbrev pub IsFree : Str → Type 0
IsFree tag = (str_eq tag [] ≡ false) × (reserved_custom_outbound_tag tag ≡ false)

check_outbound-IsFree :
    (seen : List Str) (o : Outbound)
    → check_outbound seen o ≡ none
    → IsFree (trim_space o.tag) × (¬ Among (trim_space o.tag) seen)
unfolding check_outbound is_blank
check_outbound-IsFree seen o e =
    let (named, e1) = passed _ e in
    let (free, e2) = passed _ e1 in
    let (new, e3) = passed _ e2 in ((named, free), absent seen (trim_space o.tag) new)

-- A pool of at least two of the outbounds, none of them twice.
abbrev pub IsPool : List Str → OutboundPool → Type 0
IsPool custom p =
    (2 ≤ length p.outbounds) × Each (λ m. Among m custom) p.outbounds × Distinct p.outbounds

pub present : (xs : List Str) (x : Str) → not (contains_text xs x) ≡ false → Among x xs
present xs x e = (contains_text_iff xs x).0 (ground arith)

check_members-Each :
    (custom : List Str) (tag : Str) (members ms : List Str)
    → check_members custom tag members ms ≡ none
    → Each (λ m. Among m custom) ms × Fresh members ms
unfolding check_members
check_members-Each custom tag members [] e = (tt, tt)
check_members-Each custom tag members (m ∷ ms) e =
    let (known, e1) = passed _ e in
    let (new, e2) = passed _ e1 in
    let (all_known, fresh) = check_members-Each custom tag (m ∷ members) ms e2 in
    ((present custom m known, all_known), (absent members m new, fresh))

check_pool-IsFree :
    (custom seen : List Str) (p : OutboundPool)
    → check_pool custom seen p ≡ none
    → IsFree (trim_space p.tag) × (¬ Among (trim_space p.tag) seen) × IsPool custom p
unfolding check_pool is_blank
check_pool-IsFree custom seen p e =
    let (named, e1) = passed _ e in
    let (free, e2) = passed _ e1 in
    let (new, e3) = passed _ e2 in
    let (two, e4) = passed _ e3 in
    let (e5, e6) = <|>_none (check_members custom (trim_space p.tag) [] p.outbounds) _ e4 in
    let (known, fresh) = check_members-Each custom (trim_space p.tag) [] p.outbounds e5 in
    (
      (named, free),
      absent seen (trim_space p.tag) new,
      (ground (arith, two), known, Fresh-Distinct [] p.outbounds fresh),
    )

pub check_outbounds-Fresh :
    (seen : List Str) (os : List Outbound)
    → check_outbounds seen os ≡ none
    → Fresh seen (enabled_tags os) × Each IsFree (enabled_tags os)
unfolding check_outbounds
check_outbounds-Fresh seen [] e = (tt, tt)
check_outbounds-Fresh seen (o ∷ os) e = elim (Bool-cases o.enabled) [
  | inl on ↦
      let both : (check_outbound seen o <|> check_outbounds (trim_space o.tag ∷ seen) os) ≡ none =
        sym (rw on refl) ∙ e in
      let (e1, e2) = <|>_none (check_outbound seen o) _ both in
      let (free, new) = check_outbound-IsFree seen o e1 in
      let (fresh, all_free) = check_outbounds-Fresh (trim_space o.tag ∷ seen) os e2 in
      rw on ((new, fresh), (free, all_free))
  | inr off ↦
      let rest : check_outbounds seen os ≡ none = sym (rw off refl) ∙ e in
      rw off (check_outbounds-Fresh seen os rest)
]

pub check_pools-Fresh :
    (custom seen : List Str) (ps : List OutboundPool)
    → check_pools custom seen ps ≡ none
    → Fresh seen (trimmed_pool_tags ps)
      × Each IsFree (trimmed_pool_tags ps)
      × Each (IsPool custom) ps
unfolding check_pools
check_pools-Fresh custom seen [] e = (tt, tt, tt)
check_pools-Fresh custom seen (p ∷ ps) e =
    let (e1, e2) = <|>_none (check_pool custom seen p) _ e in
    let (free, new, pool) = check_pool-IsFree custom seen p e1 in
    let (fresh, all_free, pools) = check_pools-Fresh custom (trim_space p.tag ∷ seen) ps e2 in
    ((new, fresh), (free, all_free), (pool, pools))
