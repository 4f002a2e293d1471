-- ===== src/ProxyRoute/Named.antt =====
-- A tag that `Validate` knows as a target's is found among the targets of `Targets`.
use zakop.Prelude.{
  ℕ, suc, ◌≡◌, ◌⊎◌, inl, inr, refl, sym, subst, false, List, [], ◌∷◌, ◌++◌, some, arith, Bool-cases,
}
use zakop.Text.{Str, str_eq, trim_space}
use zakop.Text.Match.{str_eq_iff}
use zakop.Config.Types.{Config, Outbound, OutboundPool}
use zakop.Config.Access.{
  is_blank, enabled_outbounds, enabled_custom_outbounds, outbound_tags, pool_tags,
  proxy_target_tags,
}
use zakop.Config.Clean.{Among}
use zakop.Config.Validate.Fresh.{Each}
use zakop.Config.Validate.Loops.{target_tags, enabled_tags, trimmed_pool_tags, IsFree}
use zakop.Config.Validate.Sound.{IsSound}
use zakop.Config.Trimmed.{IsTrimmed}
use zakop.ProxyRoute.{Target, targets, find}
use zakop.ProxyRoute.Find.{FirstAt, find-targets}

Among-left : (x : Str) (xs ys : List Str) → Among x xs → Among x (xs ++ ys)
Among-left x (y ∷ xs) ys (inl e) = inl e
Among-left x (y ∷ xs) ys (inr a) = inr (Among-left x xs ys a)
Among-left x [] ys a = absurd a

Among-right : (x : Str) (xs ys : List Str) → Among x ys → Among x (xs ++ ys)
Among-right x [] ys a = a
Among-right x (y ∷ xs) ys a = inr (Among-right x xs ys a)

Among-either : (x : Str) (xs ys : List Str) → Among x (xs ++ ys) → Among x xs ⊎ Among x ys
Among-either x [] ys a = inr a
Among-either x (y ∷ xs) ys (inl e) = inl (inl e)
Among-either x (y ∷ xs) ys (inr a) = elim (Among-either x xs ys a) [
  | inl b ↦ inl (inr b)
  | inr b ↦ inr b
]

enabled_tags-trimmed :
    (os : List Outbound)
    → Each IsTrimmed os
    → enabled_tags os ≡ outbound_tags (enabled_outbounds os)
unfolding outbound_tags enabled_outbounds
enabled_tags-trimmed [] t = refl
enabled_tags-trimmed (o ∷ os) t = elim (Bool-cases o.enabled) [
  | inl on ↦ rw on (rw (t.0, enabled_tags-trimmed os t.1) refl)
  | inr off ↦ rw off (enabled_tags-trimmed os t.1)
]

pool_tags-Among :
    (ps : List OutboundPool) (x : Str)
    → str_eq x [] ≡ false
    → Among x (trimmed_pool_tags ps)
    → Among x (pool_tags ps)
unfolding pool_tags is_blank
pool_tags-Among [] x some_rune a = a
pool_tags-Among (p ∷ ps) x some_rune a = elim (Bool-cases (str_eq (trim_space p.tag) [])) [
  | inl blank ↦ rw blank (elim a [
    | inl e ↦ absurd (ground (arith, blank, subst (λ y. str_eq y [] ≡ false) (sym e) some_rune))
    | inr b ↦ pool_tags-Among ps x some_rune b
  ])
  | inr named ↦ rw named (elim a [ inl e ↦ inl e | inr b ↦ inr (pool_tags-Among ps x some_rune b) ])
]

target_tags-proxy :
    (c : Config) (x : Str)
    → Each IsTrimmed c.outbounds
    → str_eq x [] ≡ false
    → Among x (target_tags c)
    → Among x (proxy_target_tags c)
unfolding proxy_target_tags enabled_custom_outbounds
target_tags-proxy c x trimmed some_rune a =
    let pools = pool_tags c.outbound_pools in
    let tags = outbound_tags (enabled_outbounds c.outbounds) in
    elim (Among-either x (enabled_tags c.outbounds) (trimmed_pool_tags c.outbound_pools) a) [
      | inl custom ↦
          Among-left x tags pools
            (subst (Among x) (enabled_tags-trimmed c.outbounds trimmed) custom)
      | inr pool ↦ Among-right x tags pools (pool_tags-Among c.outbound_pools x some_rune pool)
    ]

Among-FirstAt :
    (tag : Str) (i : ℕ) (tags : List Str) → Among tag tags → (k : ℕ) × FirstAt tag i tags k
Among-FirstAt tag i [] a = absurd a
Among-FirstAt tag i (t ∷ ts) a = elim (Bool-cases (str_eq t tag)) [
  | inl same ↦ (i, inl ((str_eq_iff t tag).0 same, refl))
  | inr differ ↦
      let other : ¬ (t ≡ tag) = λ e. absurd (ground (arith, differ, (str_eq_iff t tag).1 e)) in
      elim a [
        | inl e ↦ absurd (other e)
        | inr later ↦ let (k, at) = Among-FirstAt tag (suc i) ts later in (k, inr (other, at))
      ]
]

IsFree-Among : (x : Str) (tags : List Str) → Each IsFree tags → Among x tags → str_eq x [] ≡ false
IsFree-Among x [] free a = absurd a
IsFree-Among x (t ∷ ts) free (inl e) = subst (λ y. str_eq y [] ≡ false) e free.0.0
IsFree-Among x (t ∷ ts) free (inr later) = IsFree-Among x ts free.1 later

-- Where the tags of the outbounds are trimmed, `Find` gives a target for each target that
-- `Validate` knows.
pub IsSound-find :
    (c : Config) (tag : Str)
    → IsSound c
    → Each IsTrimmed c.outbounds
    → Among (trim_space tag) (target_tags c)
    → (t : Target) × (find (targets c) tag ≡ some t)
IsSound-find c tag sound trimmed a =
    let x = trim_space tag in
    let some_rune = IsFree-Among x (target_tags c) sound.targets_free a in
    let (k, at) =
      Among-FirstAt x 0 (proxy_target_tags c) (target_tags-proxy c x trimmed some_rune a) in
    elim (find-targets c tag) [
      | inl (_, nowhere) ↦ absurd (nowhere (k, at))
      | inr (_, _, t, found, _) ↦ (t, found)
    ]
