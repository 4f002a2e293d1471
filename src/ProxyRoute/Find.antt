-- ===== src/ProxyRoute/Find.antt =====
-- `Find` on the targets of a configuration: which are found, and that their ports tell them apart.
use zakop.Prelude.{
  ℕ, suc, ◌+◌, ◌-◌, ◌≤◌, ◌≡◌, ◌⊎◌, inl, inr, refl, ap, List, [], ◌∷◌, ◌++◌, none, some, arith, leb,
  Bool-cases, length, length-append, replicate, length-replicate,
}
use zakop.Prelude.Int.{ℤ, pos, ◌+ℤ◌}
use zakop.Text.{Str, codes, str_eq, trim_space}
use zakop.Text.Number.{itoa}
use zakop.Text.Match.{str_eq_iff}
use zakop.Config.Types.{Config}
use zakop.Config.Access.{proxy_target_tags}
use zakop.ProxyRoute.{Target, four_digits, target_of, targets_from, targets, first_with, find}

-- The first index, counted from `i`, under which the list has the tag.
abbrev pub FirstAt : Str → ℕ → List Str → ℕ → Type 0
FirstAt tag i [] k = ⊥
FirstAt tag i (t ∷ ts) k = ((t ≡ tag) × (k ≡ i)) ⊎ ((¬ (t ≡ tag)) × FirstAt tag (suc i) ts k)

first_with-targets :
    (port : ℤ) (i : ℕ) (tags : List Str) (tag : Str)
    → ((first_with tag (targets_from port i tags) ≡ none) × (¬ ((k : ℕ) × FirstAt tag i tags k)))
      ⊎ ((k : ℕ) × FirstAt tag i tags k
          × (first_with tag (targets_from port i tags) ≡ some (target_of port k tag)))
unfolding targets_from
first_with-targets port i [] tag = inl (refl, λ (k, at). at)
first_with-targets port i (t ∷ ts) tag = elim (Bool-cases (str_eq t tag)) [
  | inl same ↦
      let e = (str_eq_iff t tag).0 same in
      rw same (inr (i, inl (e, refl), ap some (ap (target_of port i) e)))
  | inr differ ↦
      let d : ¬ (t ≡ tag) = λ e. absurd (ground (arith, differ, (str_eq_iff t tag).1 e)) in
      rw differ (elim (first_with-targets port (suc i) ts tag) [
        | inl (no_target, nowhere) ↦ inl (
          no_target,
          λ (k, at). elim at [ inl (e, _) ↦ d e | inr (_, later) ↦ nowhere (k, later) ],
        )
        | inr (k, at, found) ↦ inr (k, inr (d, at), found)
      ])
]

-- The number in decimal, with zeros in front of it up to four digits.
abbrev pub FourDigits : Str → ℕ → Type 0
FourDigits s k =
    (zeros : ℕ) × (s ≡ replicate zeros b'0' ++ itoa k)
    × (4 ≤ length s)
    × ((zeros ≡ 0) ⊎ (length s ≡ 4))

four_digits-FourDigits : (k : ℕ) → FourDigits (four_digits k) k
four_digits-FourDigits k =
    let zeros = 4 - length (itoa k) in
    let all : length (four_digits k) ≡ zeros + length (itoa k) =
      omega (
        arith,
        length-append (replicate zeros b'0') (itoa k),
        length-replicate {A = ℕ} zeros b'0',
      ) in
    (
      zeros,
      refl,
      omega (arith, all),
      elim (Bool-cases (leb 4 (length (itoa k)))) [
        | inl long ↦ inl (ground (arith, long))
        | inr short ↦ inr (ground (arith, short, all))
      ],
    )

-- What the target of a tag at an index has to be.
pub record IsTarget (cfg : Config) (k : ℕ) (tag : Str) (t : Target) : Type 0 where
  pub same_tag : t.tag ≡ tag
  pub same_port : t.port ≡ cfg.main.tproxy_port +ℤ pos k
  pub same_chain : (digits : Str) × FourDigits digits k × (t.chain ≡ codes "to_proxy_" ++ digits)
  pub same_inbound :
      (digits : Str) × FourDigits digits k
      × (t.inbound ≡ codes "tproxy-" ++ (digits ++ codes "-in"))

-- `Find` on the targets of a configuration gives a target exactly if the trimmed tag is one of the
-- proxy target tags. With k for the first index under which it stands among them, counted from 0,
-- the target has this tag, the port is the TProxy port of the configuration plus k, the chain is
-- "to_proxy_" and k in at least four decimal digits, and the inbound is "tproxy-", these digits and
-- "-in".
pub find-targets :
    (cfg : Config) (tag : Str)
    → ((find (targets cfg) tag ≡ none)
        × (¬ ((k : ℕ) × FirstAt (trim_space tag) 0 (proxy_target_tags cfg) k)))
      ⊎ ((k : ℕ) × FirstAt (trim_space tag) 0 (proxy_target_tags cfg) k
          × (t : Target) × (find (targets cfg) tag ≡ some t)
          × IsTarget cfg k (trim_space tag) t)
unfolding find targets
find-targets cfg tag =
    elim (first_with-targets cfg.main.tproxy_port 0 (proxy_target_tags cfg) (trim_space tag)) [
      | inl nothing ↦ inl nothing
      | inr (k, at, found) ↦ inr (
        k,
        at,
        target_of cfg.main.tproxy_port k (trim_space tag),
        found,
        record {
          same_tag = refl;
          same_port = refl;
          same_chain = (four_digits k, four_digits-FourDigits k, refl);
          same_inbound = (four_digits k, four_digits-FourDigits k, refl);
        },
      )
    ]
