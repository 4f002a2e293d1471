-- ===== src/OutboundPool/Check.antt =====
-- `Check` against a controller that keeps its contract.
use zakop.Prelude.{
  ◌≡◌, ◌≢◌, ◌⊎◌, inl, inr, refl, sym, ap, ◌∙◌, Bool, true, false, List, [], ◌∷◌, ◌++◌, append_assoc,
  append-nil, some, arith, Bool-cases,
}
use zakop.Text.{Str, str_eq}
use zakop.Text.Match.{str_eq_iff}
use zakop.Config.Types.{OutboundPool}
use zakop.OutboundPool.{Api, CheckResult, healthy, none_healthy, check_from, check, after_selected}

-- A controller that answers: which outbounds pass their probe does not change, a pool has a current
-- outbound, and a selection sets that of its pool and of no other.
pub record Controller {σ : Type 0} (api : Api σ) : Type 0 where
  pub health : Str → Bool
  pub current : σ → Str → Str
  pub probes : (o url : Str) (s : σ) → api.delay o url s ≡ (health o, s)
  pub reads : (tag : Str) (s : σ) → api.selected tag s ≡ (some (current s tag), s)
  pub selects :
      (tag o : Str) (s : σ)
      → (t : σ) × (api.select tag o s ≡ (true, t))
        × (current t tag ≡ o)
        × ((other : Str) → other ≢ tag → current t other ≡ current s other)

-- The first outbound that passes its probe.
abbrev pub FirstHealthy : (Str → Bool) → Str → List Str → Type 0
FirstHealthy health o [] = ⊥
FirstHealthy health o (x ∷ xs) =
    ((health x ≡ true) × (x ≡ o)) ⊎ ((health x ≡ false) × FirstHealthy health o xs)

abbrev pub NoneHealthy : (Str → Bool) → List Str → Type 0
NoneHealthy health [] = Unit
NoneHealthy health (x ∷ xs) = (health x ≡ false) × NoneHealthy health xs

module _ {σ : Type 0} (api : Api σ) (c : Controller api) where
  -- The outbound is selected in the pool, and nothing else has changed.
  abbrev pub Selects : Str → Str → σ → CheckResult × σ → Type 0
  Selects tag o s r =
      (r.0 ≡ healthy o)
      × (c.current r.1 tag ≡ o)
      × ((other : Str) → other ≢ tag → c.current r.1 other ≡ c.current s other)
      × (c.current s tag ≡ o → r.1 ≡ s)

  selected-Selects :
      (tag o : Str) (s : σ) → Selects tag o s (after_selected api tag o (some (c.current s tag), s))
  selected-Selects tag o s = elim (Bool-cases (str_eq (c.current s tag) o)) [
    | inl same ↦
        rw same (refl, (str_eq_iff (c.current s tag) o).0 same, (λ other d. refl), λ e. refl)
    | inr differ ↦
        let (t, done, set_to, others) = c.selects tag o s in
        rw (differ, done)
          (
            refl,
            set_to,
            others,
            λ e. absurd (ground (arith, differ, (str_eq_iff (c.current s tag) o).1 e)),
          )
  ]

  check_from_lem :
      (tag url : Str) (os failures : List Str) (s : σ)
      → ((o : Str) × FirstHealthy c.health o os
          × Selects tag o s (check_from api tag url os failures s))
        ⊎ (NoneHealthy c.health os
            × (check_from api tag url os failures s ≡ (none_healthy (failures ++ os), s)))
  unfolding check_from
  check_from_lem tag url [] failures s =
      inr (tt, ap (λ (x : List Str). (none_healthy x, s)) (sym (append-nil failures)))
  check_from_lem tag url (x ∷ os) failures s =
      rw (c.probes x url s) (elim (Bool-cases (c.health x)) [
        | inl well ↦ rw (well, c.reads tag s) (inl (x, inl (refl, refl), selected-Selects tag x s))
        | inr ill ↦ rw ill (elim (check_from_lem tag url os (failures ++ (x ∷ [])) s) [
          | inl (o, first, sel) ↦ inl (o, inr (refl, first), sel)
          | inr (no_one, e) ↦ inr (
            (refl, no_one),
            e ∙ ap (λ (y : List Str). (none_healthy y, s)) (append_assoc failures (x ∷ []) os),
          )
        ])
      ])

  -- Against a controller that keeps its contract, `Check` returns the first outbound of the pool that
  -- passes its probe and leaves it selected in the pool, with the other pools as they were, and with
  -- nothing changed if it was selected before. If none passes, it reports all of them and changes
  -- nothing.
  pub check_lem :
      (pool : OutboundPool) (s : σ)
      → ((o : Str) × FirstHealthy c.health o pool.outbounds
          × Selects pool.tag o s (check api pool s))
        ⊎ (NoneHealthy c.health pool.outbounds
            × (check api pool s ≡ (none_healthy pool.outbounds, s)))
  unfolding check
  check_lem pool s = check_from_lem pool.tag pool.check_url pool.outbounds [] s
