-- ===== src/Importer/Unused.antt =====
-- `uniqueTag` ends, with a tag that is not used.
use zakop.Prelude.{
  ℕ, zero, suc, ◌+◌, ◌≤◌, ◌<◌, ◌≡◌, ◌≢◌, inl, inr, refl, sym, ap, ◌∙◌, true, false, List, [], ◌∷◌,
  ◌++◌, some, arith, ◌==◌, if◌then◌else◌, Bool-cases, length, length-append, drop, drop-append,
}
use zakop.Text.{Str, str_eq}
use zakop.Text.Match.{str_eq_iff}
use zakop.Text.Number.{itoa}
use zakop.Text.Decimal.{itoa_injective}
use zakop.Dict.{contains_text}
use zakop.Importer.Tag.{or_node, sanitize_tag, candidate, unique_from, unique_tag}

candidate-injective : (tag : Str) (i j : ℕ) → 0 < i → i < j → candidate tag i ≢ candidate tag j
candidate-injective tag i j low less e =
    let later : (j == 1) ≡ false = ground arith in
    let numbered : candidate tag j ≡ tag ++ (b'_' ∷ itoa j) = rw later refl in
    elim (Bool-cases (i == 1)) [
      | inl first ↦
          let plain : candidate tag i ≡ tag = rw first refl in
          let sizes = ap length (sym plain ∙ e ∙ numbered) in
          absurd (omega (arith, sizes, length-append tag (b'_' ∷ itoa j)))
      | inr second ↦
          let other : candidate tag i ≡ tag ++ (b'_' ∷ itoa i) = rw second refl in
          let tails =
            sym (drop-append tag (b'_' ∷ itoa i) (length tag) refl)
            ∙ ap (drop (length tag)) (sym other ∙ e ∙ numbered)
            ∙ drop-append tag (b'_' ∷ itoa j) (length tag) refl in
          absurd (omega (arith, itoa_injective i j (ap (drop 1) tails)))
    ]

-- The used tags without one of them.
abbrev without : Str → List Str → List Str
without t [] = []
without t (u ∷ us) = if str_eq u t then without t us else u ∷ without t us

contains_text-without :
    (t x : Str) (us : List Str) → t ≢ x → contains_text (without t us) x ≡ contains_text us x
unfolding contains_text
contains_text-without t x [] d = refl
contains_text-without t x (u ∷ us) d = elim (Bool-cases (str_eq u t)) [
  | inl same ↦
      let other : str_eq u x ≡ false = elim (Bool-cases (str_eq u x)) [
        | inr no_match ↦ no_match
        | inl match ↦ absurd (d (sym ((str_eq_iff u t).0 same) ∙ (str_eq_iff u x).0 match))
      ] in
      rw (same, other) (contains_text-without t x us d)
  | inr differ ↦ rw (differ, contains_text-without t x us d)
]

length-without-le : (t : Str) (us : List Str) → length (without t us) ≤ length us
length-without-le t [] = omega arith
length-without-le t (u ∷ us) = ground (arith, length-without-le t us)

length-without :
    (t : Str) (us : List Str) → contains_text us t ≡ true → length (without t us) < length us
unfolding contains_text
length-without t [] e = absurd (ground arith)
length-without t (u ∷ us) e = ground (arith, length-without-le t us, length-without t us)

-- The loop looks at the candidates from `i` only.
unique_from-agree :
    (f : ℕ) (tag : Str) (i : ℕ) (us vs : List Str)
    → ((j : ℕ) → i ≤ j → contains_text us (candidate tag j) ≡ contains_text vs (candidate tag j))
    → unique_from f tag i us ≡ unique_from f tag i vs
unfolding unique_from
unique_from-agree zero tag i us vs same = refl
unique_from-agree (suc f) tag i us vs same =
    rw (same i (omega arith), unique_from-agree f tag (suc i) us vs (λ j le. same j (omega arith)))

-- The candidate that the loop returns is the first one from `i` that is not used.
abbrev pub FirstUnused : Str → ℕ → List Str → Str → Type 0
FirstUnused tag i used t =
    (k : ℕ) × (t ≡ candidate tag k)
    × (i ≤ k)
    × (contains_text used t ≡ false)
    × ((j : ℕ) → i ≤ j → j < k → contains_text used (candidate tag j) ≡ true)

unique_from_lem :
    (f : ℕ) (tag : Str) (i : ℕ) (us : List Str)
    → 0 < i
    → length us < f
    → (t : Str) × (unique_from f tag i us ≡ some t) × FirstUnused tag i us t
unfolding unique_from
unique_from_lem zero tag i us low enough = absurd (omega arith)
unique_from_lem (suc f) tag i us low enough =
    elim (Bool-cases (contains_text us (candidate tag i))) [
      | inr unused ↦ (
        candidate tag i,
        rw unused,
        (i, refl, omega arith, unused, λ j a b. absurd (omega arith)),
      )
      | inl used ↦
          let c = candidate tag i in
          let keeps = λ (j : ℕ) (le : suc i ≤ j).
            contains_text-without c (candidate tag j) us
              (candidate-injective tag i j low (omega arith)) in
          let agree =
            unique_from-agree f tag (suc i) us (without c us) (λ j le. sym (keeps j le)) in
          let (t, found, (k, same, le, new, before)) =
            unique_from_lem f tag (suc i) (without c us) (omega arith)
              (omega (arith, length-without c us used)) in
          let unused : contains_text us t ≡ false =
            ap (contains_text us) same
            ∙ sym (keeps k le)
            ∙ ap (contains_text (without c us)) (sym same)
            ∙ new in
          (
            t,
            rw used (agree ∙ found),
            (
              k,
              same,
              omega arith,
              unused,
              λ j a b. elim (Bool-cases (j == i)) [
                | inl here ↦
                    ap (λ x. contains_text us (candidate tag x)) (ground (arith, here)) ∙ used
                | inr beyond ↦
                    let more : suc i ≤ j = ground (arith, beyond) in
                    sym (keeps j more) ∙ before j more b
              ],
            ),
          )
    ]

-- `uniqueTag` returns a tag, whatever tags are used: the first of its candidates (the tag, then the
-- tag with "_2", "_3" and so on) that is not used.
pub unique_tag-FirstUnused :
    (base : Str) (used : List Str)
    → (t : Str) × (unique_tag base used ≡ some t)
      × FirstUnused (or_node (sanitize_tag base)) 1 used t
unfolding unique_tag
unique_tag-FirstUnused base used =
    unique_from_lem (length used + 1) (or_node (sanitize_tag base)) 1 used (omega arith)
      (omega arith)
