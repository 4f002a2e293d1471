-- ===== src/Nft/Ranges.antt =====
-- The ports of a rule as the ranges that are written.
use zakop.Prelude.{
  ℕ, ◌≤◌, ◌≡◌, ◌⊎◌, ◌↔◌, inl, inr, refl, ap, false, List, [], ◌∷◌, Option, none, some, map, arith,
}
use zakop.Prelude.Int.{ℤ, pos, negsuc}
use zakop.Text.{Str}
use zakop.Config.Lists.{parse_rule_port_range}
use zakop.Config.Validate.Main.{is_none}
use zakop.Config.Validate.Fresh.{Each}
use zakop.Nft.Packet.{parse_nft_port, parse_nft_ports}
use zakop.Nft.Ports.{SameRange, parse_nft_port-SameRange}
use zakop.Nft.Lines.{Range, one, span, range_text, In, Any}

-- The number lies in a range that `parseRulePortRange` returns.
abbrev pub InBounds : ℕ → Option (ℤ × ℤ) → Type 0
InBounds n (some (pos a, pos b)) = (a ≤ n) × (n ≤ b)
InBounds n _ = ⊥

-- There is no condition on the port, or one of the texts admits it.
abbrev pub PortAdmitted : ℕ → List Str → Type 0
PortAdmitted n values = (values ≡ []) ⊎ Any (λ v. InBounds n (parse_rule_port_range v)) values

-- There is no range, or one of them has the number.
abbrev pub PortTaken : ℕ → List Range → Type 0
PortTaken n rs = (rs ≡ []) ⊎ Any (In n) rs

-- The ports that are written, as ranges.
one_value :
    (v : Str)
    → is_none (parse_rule_port_range v) ≡ false
    → (r : Range) × (parse_nft_port v ≡ some (range_text r))
      × ((n : ℕ) → In n r ↔ InBounds n (parse_rule_port_range v))
one_value v e =
    of_results (parse_nft_port v) (parse_rule_port_range v) (parse_nft_port-SameRange v) e
  where
    of_results :
        (text : Option Str) (range : Option (ℤ × ℤ))
        → SameRange text range
        → is_none range ≡ false
        → (r : Range) × (text ≡ some (range_text r)) × ((n : ℕ) → In n r ↔ InBounds n range)
    of_results (some text) (some (pos a, pos b)) (_, _, _, inl e) f =
        (span a b, ap some e, λ n. ((λ i. i), (λ i. i)))
    of_results (some text) (some (pos a, pos b)) (_, _, _, inr (same, e)) f =
        (one a, ap some e, λ n. ((λ i. ground (arith, i, same)), (λ i. ground (arith, i, same))))
    of_results (some text) (some (pos a, negsuc b)) same f = absurd same
    of_results (some text) (some (negsuc a, b)) same f = absurd same
    of_results (some text) none same f = absurd same
    of_results none (some range) same f = absurd same
    of_results none none same f = absurd (ground arith)

ranges_of :
    (values : List Str)
    → Each (λ v. is_none (parse_rule_port_range v) ≡ false) values
    → (rs : List Range) × (parse_nft_ports values ≡ some (map range_text rs))
      × ((rs ≡ []) ↔ (values ≡ []))
      × ((n : ℕ) → Any (In n) rs ↔ Any (λ v. InBounds n (parse_rule_port_range v)) values)
unfolding parse_nft_ports
ranges_of [] e = ([], refl, ((λ _. refl), (λ _. refl)), λ n. ((λ a. a), (λ a. a)))
ranges_of (v ∷ vs) e =
    let (r, text, same) = one_value v e.0 in
    let (rs, texts, _, all_same) = ranges_of vs e.1 in
    (
      r ∷ rs,
      both r rs text texts,
      ((λ nil. absurd (ground (arith, nil))), (λ nil. absurd (ground (arith, nil)))),
      λ n. (
        (λ a. elim a [ inl i ↦ inl ((same n).0 i) | inr i ↦ inr ((all_same n).0 i) ]),
        (λ a. elim a [ inl i ↦ inl ((same n).1 i) | inr i ↦ inr ((all_same n).1 i) ]),
      ),
    )
  where
    both :
        (r : Range) (rs : List Range)
        → parse_nft_port v ≡ some (range_text r)
        → parse_nft_ports vs ≡ some (map range_text rs)
        → parse_nft_ports (v ∷ vs) ≡ some (range_text r ∷ map range_text rs)
    both r rs text texts = rw (text, texts, parse_nft_ports) refl

pub all_values :
    (values : List Str)
    → Each (λ v. is_none (parse_rule_port_range v) ≡ false) values
    → (rs : List Range) × (parse_nft_ports values ≡ some (map range_text rs))
      × ((n : ℕ) → PortTaken n rs ↔ PortAdmitted n values)
all_values values e =
    let (rs, texts, (to_nil, from_nil), same) = ranges_of values e in
    (
      rs,
      texts,
      λ n. (
        (λ a. elim a [ inl nil ↦ inl (to_nil nil) | inr i ↦ inr ((same n).0 i) ]),
        (λ a. elim a [ inl nil ↦ inl (from_nil nil) | inr i ↦ inr ((same n).1 i) ]),
      ),
    )
