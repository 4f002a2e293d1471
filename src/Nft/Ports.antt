-- ===== src/Nft/Ports.antt =====
-- The ports that the ruleset spells are those that the configuration's checks accept.
use zakop.Prelude.{
  ◌≤◌, ◌≡◌, ◌⊎◌, inl, inr, refl, ap, false, ◌||◌, List, [], ◌∷◌, ◌++◌, Option, none, some, arith,
  if◌then◌else◌, Bool-cases,
}
use zakop.Prelude.Int.{ℤ, pos, negsuc, ltb_ℤ}
use zakop.Text.{Str, codes, trim_space, split}
use zakop.Text.Number.{itoa, atoi}
use zakop.Config.Lists.{is_empty, parse_rule_port, ports_of, parse_rule_port_range}
use zakop.Nft.Packet.{parse_port_number, int_text, port_parts, parse_nft_port}

-- A port, as an integer.
abbrev IsPort : ℤ → Type 0
IsPort (pos n) = (1 ≤ n) × (n ≤ 65535)
IsPort (negsuc n) = ⊥

in_range : Option ℤ → Option ℤ
in_range none = none
in_range (some n) = if ltb_ℤ n (pos 1) || ltb_ℤ (pos 65535) n then none else some n

in_range-IsPort :
    (o : Option ℤ) → (in_range o ≡ none) ⊎ ((n : ℤ) × IsPort n × (in_range o ≡ some n))
unfolding in_range
in_range-IsPort none = inl refl
in_range-IsPort (some (pos n)) =
    elim (Bool-cases (ltb_ℤ (pos n) (pos 1) || ltb_ℤ (pos 65535) (pos n))) [
      | inl bad ↦ inl (rw bad refl)
      | inr good ↦ inr (pos n, (ground (arith, good), ground (arith, good)), rw good refl)
    ]
in_range-IsPort (some (negsuc n)) = inl (ground arith)

atoi_nil : atoi [] ≡ none
unfolding atoi
atoi_nil = refl

-- The two parsers of a port agree.
parsers_agree :
    (a : Str)
    → ((parse_port_number a ≡ none) × (parse_rule_port a ≡ none))
      ⊎ ((n : ℤ) × IsPort n × (parse_port_number a ≡ some n) × (parse_rule_port a ≡ some n))
unfolding parse_port_number parse_rule_port in_range
parsers_agree a = of_text (trim_space a)
  where
    of_text :
        (t : Str)
        → ((in_range (atoi t) ≡ none) × ((if is_empty t then none else in_range (atoi t)) ≡ none))
          ⊎ ((n : ℤ) × IsPort n
              × (in_range (atoi t) ≡ some n)
              × ((if is_empty t then none else in_range (atoi t)) ≡ some n))
    of_text [] = inl (ap in_range atoi_nil, refl)
    of_text (c ∷ s) = elim (in_range-IsPort (atoi (c ∷ s))) [
      | inl e ↦ inl (e, e)
      | inr (n, port, e) ↦ inr (n, port, e, e)
    ]

-- What a text of `parseNFTPort` and a range of `parseRulePortRange` have to do with each other.
abbrev pub SameRange : Option Str → Option (ℤ × ℤ) → Type 0
SameRange none none = Unit
SameRange (some text) (some (pos a, pos b)) =
    (1 ≤ a)
    × (a ≤ b)
    × (b ≤ 65535)
    × ((text ≡ itoa a ++ (codes "-" ++ itoa b)) ⊎ ((a ≡ b) × (text ≡ itoa a)))
SameRange _ _ = ⊥

one_port : (n : ℤ) → IsPort n → SameRange (some (int_text n)) (some (n, n))
one_port (pos n) port = (port.0, ground arith, port.1, inr (refl, refl))
one_port (negsuc n) port = absurd port

two_ports :
    (m n : ℤ)
    → IsPort m
    → IsPort n
    → ltb_ℤ n m ≡ false
    → SameRange (some (int_text m ++ (codes "-" ++ int_text n))) (some (m, n))
two_ports (pos m) (pos n) port end rising = (port.0, ground (arith, rising), end.1, inl refl)
two_ports (pos m) (negsuc n) port end rising = absurd end
two_ports (negsuc m) n port end rising = absurd port

parts-SameRange : (parts : List Str) → SameRange (port_parts parts) (ports_of parts)
parts-SameRange [] = tt
parts-SameRange (a ∷ []) = elim (parsers_agree a) [
  | inl (e, f) ↦ rw (e, f, SameRange, port_parts, ports_of) tt
  | inr (n, port, e, f) ↦ rw (e, f, SameRange, port_parts, ports_of) (one_port n port)
]
parts-SameRange (a ∷ b ∷ []) = elim (parsers_agree a) [
  | inl (e, f) ↦ rw (e, f, SameRange, port_parts, ports_of) tt
  | inr (m, start, e, f) ↦
      rw (e, f, SameRange, port_parts, ports_of)
        (elim (parsers_agree b) [
          | inl (g, h) ↦ rw (g, h, SameRange) tt
          | inr (n, end, g, h) ↦
              rw (g, h, SameRange)
                (elim (Bool-cases (ltb_ℤ n m)) [
                  | inl falling ↦ rw (falling, SameRange) tt
                  | inr rising ↦ rw (rising, SameRange) (two_ports m n start end rising)
                ])
        ])
]
parts-SameRange (a ∷ b ∷ c ∷ parts) = tt

-- `parseNFTPort` accepts exactly the texts that `parseRulePortRange` accepts. The range then goes
-- from a to b with 1 ≤ a ≤ b ≤ 65535, and the text is `a-b`, or `a` alone where they are the same.
pub parse_nft_port-SameRange :
    (value : Str) → SameRange (parse_nft_port value) (parse_rule_port_range value)
unfolding parse_nft_port parse_rule_port_range
parse_nft_port-SameRange value = elim (Bool-cases (is_empty (trim_space value))) [
  | inl blank ↦ rw (blank, SameRange) tt
  | inr text ↦ rw (text, SameRange) (parts-SameRange (split b'-' (trim_space value)))
]
