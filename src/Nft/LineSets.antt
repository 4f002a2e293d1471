-- ===== src/Nft/LineSets.antt =====
-- The lines for the transports and the ranges of a rule: their texts, and what they take.
use zakop.Prelude.{
  ℕ, ◌≡◌, ◌⊎◌, ◌↔◌, inl, inr, refl, sym, ap, List, [], ◌∷◌, ◌++◌, Option, none, some, map, arith,
}
use zakop.Text.{Str, codes}
use zakop.Config.Clean.{Among}
use zakop.Nft.Packet.{both_protocols, or_default, protocol_lines, port_lines, matches_of}
use zakop.Nft.Lines.{
  Packet, proto_of, Range, range_text, In, Line, both_transports, transport, port_text, line_text,
  InPorts, Takes, Any, product, port_lines-text, product-Takes,
}
use zakop.Nft.Ranges.{PortTaken}
use zakop.Nft.Transports.{proto_of-transport}

-- The lines for these transports and ranges.
abbrev pub or_none : List Range → List (Option Range)
or_none [] = none ∷ []
or_none (r ∷ rs) = map some (r ∷ rs)

abbrev pub lines_of : List Str → List Range → List Range → List Line
lines_of [] [] [] = both_transports ∷ []
lines_of (p ∷ ps) [] [] = map transport (p ∷ ps)
lines_of ps ss ds = product (or_default both_protocols ps) (or_none ss) (or_none ds)

protocol_lines-text :
    (base : Str) (ps : List Str) → protocol_lines base ps ≡ map (line_text base) (map transport ps)
unfolding protocol_lines
protocol_lines-text base [] = refl
protocol_lines-text base (p ∷ ps) =
    ap (◌∷◌ (base ++ (codes " meta l4proto " ++ p))) (protocol_lines-text base ps)

some-text : (rs : List Range) → map range_text rs ≡ map port_text (map some rs)
some-text [] = refl
some-text (r ∷ rs) = ap (◌∷◌ (range_text r)) (some-text rs)

or_none-text :
    (rs : List Range) → or_default ([] ∷ []) (map range_text rs) ≡ map port_text (or_none rs)
or_none-text [] = refl
or_none-text (r ∷ rs) = some-text (r ∷ rs)

full-text :
    (base : Str) (ps : List Str) (ss ds : List Range)
    → port_lines base ps
        (or_default ([] ∷ []) (map range_text ss))
        (or_default ([] ∷ []) (map range_text ds))
      ≡ map (line_text base) (product ps (or_none ss) (or_none ds))
full-text base ps ss ds =
    rw (or_none-text ss, or_none-text ds) (port_lines-text base ps (or_none ss) (or_none ds))

pub matches_of-text :
    (base : Str) (ps : List Str) (ss ds : List Range)
    → matches_of base ps (map range_text ss) (map range_text ds)
      ≡ map (line_text base) (lines_of ps ss ds)
unfolding matches_of
matches_of-text base [] [] [] = refl
matches_of-text base (p ∷ ps) [] [] = protocol_lines-text base (p ∷ ps)
matches_of-text base [] [] (d ∷ ds) = full-text base both_protocols [] (d ∷ ds)
matches_of-text base [] (s ∷ ss) ds = full-text base both_protocols (s ∷ ss) ds
matches_of-text base (p ∷ ps) [] (d ∷ ds) = full-text base (p ∷ ps) [] (d ∷ ds)
matches_of-text base (p ∷ ps) (s ∷ ss) ds = full-text base (p ∷ ps) (s ∷ ss) ds

-- Which packets these lines take.
module _ (k : Packet) where
  some-InPorts : (n : ℕ) (rs : List Range) → Any (InPorts n) (map some rs) ↔ Any (In n) rs
  some-InPorts n [] = ((λ a. a), (λ a. a))
  some-InPorts n (r ∷ rs) =
      let (to, from) = some-InPorts n rs in
      (
        (λ a. elim a [ inl i ↦ inl i | inr i ↦ inr (to i) ]),
        (λ a. elim a [ inl i ↦ inl i | inr i ↦ inr (from i) ]),
      )

  or_none-InPorts : (n : ℕ) (rs : List Range) → Any (InPorts n) (or_none rs) ↔ PortTaken n rs
  or_none-InPorts n [] = ((λ a. inl refl), (λ a. inl tt))
  or_none-InPorts n (r ∷ rs) =
      let (to, from) = some-InPorts n (r ∷ rs) in
      ((λ a. inr (to a)), (λ a. elim a [ inl nil ↦ absurd (ground (arith, nil)) | inr i ↦ from i ]))

  transport-Takes : (ps : List Str) → Any (Takes k) (map transport ps) ↔ Among (proto_of k) ps
  transport-Takes [] = ((λ a. a), (λ a. a))
  transport-Takes (p ∷ ps) =
      let (to, from) = transport-Takes ps in
      (
        (λ a. elim a [ inl i ↦ inl i | inr i ↦ inr (to i) ]),
        (λ a. elim a [ inl i ↦ inl i | inr i ↦ inr (from i) ]),
      )

  both_protocols-Among : Among (proto_of k) both_protocols
  both_protocols-Among = elim (proto_of-transport k) [
    | inl e ↦ inl (sym e)
    | inr e ↦ inr (inl (sym e))
  ]

  or_default-Among :
      (ps : List Str)
      → Among (proto_of k) (or_default both_protocols ps) ↔ ((ps ≡ []) ⊎ Among (proto_of k) ps)
  or_default-Among [] = ((λ a. inl refl), (λ a. both_protocols-Among))
  or_default-Among (p ∷ ps) =
      ((λ a. inr a), (λ a. elim a [ inl nil ↦ absurd (ground (arith, nil)) | inr i ↦ i ]))

  full-Takes :
      (ps : List Str) (ss ds : List Range)
      → Any (Takes k) (product (or_default both_protocols ps) (or_none ss) (or_none ds))
        ↔ (((ps ≡ []) ⊎ Among (proto_of k) ps) × PortTaken k.src ss × PortTaken k.dst ds)
  full-Takes ps ss ds =
      let (to, from) = product-Takes k (or_default both_protocols ps) (or_none ss) (or_none ds) in
      let (to_proto, from_proto) = or_default-Among ps in
      let (to_src, from_src) = or_none-InPorts k.src ss in
      let (to_dst, from_dst) = or_none-InPorts k.dst ds in
      (
        (λ a. let (e, i, j) = to a in (to_proto e, to_src i, to_dst j)),
        (λ (e, i, j). from (from_proto e, from_src i, from_dst j)),
      )

  pub lines_of-Takes :
      (ps : List Str) (ss ds : List Range)
      → Any (Takes k) (lines_of ps ss ds)
        ↔ (((ps ≡ []) ⊎ Among (proto_of k) ps) × PortTaken k.src ss × PortTaken k.dst ds)
  lines_of-Takes [] [] [] = ((λ a. (inl refl, inl refl, inl refl)), (λ a. inl tt))
  lines_of-Takes (p ∷ ps) [] [] =
      let (to, from) = transport-Takes (p ∷ ps) in
      (
        (λ a. (inr (to a), inl refl, inl refl)),
        (λ (e, _, _). elim e [ inl nil ↦ absurd (ground (arith, nil)) | inr a ↦ from a ]),
      )
  lines_of-Takes [] [] (d ∷ ds) = full-Takes [] [] (d ∷ ds)
  lines_of-Takes [] (s ∷ ss) ds = full-Takes [] (s ∷ ss) ds
  lines_of-Takes (p ∷ ps) [] (d ∷ ds) = full-Takes (p ∷ ps) [] (d ∷ ds)
  lines_of-Takes (p ∷ ps) (s ∷ ss) ds = full-Takes (p ∷ ps) (s ∷ ss) ds
