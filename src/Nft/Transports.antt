-- ===== src/Nft/Transports.antt =====
-- The protocols of a rule that are written.
use zakop.Prelude.{
  ◌≡◌, ◌≢◌, ◌⊎◌, ◌↔◌, inl, inr, refl, sym, ◌∙◌, subst, false, not, ◌&&◌, ◌||◌, List, [], ◌∷◌, arith,
  if◌then◌else◌, Bool-cases,
}
use zakop.Text.{Str, codes, str_eq, to_lower, trim_space}
use zakop.Dict.{contains_text}
use zakop.Config.Types.{Rule}
use zakop.Config.Lists.{is_empty, clean_from}
use zakop.Config.Clean.{Among, From, clean_from_iff, contains_text_iff}
use zakop.Config.Validate.Fresh.{Each}
use zakop.Nft.Packet.{protocols_from, both_protocols, packet_protocols}
use zakop.Nft.Lines.{Packet, proto_of}

abbrev pub proto_name : Str → Str
proto_name value = to_lower (trim_space value)

abbrev pub IsTransport : Str → Type 0
IsTransport value = (proto_name value ≡ codes "tcp") ⊎ (proto_name value ≡ codes "udp")

-- The transports that are written: `packetProtocols` is a list without duplicates of the names.
transport-some : (value : Str) → IsTransport value → is_empty (proto_name value) ≡ false
transport-some value (inl e) = rw e refl
transport-some value (inr e) = rw e refl

skip_same :
    (value : Str) (seen : List Str)
    → IsTransport value
    → ((not (str_eq (proto_name value) (codes "tcp"))
          && not (str_eq (proto_name value) (codes "udp")))
        || contains_text seen (proto_name value))
      ≡ (is_empty (proto_name value) || contains_text seen (proto_name value))
unfolding str_eq
skip_same value seen (inl e) = rw e refl
skip_same value seen (inr e) = rw e refl

protocols_from-clean_from :
    (seen ps : List Str)
    → Each IsTransport ps
    → protocols_from seen ps ≡ clean_from proto_name seen ps
unfolding protocols_from clean_from
protocols_from-clean_from seen [] t = refl
protocols_from-clean_from seen (p ∷ ps) t =
    let skip = is_empty (proto_name p) || contains_text seen (proto_name p) in
    rw
      (
        skip_same p seen t.0,
        protocols_from-clean_from (if skip then seen else proto_name p ∷ seen) ps t.1,
      )
      refl

both_cases :
    (out : List Str) (x : Str)
    → (x ≡ codes "tcp") ⊎ (x ≡ codes "udp")
    → Among x (
        if contains_text out (codes "tcp") && contains_text out (codes "udp")
        then both_protocols
        else out)
      ↔ Among x out
both_cases out x t =
    elim (Bool-cases (contains_text out (codes "tcp") && contains_text out (codes "udp"))) [
      | inr other ↦ rw other ((λ a. a), (λ a. a))
      | inl both ↦
          let tcp : Among (codes "tcp") out =
            (contains_text_iff out (codes "tcp")).0 (ground (arith, both)) in
          let udp : Among (codes "udp") out =
            (contains_text_iff out (codes "udp")).0 (ground (arith, both)) in
          rw both (
            (λ a. elim t [
              | inl e ↦ subst (λ y. Among y out) (sym e) tcp
              | inr e ↦ subst (λ y. Among y out) (sym e) udp
            ]),
            (λ a. elim t [ inl e ↦ inl (sym e) | inr e ↦ inr (inl (sym e)) ]),
          )
    ]

pub proto_of-transport : (k : Packet) → (proto_of k ≡ codes "tcp") ⊎ (proto_of k ≡ codes "udp")
proto_of-transport k = elim (Bool-cases k.tcp) [ inl e ↦ inl (rw e refl) | inr e ↦ inr (rw e refl) ]

pub packet_protocols-Among :
    (r : Rule) (x : Str)
    → Each IsTransport r.proto
    → (x ≡ codes "tcp") ⊎ (x ≡ codes "udp")
    → Among x (packet_protocols r) ↔ From proto_name x r.proto
unfolding packet_protocols
packet_protocols-Among r x t name =
    let (to, from) = both_cases (protocols_from [] r.proto) x name in
    let (kept, keep) = clean_from_iff proto_name [] r.proto x in
    let same = protocols_from-clean_from [] r.proto t in
    let some_rune : x ≢ [] = λ nil.
      absurd
        (elim name [ inl e ↦ ground (arith, sym e ∙ nil) | inr e ↦ ground (arith, sym e ∙ nil) ]) in
    (
      (λ a. (kept (subst (Among x) same (to a))).2),
      (λ f. from (subst (Among x) (sym same) (keep (some_rune, (λ b. b), f)))),
    )

pub packet_protocols-nil :
    (r : Rule) → Each IsTransport r.proto → (packet_protocols r ≡ []) ↔ (r.proto ≡ [])
unfolding packet_protocols protocols_from contains_text
packet_protocols-nil r t = of_list r.proto refl t
  where
    of_list :
        (ps : List Str)
        → r.proto ≡ ps
        → Each IsTransport ps
        → (packet_protocols r ≡ []) ↔ (r.proto ≡ [])
    of_list [] e u = ((λ _. e), (λ _. rw (e, packet_protocols) refl))
    of_list (p ∷ ps) e u = (
      (λ nil. absurd (
          subst (Among (proto_name p)) nil (
            (packet_protocols-Among r (proto_name p) t u.0).1
              (subst (From proto_name (proto_name p)) (sym e) (inl refl))))),
      (λ nil. absurd (ground (arith, sym e ∙ nil))),
    )
