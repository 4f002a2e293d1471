-- ===== src/Nft/Packet.antt =====
-- internal/nft/generator.go: the packets that a rule selects, `rulePacketMatches` and what it calls.
use zakop.Prelude.{suc, not, ◌&&◌, ◌||◌, List, [], ◌∷◌, ◌++◌, Option, none, some, if◌then◌else◌}
use zakop.Prelude.Int.{ℤ, pos, negsuc, ltb_ℤ}
use zakop.Text.{Str, codes, str_eq, to_lower, trim_space, split, join}
use zakop.Text.Number.{itoa, atoi}
use zakop.Dict.{contains_text}
use zakop.Config.Types.{Rule}
use zakop.Config.Lists.{is_empty}

-- `parsePortNumber`; an error is `none`.
unfoldable pub parse_port_number : Str → Option ℤ
parse_port_number value = elim (atoi (trim_space value)) [
  | none ↦ none
  | some n ↦ if ltb_ℤ n (pos 1) || ltb_ℤ (pos 65535) n then none else some n
]

-- `strconv.Itoa`.
abbrev pub int_text : ℤ → Str
int_text (pos n) = itoa n
int_text (negsuc n) = b'-' ∷ itoa (suc n)

-- `parseNFTPort` behind the split.
abbrev pub port_parts : List Str → Option Str
port_parts (a ∷ []) = elim (parse_port_number a) [
  | none ↦ none
  | some start ↦ some (int_text start)
]
port_parts (a ∷ b ∷ []) = elim (parse_port_number a) [
  | none ↦ none
  | some start ↦ elim (parse_port_number b) [
    | none ↦ none
    | some end ↦
        if ltb_ℤ end start then none else some (int_text start ++ (codes "-" ++ int_text end))
  ]
]
port_parts _ = none

-- `parseNFTPort` and `parseNFTPorts`.
unfoldable pub parse_nft_port : Str → Option Str
parse_nft_port value =
    let text = trim_space value in if is_empty text then none else port_parts (split b'-' text)

unfoldable pub parse_nft_ports : List Str → Option (List Str)
parse_nft_ports [] = some []
parse_nft_ports (v ∷ vs) = elim (parse_nft_port v) [
  | none ↦ none
  | some port ↦ elim (parse_nft_ports vs) [ none ↦ none | some ports ↦ some (port ∷ ports) ]
]

-- The loop of `packetProtocols`; `seen` are the keys of the map.
unfoldable pub protocols_from : List Str → List Str → List Str
protocols_from seen [] = []
protocols_from seen (p ∷ ps) =
    let proto = to_lower (trim_space p) in
    let skip =
      (not (str_eq proto (codes "tcp")) && not (str_eq proto (codes "udp")))
      || contains_text seen proto in
    let rest = protocols_from (if skip then seen else proto ∷ seen) ps in
    if skip then rest else proto ∷ rest

abbrev pub both_protocols : List Str
both_protocols = codes "tcp" ∷ codes "udp" ∷ []

-- `packetProtocols`: of both protocols, TCP is first.
unfoldable pub packet_protocols : Rule → List Str
packet_protocols r =
    let out = protocols_from [] r.proto in
    if contains_text out (codes "tcp") && contains_text out (codes "udp")
    then both_protocols
    else out

-- One match of a rule with ports; an empty port is not written.
abbrev pub port_match : Str → Str → Str → Str
port_match proto side port = if is_empty port then [] else proto ++ (side ++ port)

abbrev pub present_parts : List Str → List Str
present_parts [] = []
present_parts (p ∷ ps) = let rest = present_parts ps in if is_empty p then rest else p ∷ rest

abbrev pub match_line : Str → Str → Str → Str → Str
match_line base proto src dst =
    join
      (base
        ∷ present_parts
            (port_match proto (codes " sport ") src ∷ port_match proto (codes " dport ") dst ∷ []))
      (codes " ")

-- The three loops over the protocols, the source ports and the destination ports.
unfoldable pub dst_lines : Str → Str → Str → List Str → List Str
dst_lines base proto src [] = []
dst_lines base proto src (d ∷ ds) = match_line base proto src d ∷ dst_lines base proto src ds

unfoldable pub src_lines : Str → Str → List Str → List Str → List Str
src_lines base proto [] dsts = []
src_lines base proto (s ∷ ss) dsts = dst_lines base proto s dsts ++ src_lines base proto ss dsts

unfoldable pub port_lines : Str → List Str → List Str → List Str → List Str
port_lines base [] srcs dsts = []
port_lines base (p ∷ ps) srcs dsts = src_lines base p srcs dsts ++ port_lines base ps srcs dsts

unfoldable pub protocol_lines : Str → List Str → List Str
protocol_lines base [] = []
protocol_lines base (p ∷ ps) = (base ++ (codes " meta l4proto " ++ p)) ∷ protocol_lines base ps

abbrev pub or_default : List Str → List Str → List Str
or_default fallback [] = fallback
or_default fallback (x ∷ xs) = x ∷ xs

-- `rulePacketMatches` behind the parsers of the ports.
unfoldable pub matches_of : Str → List Str → List Str → List Str → List Str
matches_of base [] [] [] = (base ++ codes " meta l4proto { tcp, udp }") ∷ []
matches_of base (p ∷ ps) [] [] = protocol_lines base (p ∷ ps)
matches_of base protos srcs dsts =
    port_lines base (or_default both_protocols protos) (or_default ([] ∷ []) srcs)
      (or_default ([] ∷ []) dsts)

-- `rulePacketMatches`; an error is `none`.
unfoldable pub rule_packet_matches : Str → Rule → Option (List Str)
rule_packet_matches set_name r = elim (parse_nft_ports r.src_ports) [
  | none ↦ none
  | some srcs ↦ elim (parse_nft_ports r.dst_ports) [
    | none ↦ none
    | some dsts ↦ some (matches_of (codes "ip daddr @" ++ set_name) (packet_protocols r) srcs dsts)
  ]
]
