-- ===== src/Nft/Selects.antt =====
-- The packets that the lines of a rule take are those that the rule admits.
use zakop.Prelude.{◌≡◌, ◌⊎◌, []}
use zakop.Config.Types.{Rule}
use zakop.Config.Clean.{From}
use zakop.Nft.Lines.{Packet, proto_of}
use zakop.Nft.Ranges.{PortAdmitted}
use zakop.Nft.Transports.{proto_name}

abbrev pub Admits : Rule → Packet → Type 0
Admits r k =
    ((r.proto ≡ []) ⊎ From proto_name (proto_of k) r.proto)
    × PortAdmitted k.src r.src_ports
    × PortAdmitted k.dst r.dst_ports
