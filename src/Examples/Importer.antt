-- ===== src/Examples/Importer.antt =====
-- internal/importer/uci.go and the reader of internal/config/config.go on a concrete outbound.
use zakop.Prelude.{arith, ◌≡◌, refl, true, false, [], ◌∷◌, ◌++◌, some}
use zakop.Prelude.Int.{pos}
use zakop.Text.{Str, codes, str_eq, trim_left, trim_right, trim_space, is_space, split}
use zakop.Dict.{lookup}
use zakop.Config.Types.{Outbound}
use zakop.Config.Uci.{
  Section, parse_sections, parse_lines, parse_line, parse_trimmed, parse_fields, strip_comment,
  uncomment_from, split_uci_fields, scan, scan_rune, flush, open_section, add_option, add_list,
}
use zakop.Importer.Format.{ApplyOptions, format_outbound, outbound_writes}
use zakop.Importer.Quote.{flat}
use zakop.Importer.RoundTrip.{read_all, parse_sections-format_outbound}
use zakop.Config.ParseOutbound.{parse_outbound}
use zakop.Importer.Endpoint.{SameEndpoint, parse_outbound-format_outbound}
use zakop.Dict.{contains_text}
use zakop.Text.Number.{itoa}
use zakop.Importer.Tag.{unique_tag, unique_from, sanitize_tag, replace_runs, or_node}
use zakop.Importer.Unused.{FirstUnused, unique_tag-FirstUnused}
use zakop.Importer.Fields.{Fields, format_outbound-Fields}

abbrev pub node : Outbound
node = record {
  enabled = true;
  tag = codes "nl 1";
  label = codes "He said \"hi\" # \\";
  type = codes "vless";
  server = codes "example.com";
  port = pos 443;
  uuid = codes "0a-1b";
  flow = [];
  tls = true;
  server_name = [];
  reality = false;
  reality_public_key = [];
  reality_short_id = [];
  alpn = codes "h2" ∷ codes "http/1.1" ∷ [];
  tls_min_version = [];
  tls_max_version = [];
  tls_cipher_suites = [];
  ech = false;
  ech_config = [];
  ech_config_path = [];
  utls_fingerprint = [];
  transport = [];
  packet_encoding = [];
  grpc_service_name = [];
  http_host = [];
  httpupgrade_host = [];
  http_path = [];
  http_method = [];
  ws_host = [];
  ws_path = [];
  ws_early_data = pos 0;
  ws_early_data_header = [];
  password = [];
  method = [];
  insecure = false;
  hysteria_obfs_type = [];
  hysteria_obfs_password = [];
  hysteria_up_mbps = pos 0;
  hysteria_down_mbps = pos 0;
}

abbrev pub from_source : ApplyOptions
from_source = record { source = codes "sub"; subscription = true }

-- A comment, a list and quotes of both kinds.
abbrev sections_text : Str
sections_text =
    codes "config main # first"
    ++ (10 ∷ (codes "\toption mark '0x1 # 2'" ++ (10 ∷ codes "list lan_iface \"a\\\"b\"")))

sections_text-parse :
    parse_sections sections_text
    ≡ some (
        record {
          type = codes "main";
          name = [];
          options = (codes "mark", codes "0x1 # 2") ∷ [];
          lists = (codes "lan_iface", codes "a\"b" ∷ []) ∷ [];
        }
        ∷ [])
unfolding parse_sections parse_lines parse_line parse_trimmed parse_fields strip_comment
    uncomment_from split_uci_fields scan scan_rune flush open_section add_option add_list split
    trim_space trim_left trim_right is_space str_eq lookup
sections_text-parse = refl

parse_sections-format_outbound_example :
    parse_sections (format_outbound node from_source)
    ≡ some (
        record {
          type = codes "outbound";
          name = flat (codes "nl 1");
          options = read_all (outbound_writes node from_source) [];
          lists = [];
        }
        ∷ [])
parse_sections-format_outbound_example = parse_sections-format_outbound node from_source

format_outbound-Fields_example :
    (s : Section) × (parse_sections (format_outbound node from_source) ≡ some (s ∷ []))
    × (s.name ≡ flat node.tag)
    × Fields node (λ key. lookup key s.options)
format_outbound-Fields_example = format_outbound-Fields node from_source

parse_outbound-format_outbound_example :
    (s : Section) × (parse_sections (format_outbound node from_source) ≡ some (s ∷ []))
    × SameEndpoint node (parse_outbound s)
parse_outbound-format_outbound_example =
    parse_outbound-format_outbound node from_source 443 refl (omega arith) (omega arith)

tag_runs :
    (unique_tag (codes " Нода 1! ") (codes "node" ∷ []) ≡ some (codes "node_1"))
    × (unique_tag (codes "fast") (codes "fast_2" ∷ codes "fast" ∷ []) ≡ some (codes "fast_3"))
unfolding unique_tag unique_from sanitize_tag replace_runs trim_space trim_left trim_right is_space
    str_eq contains_text itoa
tag_runs = (refl, refl)

unique_tag-FirstUnused_example :
    (t : Str) × (unique_tag (codes "fast") (codes "fast" ∷ []) ≡ some t)
    × FirstUnused (or_node (sanitize_tag (codes "fast"))) 1 (codes "fast" ∷ []) t
unique_tag-FirstUnused_example = unique_tag-FirstUnused (codes "fast") (codes "fast" ∷ [])
