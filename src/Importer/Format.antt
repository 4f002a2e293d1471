-- ===== src/Importer/Format.antt =====
-- internal/importer/uci.go: `formatOutbound` and what it calls.
use zakop.Prelude.{ℕ, zero, suc, Bool, List, [], ◌∷◌, ◌++◌, ◌==◌, if◌then◌else◌}
use zakop.Prelude.Int.{ℤ, pos, negsuc}
use zakop.Text.{Str, codes}
use zakop.Text.Number.{itoa}
use zakop.Config.Access.{is_blank}
use zakop.Config.Types.{Outbound}

-- `strings.ReplaceAll(s, old, new)` for an `old` of one character.
unfoldable pub replace_all : ℕ → Str → Str → Str
replace_all old new [] = []
replace_all old new (c ∷ s) =
    let rest = replace_all old new s in if c == old then new ++ rest else c ∷ rest

-- `quote` without the outer quotes.
unfoldable pub quoted_text : Str → Str
quoted_text value =
    let slashes = replace_all b'\\' (b'\\' ∷ b'\\' ∷ []) value in
    let quotes = replace_all b'"' (b'\\' ∷ b'"' ∷ []) slashes in
    replace_all 10 (b' ' ∷ []) (replace_all 13 (b' ' ∷ []) quotes)

abbrev pub quote : Str → Str
quote value = b'"' ∷ (quoted_text value ++ (b'"' ∷ []))

-- What `writeOption` adds to the text.
unfoldable pub write_option : Str → Str → Str
write_option name value =
    if is_blank value
    then []
    else 9 ∷ (codes "option " ++ (name ++ (b' ' ∷ (quote value ++ (10 ∷ [])))))

unfoldable pub write_bool : Str → Bool → Str
write_bool name value = if value then write_option name (codes "1") else []

unfoldable pub write_list : Str → List Str → Str
write_list name [] = []
write_list name (value ∷ values) = write_option name value ++ write_list name values

-- `if n > 0 { writeOption(name, strconv.Itoa(n)) }`.
unfoldable pub write_positive : Str → ℤ → Str
write_positive name (pos zero) = []
write_positive name (pos (suc n)) = write_option name (itoa (suc n))
write_positive name (negsuc n) = []

-- One call of the functions above.
pub data Write : Type 0 where
  option : Str → Str → Write
  flag : Str → Bool → Write
  many : Str → List Str → Write
  positive : Str → ℤ → Write

abbrev pub write : Write → Str
write (option name value) = write_option name value
write (flag name value) = write_bool name value
write (many name values) = write_list name values
write (positive name n) = write_positive name n

abbrev pub write_all : List Write → Str
write_all [] = []
write_all (w ∷ ws) = write w ++ write_all ws

-- The fields of `ApplyOptions` that the text depends on.
pub record ApplyOptions : Type 0 where
  pub source : Str
  pub subscription : Bool

abbrev source_writes : ApplyOptions → List Write
source_writes opts =
    if opts.subscription
    then option (codes "subscription") opts.source ∷ []
    else elim opts.source [ [] ↦ [] | c ∷ s ↦ option (codes "import_source") (c ∷ s) ∷ [] ]

abbrev pub tls_writes : Outbound → List Write
tls_writes out =
    option (codes "server") out.server
    ∷ positive (codes "port") out.port
    ∷ option (codes "uuid") out.uuid
    ∷ option (codes "flow") out.flow
    ∷ flag (codes "tls") out.tls
    ∷ option (codes "server_name") out.server_name
    ∷ flag (codes "reality") out.reality
    ∷ option (codes "reality_public_key") out.reality_public_key
    ∷ option (codes "reality_short_id") out.reality_short_id
    ∷ []

abbrev pub transport_writes : Outbound → List Write
transport_writes out =
    option (codes "tls_min_version") out.tls_min_version
    ∷ option (codes "tls_max_version") out.tls_max_version
    ∷ many (codes "tls_cipher_suites") out.tls_cipher_suites
    ∷ flag (codes "ech") out.ech
    ∷ many (codes "ech_config") out.ech_config
    ∷ option (codes "ech_config_path") out.ech_config_path
    ∷ option (codes "utls_fingerprint") out.utls_fingerprint
    ∷ option (codes "transport") out.transport
    ∷ option (codes "packet_encoding") out.packet_encoding
    ∷ option (codes "grpc_service_name") out.grpc_service_name
    ∷ many (codes "http_host") out.http_host
    ∷ option (codes "httpupgrade_host") out.httpupgrade_host
    ∷ option (codes "http_path") out.http_path
    ∷ option (codes "http_method") out.http_method
    ∷ option (codes "ws_host") out.ws_host
    ∷ option (codes "ws_path") out.ws_path
    ∷ positive (codes "websocket_early_data") out.ws_early_data
    ∷ option (codes "websocket_early_data_header") out.ws_early_data_header
    ∷ option (codes "password") out.password
    ∷ option (codes "method") out.method
    ∷ flag (codes "insecure") out.insecure
    ∷ option (codes "hysteria_obfs_type") out.hysteria_obfs_type
    ∷ option (codes "hysteria_obfs_password") out.hysteria_obfs_password
    ∷ positive (codes "hysteria_up_mbps") out.hysteria_up_mbps
    ∷ positive (codes "hysteria_down_mbps") out.hysteria_down_mbps
    ∷ []

-- The calls of `formatOutbound` in front of the list "alpn".
abbrev pub first_writes : Outbound → ApplyOptions → List Write
first_writes out opts =
    option (codes "tag") out.tag
    ∷ option (codes "label") out.label
    ∷ option (codes "type") out.type
    ∷ option (codes "imported") (codes "1")
    ∷ (source_writes opts ++ tls_writes out)

unfoldable pub outbound_writes : Outbound → ApplyOptions → List Write
outbound_writes out opts =
    first_writes out opts ++ (many (codes "alpn") out.alpn ∷ transport_writes out)

-- `formatOutbound`.
unfoldable pub format_outbound : Outbound → ApplyOptions → Str
format_outbound out opts =
    codes "config outbound " ++ (quote out.tag ++ (10 ∷ write_all (outbound_writes out opts)))
