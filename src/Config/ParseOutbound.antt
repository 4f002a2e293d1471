-- ===== src/Config/ParseOutbound.antt =====
-- internal/config/config.go: the section of an outbound, `parseOutbound`.
use zakop.Prelude.{Bool, false, not, ◌&&◌, ◌||◌, List, [], ◌∷◌, ◌++◌, if◌then◌else◌}
use zakop.Prelude.Int.{pos}
use zakop.Text.{Str, codes, str_eq, trim_space}
use zakop.Config.Types.{Outbound}
use zakop.Config.Access.{first_non_empty}
use zakop.Config.Lists.{is_empty, clean_list, append_list, split_list_option}
use zakop.Config.ParseSection.{text_of, text_or, has_option}
use zakop.Config.Uci.{Section, option_of, list_of}
use zakop.Config.ApplyMain.{set_bool, set_int, listed}

-- An option, or an older name of it where the first is missing.
abbrev bool_or_older : Section → Str → Str → Bool
bool_or_older s key older =
    if has_option s key then set_bool s key false else set_bool s older false

abbrev listed_or_older : Section → Str → Str → List Str
listed_or_older s key older = clean_list (
    append_list (append_list (list_of s key) (list_of s older))
      (split_list_option (first_non_empty (option_of s key ∷ option_of s older ∷ []))))

-- `parseOutbound`, and its warnings.
unfoldable pub parse_outbound : Section → Outbound
parse_outbound s =
    let tag = trim_space (first_non_empty (option_of s (codes "tag") ∷ s.name ∷ [])) in
    record {
      enabled = not (str_eq tag (codes "proxy_default"));
      tag = tag;
      label = trim_space (
          first_non_empty (
            option_of s (codes "label")
            ∷ option_of s (codes "name")
            ∷ option_of s (codes "tag")
            ∷ s.name
            ∷ []));
      type = text_or s (codes "type") (codes "vless");
      server = text_of s (codes "server" ∷ codes "address" ∷ []);
      port = set_int s (codes "port") (pos 0);
      uuid = trim_space (option_of s (codes "uuid"));
      flow = text_of s (codes "flow" ∷ codes "vless_flow" ∷ []);
      tls = set_bool s (codes "tls") false;
      server_name = text_of s (codes "server_name" ∷ codes "tls_sni" ∷ []);
      reality = bool_or_older s (codes "reality") (codes "tls_reality");
      reality_public_key =
          text_of s (codes "reality_public_key" ∷ codes "tls_reality_public_key" ∷ []);
      reality_short_id = text_of s (codes "reality_short_id" ∷ codes "tls_reality_short_id" ∷ []);
      alpn = listed_or_older s (codes "alpn") (codes "tls_alpn");
      tls_min_version = trim_space (option_of s (codes "tls_min_version"));
      tls_max_version = trim_space (option_of s (codes "tls_max_version"));
      tls_cipher_suites = listed s (codes "tls_cipher_suites");
      ech = bool_or_older s (codes "ech") (codes "tls_ech");
      ech_config = listed_or_older s (codes "ech_config") (codes "tls_ech_config");
      ech_config_path = text_of s (codes "ech_config_path" ∷ codes "tls_ech_config_path" ∷ []);
      utls_fingerprint = text_of s (codes "utls_fingerprint" ∷ codes "tls_utls" ∷ []);
      transport = trim_space (option_of s (codes "transport"));
      packet_encoding = trim_space (option_of s (codes "packet_encoding"));
      grpc_service_name = text_of s (codes "grpc_service_name" ∷ codes "grpc_servicename" ∷ []);
      http_host = listed s (codes "http_host");
      httpupgrade_host = trim_space (option_of s (codes "httpupgrade_host"));
      http_path = trim_space (option_of s (codes "http_path"));
      http_method = trim_space (option_of s (codes "http_method"));
      ws_host = trim_space (option_of s (codes "ws_host"));
      ws_path = trim_space (option_of s (codes "ws_path"));
      ws_early_data = set_int s (codes "websocket_early_data") (pos 0);
      ws_early_data_header = trim_space (option_of s (codes "websocket_early_data_header"));
      password = trim_space (option_of s (codes "password"));
      method = text_of s (codes "method" ∷ codes "shadowsocks_encrypt_method" ∷ []);
      insecure = bool_or_older s (codes "insecure") (codes "tls_insecure");
      hysteria_obfs_type = trim_space (option_of s (codes "hysteria_obfs_type"));
      hysteria_obfs_password = trim_space (option_of s (codes "hysteria_obfs_password"));
      hysteria_up_mbps = set_int s (codes "hysteria_up_mbps") (pos 0);
      hysteria_down_mbps = set_int s (codes "hysteria_down_mbps") (pos 0);
    }

unfoldable pub outbound_warnings : Outbound → List Str
outbound_warnings o =
    (if str_eq o.tag (codes "proxy_default")
      then codes
          "outbound 'proxy_default' is deprecated and ignored; create a custom VLESS, Hysteria2, Shadowsocks, or Trojan outbound with its own tag"
        ∷ []
      else [])
    ++ (if o.enabled && (o.tls || o.reality) && is_empty o.server_name
        then (codes "outbound \""
            ++ (o.tag ++ codes "\": server_name is recommended when tls=1 or reality=1"))
          ∷ []
        else [])
