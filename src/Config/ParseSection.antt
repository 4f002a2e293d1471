-- ===== src/Config/ParseSection.antt =====
-- internal/config/config.go: the sections other than the main one.
use zakop.Prelude.{
  ltb, ◌%◌, ◌^◌, ℕ, suc, ◌+◌, ◌-◌, ◌*◌, Bool, true, false, not, ◌&&◌, List, [], ◌∷◌, ◌++◌, Option,
  none, some, if◌then◌else◌, length, take,
}
use zakop.Prelude.Int.{ℤ, pos, negsuc}
use zakop.Text.{Str, codes, str_eq, trim_space, has_suffix}
use zakop.Text.Number.{itoa, atoi}
use zakop.Dict.{lookup}
use zakop.Config.Types.{Rule, Provider, OutboundPool, Subscription, Client}
use zakop.Config.Access.{is_blank, first_non_empty}
use zakop.Config.Lists.{
  is_empty, clean_list, clean_domain_list, trim_list, append_list, split_list_option,
  safe_provider_name, normalize_client_policy, normalize_client_outbound,
}
use zakop.Config.Uci.{Section, option_of, list_of}
use zakop.Config.ApplyMain.{set_bool, set_int, lower_trimmed, listed, all_lower_trimmed}

-- `firstNonEmpty` of the options under these names, trimmed.
abbrev options : Section → List Str → List Str
options s [] = []
options s (key ∷ keys) = option_of s key ∷ options s keys

abbrev pub text_of : Section → List Str → Str
text_of s keys = trim_space (first_non_empty (options s keys))

abbrev pub text_or : Section → Str → Str → Str
text_or s key fallback = trim_space (first_non_empty (option_of s key ∷ fallback ∷ []))

abbrev pub has_option : Section → Str → Bool
has_option s key = elim (lookup key s.options) [ none ↦ false | some v ↦ true ]

-- `parseRule`; the quotes of `%q` around a name are those of a name without special characters.
abbrev rule_name : Section → ℕ → Str
rule_name s order =
    first_non_empty (option_of s (codes "name") ∷ s.name ∷ (codes "rule_" ++ itoa (order + 1)) ∷ [])

abbrev rule_warning : Section → ℕ → Str → Str
rule_warning s order text = codes "rule \"" ++ (rule_name s order ++ (codes "\": " ++ text))

abbrev rule_action : Section → Str
rule_action s = lower_trimmed (first_non_empty (option_of s (codes "action") ∷ codes "proxy" ∷ []))

abbrev rule_outbound : Section → Str
rule_outbound s =
    let o = trim_space (option_of s (codes "outbound")) in
    if not (str_eq (rule_action s) (codes "proxy"))
    then codes "direct"
    else if str_eq o (codes "proxy_default")
    then []
    else o

abbrev both_lists : Section → Str → Str → List Str
both_lists s a b = clean_domain_list (append_list (list_of s a) (list_of s b))

unfoldable pub parse_rule : Section → ℕ → Rule
parse_rule s order = record {
  name = rule_name s order;
  enabled = set_bool s (codes "enabled") true;
  priority = set_int s (codes "priority") (pos (1000 + order));
  action = rule_action s;
  outbound = rule_outbound s;
  dns_mode = first_non_empty (option_of s (codes "dns_mode") ∷ codes "auto" ∷ []);
  domain_equals = both_lists s (codes "domain_equals") (codes "domain_exact");
  domain_contains = both_lists s (codes "domain_contains") (codes "domain_keyword");
  domain_starts_with = both_lists s (codes "domain_starts_with") (codes "domain_prefix");
  domain_ends_with = both_lists s (codes "domain_ends_with") (codes "domain_suffix");
  exclude_domain_equals =
      both_lists s (codes "exclude_domain_equals") (codes "exclude_domain_exact");
  exclude_domain_contains =
      both_lists s (codes "exclude_domain_contains") (codes "exclude_domain_keyword");
  exclude_domain_starts_with =
      both_lists s (codes "exclude_domain_starts_with") (codes "exclude_domain_prefix");
  exclude_domain_ends_with =
      both_lists s (codes "exclude_domain_ends_with") (codes "exclude_domain_suffix");
  domain_files = listed s (codes "domain_file");
  ip_cidrs = listed s (codes "ip_cidr");
  files = clean_list (
      append_list (append_list (list_of s (codes "ip_file")) (list_of s (codes "file")))
        (split_list_option (option_of s (codes "ip_file"))));
  domain_providers = listed s (codes "domain_provider");
  ip_providers = listed s (codes "ip_provider");
  providers = listed s (codes "provider");
  proto = all_lower_trimmed (clean_list (list_of s (codes "proto")));
  src_ports = clean_list (list_of s (codes "src_port"));
  dst_ports = clean_list (list_of s (codes "dst_port"));
}

unfoldable pub rule_warnings : Section → ℕ → List Str
rule_warnings s order =
    (if str_eq (trim_space (option_of s (codes "outbound"))) (codes "proxy_default")
      then rule_warning s order
          (codes "outbound 'proxy_default' is deprecated; choose a custom outbound")
        ∷ []
      else [])
    ++ (if has_option s (codes "match_all")
        then rule_warning s order (codes "match_all is deprecated and ignored") ∷ []
        else [])

-- `parseUpdateSchedule`.
unfoldable pub parse_update_schedule : Section → Str
parse_update_schedule s =
    let value = lower_trimmed (option_of s (codes "update_schedule")) in
    if not (is_empty value)
    then value
    else if not (is_blank (option_of s (codes "update_interval_minutes")))
    then codes "interval"
    else codes "time"

-- `strings.TrimSuffix` of one character.
abbrev without_suffix : Str → Str → Str
without_suffix s suffix = if has_suffix s suffix then take (length s - length suffix) s else s

-- The `int` of 64 bits with these bits.
abbrev int_of : ℕ → ℤ
int_of n = if ltb n (2 ^ 63) then pos n else negsuc (2 ^ 64 - 1 - n)

abbrev scaled : ℕ → Option ℤ → ℤ
scaled k none = pos 0
scaled k (some (pos n)) = int_of (n * k % 2 ^ 64)
scaled k (some (negsuc n)) = int_of ((2 ^ 64 - suc n * k % 2 ^ 64) % 2 ^ 64)

-- `parseUpdateIntervalMinutes`.
unfoldable pub parse_update_interval_minutes : Str → ℤ → ℤ
parse_update_interval_minutes raw fallback =
    let value = lower_trimmed raw in
    if is_empty value
    then fallback
    else if has_suffix value (codes "m")
    then scaled 1 (atoi (trim_space (without_suffix value (codes "m"))))
    else if has_suffix value (codes "h")
    then scaled 60 (atoi (trim_space (without_suffix value (codes "h"))))
    else if has_suffix value (codes "d")
    then scaled 1440 (atoi (trim_space (without_suffix value (codes "d"))))
    else scaled 1 (atoi (trim_space value))

abbrev interval_of : Section → ℤ
interval_of s =
    parse_update_interval_minutes
      (first_non_empty (
        option_of s (codes "update_interval_minutes") ∷ option_of s (codes "update_interval") ∷ []))
      (pos 360)

-- The hour and the minute of an update, which providers and subscriptions read alike.
abbrev number_or : Option ℤ → ℤ → ℤ
number_or none old = old
number_or (some n) old = n

abbrev hour_text : Section → Str
hour_text s =
    let hour = option_of s (codes "update_hour") in
    if is_empty hour && str_eq (parse_update_schedule s) (codes "time")
    then option_of s (codes "update_interval")
    else hour

unfoldable pub update_hour_of : Section → ℤ
update_hour_of s =
    number_or
      (atoi
        (without_suffix (trim_space (first_non_empty (hour_text s ∷ codes "0" ∷ []))) (codes "h")))
      (pos 0)

abbrev update_minute_of : Section → ℕ → ℤ
update_minute_of s fallback =
    number_or
      (atoi
        (trim_space (first_non_empty (option_of s (codes "update_minute") ∷ itoa fallback ∷ []))))
      (pos fallback)

abbrev count_of : Str → ℤ
count_of v = if is_empty v then pos 0 else number_or (atoi v) (pos 0)

-- `parseProvider`.
unfoldable pub parse_provider : Section → Provider
parse_provider s =
    let name =
      trim_space (
        first_non_empty (s.name ∷ option_of s (codes "name") ∷ option_of s (codes "label") ∷ [])) in
    record {
      name = safe_provider_name name;
      label =
          trim_space (
            first_non_empty (option_of s (codes "label") ∷ option_of s (codes "name") ∷ name ∷ []));
      enabled = true;
      type = text_or s (codes "type") (codes "ip");
      source = text_or s (codes "source") (codes "url");
      url = trim_space (option_of s (codes "url"));
      script_path = trim_space (option_of s (codes "script_path"));
      local_path = trim_space (option_of s (codes "local_path"));
      auto_update = set_bool s (codes "auto_update") false;
      update_schedule = parse_update_schedule s;
      update_hour = update_hour_of s;
      update_minute = update_minute_of s 5;
      update_interval_minutes = interval_of s;
      update_via = text_or s (codes "update_via") (codes "direct");
      update_outbound = trim_space (option_of s (codes "update_outbound"));
      last_update = trim_space (option_of s (codes "last_update"));
      item_count = count_of (
          first_non_empty
            (option_of s (codes "item_count") ∷ option_of s (codes "node_count") ∷ []));
      files = listed s (codes "file");
    }

-- `parseSubscription`.
unfoldable pub parse_subscription : Section → Subscription
parse_subscription s = record {
  name = trim_space s.name;
  label =
      trim_space
        (first_non_empty (option_of s (codes "label") ∷ option_of s (codes "name") ∷ s.name ∷ []));
  enabled = set_bool s (codes "enabled") true;
  url = trim_space (option_of s (codes "url"));
  auto_update = set_bool s (codes "auto_update") false;
  update_schedule = parse_update_schedule s;
  update_hour = update_hour_of s;
  update_minute = update_minute_of s 0;
  update_interval_minutes = interval_of s;
  update_via = text_or s (codes "update_via") (codes "direct");
  update_outbound = trim_space (option_of s (codes "update_outbound"));
  last_update = trim_space (option_of s (codes "last_update"));
  node_count = count_of (option_of s (codes "node_count"));
}

-- `parseOutboundPool`.
unfoldable pub parse_outbound_pool : Section → OutboundPool
parse_outbound_pool s = record {
  tag = trim_space (first_non_empty (option_of s (codes "tag") ∷ s.name ∷ []));
  label = trim_space (
      first_non_empty (
        option_of s (codes "label")
        ∷ option_of s (codes "name")
        ∷ option_of s (codes "tag")
        ∷ s.name
        ∷ []));
  outbounds = trim_list (
      append_list (list_of s (codes "outbound"))
        (split_list_option (option_of s (codes "outbound"))));
  check_url = text_or s (codes "check_url") (codes "https://www.gstatic.com/generate_204");
  check_interval =
      let v = trim_space (option_of s (codes "check_interval")) in
      if is_empty v then pos 60 else number_or (atoi v) (pos 60);
}

-- The case "client" of `Parse`: the client, and the warning, which is empty where there is none.
unfoldable pub parse_client : Section → Client × Str
parse_client s =
    let (policy, warning) =
      normalize_client_policy
        (first_non_empty (option_of s (codes "policy") ∷ codes "default" ∷ [])) in
    (
      record {
        name = first_non_empty (option_of s (codes "name") ∷ s.name ∷ []);
        ip = option_of s (codes "ip");
        policy = policy;
        outbound = normalize_client_outbound (option_of s (codes "outbound"));
      },
      warning,
    )
