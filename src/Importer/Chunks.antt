-- ===== src/Importer/Chunks.antt =====
-- internal/importer/uci.go: the configuration as chunks of lines, and the tags of its outbounds.
use zakop.Prelude.{
  Bool, false, not, ◌&&◌, ◌||◌, List, [], ◌∷◌, ◌++◌, Option, none, some, leb, if◌then◌else◌,
}
use zakop.Prelude.Int.{ℤ, pos, negsuc}
use zakop.Text.{Str, codes, str_eq, to_lower, trim_space, split}
use zakop.Text.Number.{itoa, atoi}
use zakop.Dict.{lookup, put}
use zakop.Config.Access.{first_non_empty}
use zakop.Config.Lists.{is_empty}
use zakop.Config.Types.{Outbound}
use zakop.Config.Uci.{scan_start, flush, scan}
use zakop.Provider.Chunks.{Chunk, field, is_config_line, set_by, option_line, sets, option_value}

-- `splitFields`: the loop of `splitUCIFields`, but an open quote is no error.
unfoldable pub text_fields : Str → List Str
text_fields s = (flush (scan scan_start s)).fields

abbrev pub start_section : Str → Chunk
start_section line =
    let fields = text_fields (trim_space line) in
    record { type = field 1 fields; name = field 2 fields; options = []; text = line ∷ [] }

abbrev pub extend_section : Chunk → Str → Chunk
extend_section c line = record c {
  options = set_by (text_fields (trim_space line)) c.options;
  text = c.text ++ (line ∷ []);
}

-- The loop of `parseChunks` behind the first chunk, `cur`.
unfoldable pub sections_from : Chunk → List Str → List Chunk
sections_from cur [] = cur ∷ []
sections_from cur (line ∷ lines) =
    if is_config_line (trim_space line)
    then cur ∷ sections_from (start_section line) lines
    else sections_from (extend_section cur line) lines

abbrev pub first_section : Str → Chunk
first_section line =
    if is_config_line (trim_space line)
    then start_section line
    else record { type = []; name = []; options = []; text = line ∷ [] }

-- Empty lines in front of the first chunk are left out.
unfoldable pub sections_of : List Str → List Chunk
sections_of [] = []
sections_of ([] ∷ lines) = sections_of lines
sections_of ((c ∷ line) ∷ lines) = sections_from (first_section (c ∷ line)) lines

-- `parseChunks`.
unfoldable pub import_chunks : Str → List Chunk
import_chunks data' = sections_of (split 10 data')

-- `firstNonEmpty` of links.go, which removes the spaces around the value.
unfoldable pub first_text : List Str → Str
first_text values = trim_space (first_non_empty values)

abbrev pub option_text : Chunk → Str → Str
option_text c key = option_value (lookup key c.options)

abbrev pub is_outbound : Chunk → Bool
is_outbound c = str_eq c.type (codes "outbound")

unfoldable pub outbound_tag : Chunk → Str
outbound_tag c = trim_space (first_text (option_text c (codes "tag") ∷ c.name ∷ []))

-- `collectOutboundTags`.
abbrev pub built_in_tags : List Str
built_in_tags = codes "direct" ∷ codes "blocked" ∷ codes "block" ∷ codes "proxy_default" ∷ []

unfoldable pub collect_outbound_tags : List Chunk → List Str
collect_outbound_tags [] = built_in_tags
collect_outbound_tags (c ∷ cs) =
    let rest = collect_outbound_tags cs in
    let tag = outbound_tag c in if is_outbound c && not (is_empty tag) then tag ∷ rest else rest

-- `subscriptionNodeKey`, on the fields that it reads.
unfoldable pub credential : Str → Str → Str → Str → Str
credential type uuid password method =
    if str_eq type (codes "vless")
    then trim_space uuid
    else if str_eq type (codes "hysteria2") || str_eq type (codes "trojan")
    then trim_space password
    else if str_eq type (codes "shadowsocks")
    then trim_space method ++ (0 ∷ trim_space password)
    else []

abbrev pub key_at : ℤ → Str → Str → Str → Str
key_at (pos n) type server secret =
    if is_empty type || is_empty server || leb n 0 || is_empty secret
    then []
    else type ++ (0 ∷ (server ++ (0 ∷ (itoa n ++ (0 ∷ secret)))))
key_at (negsuc n) type server secret = []

unfoldable pub node_key : Str → Str → ℤ → Str → Str → Str → Str
node_key type server port uuid password method =
    let kind = to_lower (trim_space type) in
    key_at port kind (to_lower (trim_space server)) (credential kind uuid password method)

unfoldable pub subscription_node_key : Outbound → Str
subscription_node_key o = node_key o.type o.server o.port o.uuid o.password o.method

-- `optionPort`.
abbrev number_or_zero : Option ℤ → ℤ
number_or_zero none = pos 0
number_or_zero (some n) = n

unfoldable pub option_port : Str → ℤ
option_port value = number_or_zero (atoi (trim_space value))

unfoldable pub chunk_key : Chunk → Str
chunk_key c =
    node_key (option_text c (codes "type"))
      (first_text (option_text c (codes "server") ∷ option_text c (codes "address") ∷ []))
      (option_port (option_text c (codes "port"))) (option_text c (codes "uuid"))
      (option_text c (codes "password"))
      (first_text
        (option_text c (codes "method") ∷ option_text c (codes "shadowsocks_encrypt_method") ∷ []))

-- The tags under a key of the map; a key that is missing has none.
abbrev pub tags_at : Option (List Str) → List Str
tags_at none = []
tags_at (some tags) = tags

abbrev pub is_from : Str → Chunk → Bool
is_from source c = is_outbound c && str_eq (option_text c (codes "subscription")) source

-- The loop of `collectSubscriptionTags`.
unfoldable pub collect_from : List (Str × List Str) → List Chunk → Str → List (Str × List Str)
collect_from tags [] source = tags
collect_from tags (c ∷ cs) source =
    let key = chunk_key c in
    let tag = outbound_tag c in
    if is_from source c && not (is_empty key) && not (is_empty tag)
    then collect_from (put key (tags_at (lookup key tags) ++ (tag ∷ [])) tags) cs source
    else collect_from tags cs source

-- `takeSubscriptionTag`, with the map that it leaves.
abbrev pub take_first : Str → List (Str × List Str) → List Str → Str × List (Str × List Str)
take_first key tags [] = ([], tags)
take_first key tags (tag ∷ matched) = (tag, put key matched tags)

unfoldable pub take_subscription_tag : List (Str × List Str) → Str → Str × List (Str × List Str)
take_subscription_tag tags key =
    if is_empty key then ([], tags) else take_first key tags (tags_at (lookup key tags))

-- `setOption`.
unfoldable pub replace_lines : List Str → Str → Str → List Str
replace_lines [] name value = []
replace_lines (line ∷ lines) name value =
    (if sets name line then option_line name value else line) ∷ replace_lines lines name value

unfoldable pub any_sets : List Str → Str → Bool
any_sets [] name = false
any_sets (line ∷ lines) name = sets name line || any_sets lines name

unfoldable pub replace_option : List Str → Str → Str → List Str
replace_option lines name value =
    let replaced = replace_lines lines name value in
    if any_sets lines name then replaced else replaced ++ (option_line name value ∷ [])
