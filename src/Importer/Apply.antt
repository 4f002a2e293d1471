-- ===== src/Importer/Apply.antt =====
-- internal/importer/uci.go: `ApplyNodes` on the text of the configuration. The time, and the SHA-1
-- of a text in hexadecimal digits, are arguments.
use zakop.Prelude.{
  ℕ, ◌+◌, Bool, not, ◌&&◌, List, [], ◌∷◌, ◌++◌, Option, none, some, map, if◌then◌else◌, take,
  length,
}
use zakop.Text.{Str, codes, str_eq, trim_space, has_suffix}
use zakop.Text.Number.{itoa}
use zakop.Config.Access.{is_blank}
use zakop.Config.Lists.{is_empty}
use zakop.Config.Types.{Outbound}
use zakop.Config.Validate.{Parsed, parsed, parse}
use zakop.Provider.Chunks.{Chunk, lines_text, chunk_lines}
use zakop.Importer.Format.{ApplyOptions, format_outbound}
use zakop.Importer.Tag.{unique_tag}
use zakop.Importer.Chunks.{
  import_chunks, first_text, collect_outbound_tags, collect_from, is_from, subscription_node_key,
  take_subscription_tag, replace_option,
}

-- `Node`.
pub record Node : Type 0 where
  pub outbound : Outbound
  pub raw : Str

-- `tagBase`, with the first ten digits of `shortHash`.
unfoldable pub tag_base : (Str → Str) → Node → ApplyOptions → ℕ → Str
tag_base sha1 node opts index =
    if opts.subscription && not (is_empty opts.source)
    then opts.source
      ++ (b'_'
          ∷ take 10 (sha1 (first_text (node.raw ∷ node.outbound.type ∷ node.outbound.server ∷ []))))
    else first_text
        (node.outbound.label ∷ node.outbound.server ∷ (codes "node_" ++ itoa (index + 1)) ∷ [])

-- The tag of a node: the one that it had, or one that is not used.
unfoldable pub new_tag : (Str → Str) → Node → ApplyOptions → ℕ → List Str → Str → Option Str
new_tag sha1 node opts index used old =
    if not (is_empty old)
    then some old
    else if is_blank node.outbound.tag
    then unique_tag (tag_base sha1 node opts index) used
    else unique_tag node.outbound.tag used

abbrev pub with_tag : Outbound → Str → Outbound
with_tag o tag = record o { tag = tag; label = if is_blank o.label then tag else o.label }

-- The loop over the nodes; `none` is a loop of `uniqueTag` that has not ended.
unfoldable pub tag_nodes :
    (Str → Str)
    → ApplyOptions
    → ℕ
    → List Str
    → List (Str × List Str)
    → List Node
    → Option (List Outbound)
tag_nodes sha1 opts index used matched [] = some []
tag_nodes sha1 opts index used matched (node ∷ nodes) =
    let (old, left) = take_subscription_tag matched (subscription_node_key node.outbound) in
    elim (new_tag sha1 node opts index used old) [
      | none ↦ none
      | some tag ↦ elim (tag_nodes sha1 opts (index + 1) (tag ∷ used) left nodes) [
        | none ↦ none
        | some outbounds ↦ some (with_tag node.outbound tag ∷ outbounds)
      ]
    ]

-- The chunks that stay, and the tags that the nodes may keep.
abbrev pub replaces : ApplyOptions → Bool → Bool
replaces opts replace = replace && not (is_blank opts.source)

unfoldable pub without_source : Str → List Chunk → List Chunk
without_source source [] = []
without_source source (c ∷ cs) =
    let rest = without_source source cs in if is_from source c then rest else c ∷ rest

abbrev pub kept_chunks : Str → ApplyOptions → Bool → List Chunk
kept_chunks data' opts replace =
    if replaces opts replace
    then without_source (trim_space opts.source) (import_chunks data')
    else import_chunks data'

abbrev pub matched_tags : Str → ApplyOptions → Bool → List (Str × List Str)
matched_tags data' opts replace =
    if replaces opts replace
    then collect_from [] (import_chunks data') (trim_space opts.source)
    else []

unfoldable pub tagged_nodes :
    (Str → Str) → Str → List Node → ApplyOptions → Bool → Option (List Outbound)
tagged_nodes sha1 data' nodes opts replace =
    tag_nodes sha1 opts 0 (collect_outbound_tags (kept_chunks data' opts replace))
      (matched_tags data' opts replace) nodes

-- The chunk of the subscription after the refresh.
unfoldable pub refresh_chunk : ApplyOptions → Str → ℕ → Chunk → Chunk
refresh_chunk opts now count c =
    if str_eq c.type (codes "subscription") && str_eq c.name opts.source
    then record c {
      text =
          replace_option
            (replace_option (replace_option c.text (codes "last_update") now) (codes "node_count")
              (itoa count))
            (codes "last_error") [];
    }
    else c

unfoldable pub refresh_chunks : ApplyOptions → Str → ℕ → List Chunk → List Chunk
refresh_chunks opts now count chunks =
    if opts.subscription && not (is_empty opts.source)
    then map (refresh_chunk opts now count) chunks
    else chunks

-- The text that is written.
unfoldable pub end_blank : Str → Str
end_blank text =
    if not (is_empty text) && not (has_suffix text (10 ∷ 10 ∷ [])) then text ++ (10 ∷ []) else text

abbrev pub end_line : Str → Str
end_line section = if has_suffix section (10 ∷ []) then section else section ++ (10 ∷ [])

unfoldable pub sections_text : ApplyOptions → List Outbound → Str
sections_text opts [] = []
sections_text opts (o ∷ os) = end_line (format_outbound o opts) ++ (10 ∷ sections_text opts os)

unfoldable pub applied_text : Str → ApplyOptions → Bool → Str → List Outbound → Str
applied_text data' opts replace now outbounds =
    end_blank (
      lines_text
        (chunk_lines (refresh_chunks opts now (length outbounds) (kept_chunks data' opts replace))))
    ++ sections_text opts outbounds

-- The results of `ApplyNodes`.
pub data Applied : Type 0 where
  no_path : Applied
  no_nodes : Applied
  endless : Applied
  refused_text : Parsed → Applied
  applied : ℕ → Str → Applied

abbrev pub if_valid : ℕ → Str → Parsed → Applied
if_valid count text (parsed c) = applied count text
if_valid count text error = refused_text error

abbrev pub write_applied : Str → ApplyOptions → Bool → Str → Option (List Outbound) → Applied
write_applied data' opts replace now none = endless
write_applied data' opts replace now (some outbounds) =
    let text = applied_text data' opts replace now outbounds in
    if_valid (length outbounds) text (parse text)

-- `ApplyNodes`.
unfoldable pub apply_nodes :
    (Str → Str) → Str → Str → List Node → ApplyOptions → Bool → Str → Applied
apply_nodes sha1 config_path data' nodes opts replace now =
    if is_blank config_path then no_path else elim nodes [
      | [] ↦ no_nodes
      | node ∷ more ↦
          write_applied data' opts replace now (tagged_nodes sha1 data' (node ∷ more) opts replace)
    ]
