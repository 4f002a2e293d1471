-- ===== src/Examples/Apply.antt =====
-- internal/importer/uci.go, `ApplyNodes`, on concrete configurations.
use zakop.Prelude.{◌≡◌, refl, true, false, List, [], ◌∷◌, ◌++◌, Option, none, some}
use zakop.Text.{
  Str, codes, str_eq, is_space, lower_rune, to_lower, trim_left, trim_right, trim_space, has_prefix,
  split,
}
use zakop.Text.Number.{itoa, digits_onto, atoi, number, number_from, digit_value}
use zakop.Dict.{lookup, contains_text}
use zakop.Config.Access.{is_blank, first_non_empty}
use zakop.Config.Types.{Outbound}
use zakop.Config.Uci.{flush, scan_rune, scan}
use zakop.Config.Validate.Fresh.{Each}
use zakop.Config.Clean.{Distinct}
use zakop.Importer.Written.{IsFileAndSections}
use zakop.Provider.Chunks.{is_config_line}
use zakop.Importer.Format.{ApplyOptions}
use zakop.Importer.Tag.{unique_tag, unique_from, sanitize_tag, replace_runs}
use zakop.Importer.Chunks.{
  text_fields, sections_from, sections_of, import_chunks, first_text, outbound_tag,
  collect_outbound_tags, credential, node_key, subscription_node_key, option_port, chunk_key,
  collect_from, take_subscription_tag,
}
use zakop.Importer.Apply.{
  Node, tag_base, new_tag, tag_nodes, without_source, tagged_nodes, apply_nodes,
}
use zakop.Importer.Assigned.{AreTagged, IsNew, tags_of, IsWritten, apply_nodes-AreTagged}
use zakop.Examples.Importer.{node, from_source}

abbrev digest : Str → Str
digest s = codes "0123456789abcdef"

abbrev with_server : Str → Node
with_server s = record { outbound = record node { tag = []; server = s }; raw = s }

abbrev path : Str
path = codes "/etc/config/zakop"

abbrev file : Str
file = codes "config outbound 'sub_0123456789'\n\toption type 'vless'\n"

path-given : is_blank path ≡ false
unfolding is_blank trim_space trim_left trim_right is_space
path-given = refl

-- The options of an import of links.
abbrev manual : ApplyOptions
manual = record { source = codes "manual"; subscription = false }

abbrev two_nodes : List Node
two_nodes = with_server (codes "a") ∷ with_server (codes "b") ∷ []

apply_nodes-AreTagged_example :
    (os : List Outbound) × AreTagged two_nodes os
    × Distinct (tags_of os)
    × Each (λ tag. IsNew tag (import_chunks file)) (tags_of os)
    × (text : Str) × IsFileAndSections file manual os text
    × IsWritten (apply_nodes digest path file two_nodes manual false (codes "7")) 2 text
apply_nodes-AreTagged_example =
    apply_nodes-AreTagged digest path file (codes "7") (with_server (codes "a"))
      (with_server (codes "b") ∷ []) manual false path-given refl refl

-- The tags of two new nodes of one digest, where the first one is used.
abbrev tags_in : Option (List Outbound) → List Str
tags_in none = []
tags_in (some os) = tags_of os

new_tags :
    tags_in (
      tagged_nodes digest file
        (with_server (codes "a") ∷ with_server (codes "b") ∷ [])
        from_source
        false)
    ≡ codes "sub_0123456789_2" ∷ codes "sub_0123456789_3" ∷ []
unfolding text_fields sections_from sections_of import_chunks first_text outbound_tag
    collect_outbound_tags credential node_key subscription_node_key option_port chunk_key
    collect_from take_subscription_tag tag_base new_tag tag_nodes without_source tagged_nodes
    unique_tag unique_from sanitize_tag replace_runs is_config_line flush scan_rune scan is_blank
    first_non_empty lookup contains_text itoa digits_onto atoi number number_from digit_value str_eq
    is_space to_lower lower_rune trim_left trim_right trim_space has_prefix split
new_tags = refl

-- In a refresh of a subscription with a name of 48 characters, which `sanitizeTag` makes the whole
-- tag, a new node gets the tag that the node behind it keeps.
abbrev long_name : Str
long_name = codes "abcdefghijklmnopqrstuvwxyzabcdefghijklmnopqrstuv"

abbrev subscribed : Str
subscribed =
    codes "config outbound '"
    ++ (long_name
        ++ (codes
              "'\n\toption type 'vless'\n\toption server 'b'\n\toption port '443'\n\toption uuid '0a-1b'\n\toption subscription '"
            ++ (long_name ++ codes "'\n")))

same_tag :
    tags_in (
      tagged_nodes digest subscribed
        (with_server (codes "a") ∷ with_server (codes "b") ∷ [])
        (record { source = long_name; subscription = true })
        true)
    ≡ long_name ∷ long_name ∷ []
unfolding text_fields sections_from sections_of import_chunks first_text outbound_tag
    collect_outbound_tags credential node_key subscription_node_key option_port chunk_key
    collect_from take_subscription_tag tag_base new_tag tag_nodes without_source tagged_nodes
    unique_tag unique_from sanitize_tag replace_runs is_config_line flush scan_rune scan is_blank
    first_non_empty lookup contains_text itoa digits_onto atoi number number_from digit_value str_eq
    is_space to_lower lower_rune trim_left trim_right trim_space has_prefix split
same_tag = refl
