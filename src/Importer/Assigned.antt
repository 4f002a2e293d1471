-- ===== src/Importer/Assigned.antt =====
-- The tags that imported nodes get, and what is written for them.
use zakop.Prelude.{
  ℕ, suc, ap, true, not, ◌&&◌, if◌then◌else◌, sym, ◌∙◌, ◌+◌, ◌≡◌, ◌≢◌, ◌⊎◌, inl, inr, refl, Bool,
  false, List, [], ◌∷◌, some, map, arith, length, Bool-cases,
}
use zakop.Text.{Str, codes, trim_space}
use zakop.Text.Match.{str_eq_iff}
use zakop.Text.Trim.{trim_space_again}
use zakop.Provider.Chunks.{Chunk}
use zakop.Importer.Written.{IsFileAndSections, applied_text-IsFileAndSections}
use zakop.Config.Access.{is_blank, first_non_empty}
use zakop.Config.Types.{Outbound, Config}
use zakop.Config.Clean.{Among, Distinct, contains_text_iff}
use zakop.Config.Lists.{is_empty}
use zakop.Config.Validate.{Parsed, bad_line, refused, parsed, parse}
use zakop.Config.Validate.Fresh.{Fresh, Fresh-Distinct, Each}
use zakop.Dict.{lookup}
use zakop.Importer.Format.{ApplyOptions}
use zakop.Importer.Tag.{unique_tag}
use zakop.Importer.Unused.{unique_tag-FirstUnused}
use zakop.Importer.Chunks.{
  import_chunks, first_text, option_text, is_outbound, outbound_tag, collect_outbound_tags,
  subscription_node_key, take_subscription_tag,
}
use zakop.Importer.Apply.{
  Node, tag_base, new_tag, with_tag, tag_nodes, replaces, tagged_nodes, applied_text, Applied,
  applied, refused_text, if_valid, apply_nodes,
}

unique_tag-unused :
    (base : Str) (used : List Str) → (t : Str) × (unique_tag base used ≡ some t) × (¬ Among t used)
unique_tag-unused base used =
    let (t, found, (_, _, _, new, _)) = unique_tag-FirstUnused base used in
    (t, found, λ old. absurd (ground (arith, new, (contains_text_iff used t).1 old)))

new_tag-unused :
    (sha1 : Str → Str) (node : Node) (opts : ApplyOptions) (index : ℕ) (used : List Str)
    → (t : Str) × (new_tag sha1 node opts index used [] ≡ some t) × (¬ Among t used)
unfolding new_tag
new_tag-unused sha1 node opts index used = elim (Bool-cases (is_blank node.outbound.tag)) [
  | inl blank ↦ rw blank (unique_tag-unused (tag_base sha1 node opts index) used)
  | inr given ↦ rw given (unique_tag-unused node.outbound.tag used)
]

-- Without old tags, the map of old tags stays empty.
take_subscription_tag-none : (key : Str) → take_subscription_tag [] key ≡ ([], [])
unfolding take_subscription_tag lookup
take_subscription_tag-none key = elim (Bool-cases (is_empty key)) [
  | inl no_key ↦ rw no_key refl
  | inr some_key ↦ rw some_key refl
]

abbrev pub tags_of : List Outbound → List Str
tags_of outbounds = map (λ o. o.tag) outbounds

-- Every outbound is that of its node with a tag, which is its label too where it has none.
abbrev pub AreTagged : List Node → List Outbound → Type 0
AreTagged [] [] = Unit
AreTagged (n ∷ ns) (o ∷ os) =
    (o ≡ record n.outbound {
      tag = o.tag;
      label = if is_blank n.outbound.label then o.tag else n.outbound.label;
    })
    × AreTagged ns os
AreTagged _ _ = ⊥

AreTagged-length : (ns : List Node) (os : List Outbound) → AreTagged ns os → length os ≡ length ns
AreTagged-length [] [] a = refl
AreTagged-length (n ∷ ns) (o ∷ os) a = ap suc (AreTagged-length ns os a.1)
AreTagged-length [] (o ∷ os) a = absurd a
AreTagged-length (n ∷ ns) [] a = absurd a

tag_nodes-Fresh :
    (sha1 : Str → Str) (opts : ApplyOptions) (index : ℕ) (used : List Str) (nodes : List Node)
    → (os : List Outbound) × (tag_nodes sha1 opts index used [] nodes ≡ some os)
      × AreTagged nodes os
      × Fresh used (tags_of os)
unfolding tag_nodes
tag_nodes-Fresh sha1 opts index used [] = ([], refl, tt, tt)
tag_nodes-Fresh sha1 opts index used (node ∷ nodes) =
    let nothing_old = take_subscription_tag-none (subscription_node_key node.outbound) in
    let (t, found, new) = new_tag-unused sha1 node opts index used in
    let (os, tagged, same, fresh) = tag_nodes-Fresh sha1 opts (index + 1) (t ∷ used) nodes in
    (
      with_tag node.outbound t ∷ os,
      rw (nothing_old, tag_nodes, found, nothing_old, tagged) refl,
      (refl, same),
      (new, fresh),
    )

-- The section is an outbound with this tag, which is its option "tag" or, where that is blank, its
-- name, less the spaces around it.
abbrev pub TagIs : Chunk → Str → Type 0
TagIs c tag =
    ((is_blank (option_text c (codes "tag")) ≡ false)
      × (trim_space (option_text c (codes "tag")) ≡ tag))
    ⊎ ((is_blank (option_text c (codes "tag")) ≡ true) × (trim_space c.name ≡ tag))

abbrev pub HasTag : Str → Chunk → Type 0
HasTag tag c = (c.type ≡ codes "outbound") × TagIs c tag × (tag ≢ [])

first_text_or :
    (s name tag : Str)
    → ((is_blank s ≡ false) × (trim_space s ≡ tag))
      ⊎ ((is_blank s ≡ true) × (trim_space name ≡ tag))
    → tag ≢ []
    → trim_space (first_text (s ∷ name ∷ [])) ≡ tag
unfolding first_text first_non_empty is_blank
first_text_or s name tag (inl (given, e)) some_rune = rw given (trim_space_again s ∙ e)
first_text_or s name tag (inr (blank, e)) some_rune = rw blank (elim (Bool-cases (is_blank name)) [
  | inr named ↦ rw named (trim_space_again name ∙ e)
  | inl none_left ↦ absurd (some_rune (sym e ∙ (str_eq_iff (trim_space name) []).0 none_left))
])

not_empty : (s : Str) → s ≢ [] → is_empty s ≡ false
not_empty [] some_rune = absurd (some_rune refl)
not_empty (c ∷ s) some_rune = refl

HasTag-Among :
    (tag : Str) (c : Chunk) (cs : List Chunk)
    → HasTag tag c
    → Among tag (collect_outbound_tags (c ∷ cs))
unfolding collect_outbound_tags outbound_tag
HasTag-Among tag c cs (outbound, is, some_rune) =
    let same : outbound_tag c ≡ tag =
      first_text_or (option_text c (codes "tag")) c.name tag is some_rune in
    let kept : (is_outbound c && not (is_empty (outbound_tag c))) ≡ true = ground (
      arith,
      (str_eq_iff c.type (codes "outbound")).1 outbound,
      not_empty (outbound_tag c) (λ e. some_rune (sym same ∙ e)),
    ) in
    rw kept (inl same)

Among-collect :
    (x : Str) (c : Chunk) (cs : List Chunk)
    → Among x (collect_outbound_tags cs)
    → Among x (collect_outbound_tags (c ∷ cs))
unfolding collect_outbound_tags
Among-collect x c cs a = elim (Bool-cases (is_outbound c && not (is_empty (outbound_tag c)))) [
  | inl one ↦ rw one (inr a)
  | inr none_more ↦ rw none_more a
]

-- The tag is no built-in one and no section of the file has it.
abbrev pub IsNew : Str → List Chunk → Type 0
IsNew tag chunks =
    (¬ Among tag (codes "direct" ∷ codes "blocked" ∷ codes "block" ∷ codes "proxy_default" ∷ []))
    × Each (λ c. ¬ HasTag tag c) chunks

unused-IsNew : (tag : Str) (cs : List Chunk) → ¬ Among tag (collect_outbound_tags cs) → IsNew tag cs
unfolding collect_outbound_tags
unused-IsNew tag [] new = (new, tt)
unused-IsNew tag (c ∷ cs) new =
    let (no_built_in, each) = unused-IsNew tag cs (λ a. new (Among-collect tag c cs a)) in
    (no_built_in, ((λ h. new (HasTag-Among tag c cs h)), each))

Fresh-IsNew :
    (used : List Str) (cs : List Chunk) (tags : List Str)
    → ((x : Str) → Among x (collect_outbound_tags cs) → Among x used)
    → Fresh used tags
    → Each (λ tag. IsNew tag cs) tags
Fresh-IsNew used cs [] within f = tt
Fresh-IsNew used cs (t ∷ ts) within f = (
  unused-IsNew t cs (λ a. f.0 (within t a)),
  Fresh-IsNew (t ∷ used) cs ts (λ x a. inr (within x a)) f.1,
)

-- `Parse` accepts the text that is written, or it is not written.
abbrev pub IsWritten : Applied → ℕ → Str → Type 0
IsWritten result count text =
    ((result ≡ applied count text) × ((c : Config) × (parse text ≡ parsed c)))
    ⊎ ((result ≡ refused_text (parse text)) × ((c : Config) → parse text ≢ parsed c))

if_valid-cases :
    (count : ℕ) (text : Str) (p : Parsed)
    → ((if_valid count text p ≡ applied count text) × ((c : Config) × (p ≡ parsed c)))
      ⊎ ((if_valid count text p ≡ refused_text p) × ((c : Config) → p ≢ parsed c))
if_valid-cases count text (parsed c) = inl (refl, (c, refl))
if_valid-cases count text bad_line = inr (refl, λ c e. absurd (ground (arith, e)))
if_valid-cases count text (refused error) = inr (refl, λ c e. absurd (ground (arith, e)))

-- Where no nodes of a source are replaced and the source is no subscription, as in an import of
-- links, `ApplyNodes` with a path and some nodes makes of every node an outbound that differs from
-- that of the node by its tag, and by its label where it had none, which is the tag. The tags are
-- distinct, no outbound section of the file has one, and none is built in. The text is that of the
-- file, less the line feeds in front of it, and behind it, each after line feeds, the sections that
-- `formatOutbound` makes of these outbounds. If `Parse` accepts the text, it is written, and the
-- result is the number of nodes; otherwise nothing is written and the error is that of `Parse`.
pub apply_nodes-AreTagged :
    (sha1 : Str → Str) (config_path data' now : Str) (node : Node) (more : List Node)
    (opts : ApplyOptions) (replace : Bool)
    → is_blank config_path ≡ false
    → replaces opts replace ≡ false
    → opts.subscription ≡ false
    → (os : List Outbound) × AreTagged (node ∷ more) os
      × Distinct (tags_of os)
      × Each (λ tag. IsNew tag (import_chunks data')) (tags_of os)
      × (text : Str) × IsFileAndSections data' opts os text
      × IsWritten
          (apply_nodes sha1 config_path data' (node ∷ more) opts replace now)
          (length (node ∷ more))
          text
unfolding apply_nodes tagged_nodes
apply_nodes-AreTagged sha1 config_path data' now node more opts replace path keeps manual =
    let used = collect_outbound_tags (import_chunks data') in
    let (os, tagged, same, fresh) = tag_nodes-Fresh sha1 opts 0 used (node ∷ more) in
    let text = applied_text data' opts replace now os in
    let chosen : tagged_nodes sha1 data' (node ∷ more) opts replace ≡ some os =
      rw (tagged_nodes, keeps) tagged in
    let count = AreTagged-length (node ∷ more) os same in
    let result : apply_nodes sha1 config_path data' (node ∷ more) opts replace now
        ≡ if_valid (length (node ∷ more)) text (parse text) =
      rw (apply_nodes, path, chosen, count) refl in
    (
      os,
      same,
      Fresh-Distinct used (tags_of os) fresh,
      Fresh-IsNew used (import_chunks data') (tags_of os) (λ x a. a) fresh,
      text,
      applied_text-IsFileAndSections data' now opts replace os keeps manual,
      rw result (if_valid-cases (length (node ∷ more)) text (parse text)),
    )
