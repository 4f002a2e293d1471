-- ===== src/Importer/Written.antt =====
-- The text that `ApplyNodes` writes: the file and, behind it, the sections of the nodes.
use zakop.Prelude.{
  ℕ, ◌≡◌, ◌≤◌, inl, inr, refl, sym, ap, ◌∙◌, Bool, true, false, not, ◌&&◌, List, [], ◌∷◌, ◌++◌,
  arith, length, append_assoc, if◌then◌else◌, ◌==◌, Bool-cases,
}
use zakop.Text.{Str, split, cons_head, trim_space, has_suffix}
use zakop.Config.Lists.{is_empty}
use zakop.Config.Types.{Outbound}
use zakop.Provider.Chunks.{Chunk, is_config_line, lines_text, chunk_lines}
use zakop.Provider.Written.{lines_text-split}
use zakop.Importer.Format.{ApplyOptions, format_outbound}
use zakop.Importer.Chunks.{
  start_section, extend_section, sections_from, first_section, sections_of, import_chunks,
}
use zakop.Importer.Apply.{
  replaces, refresh_chunks, kept_chunks, end_blank, sections_text, applied_text,
}

-- The chunks hold the lines in their order, but for the empty ones in front.
chunk_lines-sections_from :
    (cur : Chunk) (lines : List Str) → chunk_lines (sections_from cur lines) ≡ cur.text ++ lines
unfolding sections_from chunk_lines
chunk_lines-sections_from cur [] = refl
chunk_lines-sections_from cur (line ∷ lines) =
    elim (Bool-cases (is_config_line (trim_space line))) [
      | inl section ↦
          rw section (ap (◌++◌ cur.text) (chunk_lines-sections_from (start_section line) lines))
      | inr inside ↦ rw inside (
          chunk_lines-sections_from (extend_section cur line) lines
          ∙ append_assoc cur.text (line ∷ []) lines)
    ]

first_section-text : (line : Str) → (first_section line).text ≡ line ∷ []
first_section-text line = elim (Bool-cases (is_config_line (trim_space line))) [
  | inl section ↦ rw section refl
  | inr other ↦ rw other refl
]

abbrev without_blank : List Str → List Str
without_blank [] = []
without_blank ([] ∷ lines) = without_blank lines
without_blank ((c ∷ line) ∷ lines) = (c ∷ line) ∷ lines

chunk_lines-sections_of : (lines : List Str) → chunk_lines (sections_of lines) ≡ without_blank lines
unfolding sections_of chunk_lines
chunk_lines-sections_of [] = refl
chunk_lines-sections_of ([] ∷ lines) = chunk_lines-sections_of lines
chunk_lines-sections_of ((c ∷ line) ∷ lines) =
    chunk_lines-sections_from (first_section (c ∷ line)) lines
    ∙ ap (λ text. text ++ lines) (first_section-text (c ∷ line))

-- Line feeds only.
abbrev pub Feeds : Str → Type 0
Feeds [] = Unit
Feeds (c ∷ s) = (c ≡ 10) × Feeds s

Feeds-append : (s t : Str) → Feeds s → Feeds t → Feeds (s ++ t)
Feeds-append [] t f g = g
Feeds-append (c ∷ s) t f g = (f.0, Feeds-append s t f.1 g)

-- A text without the line feeds in front of it.
abbrev pub from_text : Str → Str
from_text [] = []
from_text (c ∷ s) = if c == 10 then from_text s else c ∷ s

-- The text, and line feeds.
abbrev pub AndFeeds : Str → Str → Type 0
AndFeeds s text = (feeds : Str) × Feeds feeds × (text ≡ s ++ feeds)

cons_head-without_blank : (c : ℕ) (ws : List Str) → without_blank (cons_head c ws) ≡ cons_head c ws
cons_head-without_blank c [] = refl
cons_head-without_blank c (w ∷ ws) = refl

lines_text-AndFeeds : (s : Str) → AndFeeds (from_text s) (lines_text (without_blank (split 10 s)))
unfolding split lines_text
lines_text-AndFeeds [] = ([], tt, refl)
lines_text-AndFeeds (c ∷ s) = elim (Bool-cases (c == 10)) [
  | inl feed ↦ rw feed (lines_text-AndFeeds s)
  | inr rune ↦
      let whole : split 10 (c ∷ s) ≡ cons_head c (split 10 s) = rw (split, rune) refl in
      rw rune (
        10 ∷ [],
        (refl, tt),
        ap lines_text (cons_head-without_blank c (split 10 s) ∙ sym whole)
            ∙ lines_text-split (c ∷ s),
      )
]

AndFeeds-end_blank : (s text : Str) → AndFeeds s text → AndFeeds s (end_blank text)
unfolding end_blank
AndFeeds-end_blank s text (feeds, only, e) =
    elim (Bool-cases (not (is_empty text) && not (has_suffix text (10 ∷ 10 ∷ [])))) [
      | inr enough ↦ rw enough (feeds, only, e)
      | inl one_more ↦ rw one_more (
        feeds ++ (10 ∷ []),
        Feeds-append feeds (10 ∷ []) only (refl, tt),
        ap (λ t. t ++ (10 ∷ [])) e ∙ append_assoc s feeds (10 ∷ []),
      )
    ]

-- The texts of the outbounds, each with line feeds behind it, and some behind the last.
abbrev pub AreSections : ApplyOptions → List Outbound → Str → Type 0
AreSections opts [] text = text ≡ []
AreSections opts (o ∷ os) text =
    (feeds : Str) × Feeds feeds
    × (1 ≤ length feeds)
    × (rest : Str) × (text ≡ format_outbound o opts ++ (feeds ++ rest))
    × AreSections opts os rest

sections_text-AreSections :
    (opts : ApplyOptions) (os : List Outbound) → AreSections opts os (sections_text opts os)
unfolding sections_text
sections_text-AreSections opts [] = refl
sections_text-AreSections opts (o ∷ os) =
    let rest = sections_text opts os in
    elim (Bool-cases (has_suffix (format_outbound o opts) (10 ∷ []))) [
      | inl ended ↦
          rw ended (10 ∷ [], (refl, tt), omega arith, rest, refl, sections_text-AreSections opts os)
      | inr open_line ↦ rw open_line (
        10 ∷ 10 ∷ [],
        (refl, (refl, tt)),
        omega arith,
        rest,
        append_assoc (format_outbound o opts) (10 ∷ []) (10 ∷ rest),
        sections_text-AreSections opts os,
      )
    ]

-- The file, less line feeds in front of it, then line feeds, and the sections of the outbounds.
abbrev pub IsFileAndSections : Str → ApplyOptions → List Outbound → Str → Type 0
IsFileAndSections data' opts os text =
    (file : Str) × AndFeeds (from_text data') file
    × (sections : Str) × AreSections opts os sections
    × (text ≡ file ++ sections)

not_chosen : {A : Type 0} (b : Bool) (x y : A) → b ≡ false → (if b then x else y) ≡ y
not_chosen true x y e = absurd (ground (arith, e))
not_chosen false x y e = refl

pub applied_text-IsFileAndSections :
    (data' now : Str) (opts : ApplyOptions) (replace : Bool) (os : List Outbound)
    → replaces opts replace ≡ false
    → opts.subscription ≡ false
    → IsFileAndSections data' opts os (applied_text data' opts replace now os)
unfolding applied_text import_chunks refresh_chunks
applied_text-IsFileAndSections data' now opts replace os keeps manual =
    let chunks = kept_chunks data' opts replace in
    let refreshed = refresh_chunks opts now (length os) chunks in
    let refreshes : (opts.subscription && not (is_empty opts.source)) ≡ false =
      ground (arith, manual) in
    let same : refreshed ≡ import_chunks data' =
      not_chosen (opts.subscription && not (is_empty opts.source)) _ chunks refreshes
      ∙ not_chosen (replaces opts replace) _ (import_chunks data') keeps in
    let (feeds, only, e) = lines_text-AndFeeds data' in
    let file : AndFeeds (from_text data') (lines_text (chunk_lines refreshed)) = (
      feeds,
      only,
      ap (λ cs. lines_text (chunk_lines cs)) same
          ∙ ap lines_text (chunk_lines-sections_of (split 10 data'))
          ∙ e,
    ) in
    (
      end_blank (lines_text (chunk_lines refreshed)),
      AndFeeds-end_blank (from_text data') (lines_text (chunk_lines refreshed)) file,
      sections_text opts os,
      sections_text-AreSections opts os,
      refl,
    )
