-- ===== src/Provider/Written.antt =====
-- What `UpdateMetadata` leaves of the configuration.
use zakop.Prelude.{
  ℕ, ◌≡◌, inl, inr, refl, sym, ap, ◌∙◌, subst, true, false, List, [], ◌∷◌, ◌++◌, some, arith,
  append_assoc, ◌==◌, ==_iff, Bool-cases, Option-cases,
}
use zakop.Text.{Str, trim_space, split, cons_head}
use zakop.Config.Types.{Config}
use zakop.Config.Validate.{Parsed, bad_line, refused, parsed, parse}
use zakop.Provider.Chunks.{
  Chunk, is_config_line, open_chunk, add_line, chunks_from, chunks_of, first_chunk, parse_chunks,
  update_chunk, is_provider, update_first, lines_text, chunk_lines, updated, update_metadata,
  if_parsed,
}

-- The chunks hold the lines, in their order.
chunk_lines-chunks_from :
    (cur : Chunk) (lines : List Str) → chunk_lines (chunks_from cur lines) ≡ cur.text ++ lines
unfolding chunks_from chunk_lines
chunk_lines-chunks_from cur [] = refl
chunk_lines-chunks_from cur (line ∷ lines) = elim (Bool-cases (is_config_line (trim_space line))) [
  | inl section ↦ rw section (ap (◌++◌ cur.text) (chunk_lines-chunks_from (open_chunk line) lines))
  | inr inside ↦
      rw inside (
        chunk_lines-chunks_from (add_line cur line) lines ∙ append_assoc cur.text (line ∷ []) lines)
]

first_chunk-text : (line : Str) → (first_chunk line).text ≡ line ∷ []
first_chunk-text line = elim (Bool-cases (is_config_line (trim_space line))) [
  | inl section ↦ rw section refl
  | inr other ↦ rw other refl
]

chunk_lines-chunks_of : (lines : List Str) → chunk_lines (chunks_of lines) ≡ lines
unfolding chunk_lines
chunk_lines-chunks_of [] = refl
chunk_lines-chunks_of (line ∷ lines) =
    chunk_lines-chunks_from (first_chunk line) lines
    ∙ ap (λ text. text ++ lines) (first_chunk-text line)

-- A line feed behind every line of a text is the text and a line feed.
lines_text-cons_head :
    (c : ℕ) (s : Str) (ws : List Str)
    → lines_text ws ≡ s ++ (10 ∷ [])
    → lines_text (cons_head c ws) ≡ c ∷ (s ++ (10 ∷ []))
unfolding lines_text
lines_text-cons_head c [] [] e = absurd (ground (arith, e))
lines_text-cons_head c (x ∷ s) [] e = absurd (ground (arith, e))
lines_text-cons_head c s (w ∷ ws) e = ap (◌∷◌ c) e

pub lines_text-split : (s : Str) → lines_text (split 10 s) ≡ s ++ (10 ∷ [])
unfolding lines_text split
lines_text-split [] = refl
lines_text-split (c ∷ s) = elim (Bool-cases (c == 10)) [
  | inl feed ↦ rw feed (
      rw (sym ((==_iff c 10).0 feed)) (ap (◌∷◌ c) (rw ((==_iff c 10).0 feed) (lines_text-split s))))
  | inr other ↦ rw other (lines_text-cons_head c s (split 10 s) (lines_text-split s))
]

-- Writing the chunks of a text back gives the text with one more line feed.
parse_chunks-text :
    (data' : Str) → lines_text (chunk_lines (parse_chunks data')) ≡ data' ++ (10 ∷ [])
unfolding parse_chunks
parse_chunks-text data' =
    ap lines_text (chunk_lines-chunks_of (split 10 data')) ∙ lines_text-split data'

-- The first chunk of the provider is the one that is updated.
abbrev pub NoneOf : Str → List Chunk → Type 0
NoneOf name [] = Unit
NoneOf name (c ∷ cs) = (is_provider name c ≡ false) × NoneOf name cs

abbrev pub FirstOf : Str → List Chunk → List Chunk → Chunk → List Chunk → Type 0
FirstOf name chunks before c behind =
    (chunks ≡ before ++ (c ∷ behind)) × NoneOf name before × (is_provider name c ≡ true)

update_first-FirstOf :
    (name : Str) (update : Chunk → Chunk) (chunks out : List Chunk)
    → update_first name update chunks ≡ some out
    → (before : List Chunk) × (c : Chunk) × (behind : List Chunk) × FirstOf name chunks before c
        behind
      × (out ≡ before ++ (update c ∷ behind))
unfolding update_first
update_first-FirstOf name update [] out e = absurd (ground (arith, e))
update_first-FirstOf name update (c ∷ cs) out e = elim (Bool-cases (is_provider name c)) [
  | inl here ↦ ([], c, cs, (refl, tt, here), ground (arith, here, e))
  | inr later ↦ elim (Option-cases (update_first name update cs)) [
    | inl nowhere ↦ absurd (ground (arith, later, nowhere, e))
    | inr (more, found) ↦
        let (before, d, behind, first, same) = update_first-FirstOf name update cs more found in
        let out_is : out ≡ c ∷ more = ground (arith, later, found, e) in
        (
          c ∷ before,
          d,
          behind,
          (ap (◌∷◌ c) first.0, (later, first.1), first.2),
          out_is ∙ ap (◌∷◌ c) same,
        )
  ]
]

chunk_lines-append :
    (cs ds : List Chunk) → chunk_lines (cs ++ ds) ≡ chunk_lines cs ++ chunk_lines ds
unfolding chunk_lines
chunk_lines-append [] ds = refl
chunk_lines-append (c ∷ cs) ds =
    ap (◌++◌ c.text) (chunk_lines-append cs ds)
    ∙ sym (append_assoc c.text (chunk_lines cs) (chunk_lines ds))

chunk_lines-at :
    (before : List Chunk) (c : Chunk) (behind : List Chunk)
    → chunk_lines (before ++ (c ∷ behind)) ≡ chunk_lines before ++ (c.text ++ chunk_lines behind)
unfolding chunk_lines
chunk_lines-at before c behind = chunk_lines-append before (c ∷ behind)

if_parsed-text :
    (text out : Str) (result : Parsed)
    → if_parsed text result ≡ updated out
    → (out ≡ text) × ((c : Config) × (result ≡ parsed c))
if_parsed-text text out (parsed c) e = (ground (arith, e), (c, refl))
if_parsed-text text out bad_line e = absurd (ground (arith, e))
if_parsed-text text out (refused error) e = absurd (ground (arith, e))

-- Where `UpdateMetadata` writes a text, it is the old text with the lines of the first section of
-- the provider updated, every other line as it was and in its place, and one more line feed at the
-- end. `Parse` accepts it.
pub update_metadata_lem :
    (data' name local_path now : Str) (count : ℕ) (out : Str)
    → update_metadata data' name local_path now count ≡ updated out
    → (before : List Chunk) × (c : Chunk) × (behind : List Chunk) × FirstOf name
        (parse_chunks data')
        before
        c
        behind
      × (lines_text (chunk_lines before ++ (c.text ++ chunk_lines behind)) ≡ data' ++ (10 ∷ []))
      × (out
          ≡ lines_text (
              chunk_lines before
              ++ ((update_chunk local_path now count c).text ++ chunk_lines behind)))
      × ((cfg : Config) × (parse out ≡ parsed cfg))
unfolding update_metadata
update_metadata_lem data' name local_path now count out e =
    elim (Option-cases (update_first name update (parse_chunks data'))) [
      | inl nowhere ↦ absurd (ground (arith, nowhere, e))
      | inr (chunks, found) ↦
          let text = lines_text (chunk_lines chunks) in
          let result : if_parsed text (parse text) ≡ updated out =
            sym (rw (found, update_metadata) refl) ∙ e in
          let (same, (cfg, accepted)) = if_parsed-text text out (parse text) result in
          let (before, c, behind, first, changed) =
            update_first-FirstOf name update (parse_chunks data') chunks found in
          (
            before,
            c,
            behind,
            first,
            ap lines_text (sym (ap chunk_lines first.0 ∙ chunk_lines-at before c behind))
                ∙ parse_chunks-text data',
            same ∙ ap lines_text (ap chunk_lines changed ∙ chunk_lines-at before (update c) behind),
            (cfg, subst (λ t. parse t ≡ parsed cfg) (sym same) accepted),
          )
    ]
  where
    update : Chunk → Chunk
    update = update_chunk local_path now count
