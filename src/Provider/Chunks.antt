-- ===== src/Provider/Chunks.antt =====
-- internal/provider/update.go: the configuration as chunks of lines, and `UpdateMetadata` on its
-- text. The time and the path are arguments.
use zakop.Prelude.{
  ℕ, ◌-◌, Bool, true, false, not, ◌&&◌, ◌||◌, List, [], ◌∷◌, ◌++◌, Option, none, some, ◌==◌,
  if◌then◌else◌,
}
use zakop.Text.{Str, codes, str_eq, is_space, trim_space, has_prefix, split}
use zakop.Text.Number.{itoa}
use zakop.Dict.{lookup, put}
use zakop.Config.Access.{is_blank}
use zakop.Config.Uci.{Scan, scan_start, flush, write_rune}
use zakop.Config.Validate.{Parsed, parsed, parse}
use zakop.Importer.Format.{quote}

-- The body of the loop of `splitFields`: unlike `splitUCIFields`, any space ends a field, and an
-- escape counts as part of a field only with the rune behind it.
unfoldable pub field_rune : Scan → ℕ → Scan
field_rune s r =
    if s.escaped
    then record (write_rune s r) { escaped = false }
    else if not (s.quote == 0)
    then if r == b'\\'
      then record s { escaped = true }
      else if r == s.quote
      then record s { quote = 0; in_field = true }
      else write_rune s r
    else if r == b'\'' || r == b'"'
    then record s { quote = r; in_field = true }
    else if is_space r
    then flush s
    else write_rune s r

unfoldable pub field_runes : Scan → Str → Scan
field_runes s [] = s
field_runes s (r ∷ rs) = field_runes (field_rune s r) rs

-- `splitFields`.
unfoldable pub split_fields : Str → List Str
split_fields s = (flush (field_runes scan_start s)).fields

-- `chunk`.
pub record Chunk : Type 0 where
  pub type : Str
  pub name : Str
  pub options : List (Str × Str)
  pub text : List Str

abbrev pub field : ℕ → List Str → Str
field n [] = []
field n (f ∷ fs) = if n == 0 then f else field (n - 1) fs

unfoldable pub is_config_line : Str → Bool
is_config_line trimmed = has_prefix trimmed (codes "config ") || str_eq trimmed (codes "config")

abbrev pub open_chunk : Str → Chunk
open_chunk line =
    let fields = split_fields (trim_space line) in
    record { type = field 1 fields; name = field 2 fields; options = []; text = line ∷ [] }

-- The option that a line sets.
abbrev pub set_by : List Str → List (Str × Str) → List (Str × Str)
set_by (keyword ∷ key ∷ value ∷ []) options =
    if str_eq keyword (codes "option") then put key value options else options
set_by _ options = options

abbrev pub add_line : Chunk → Str → Chunk
add_line c line = record c {
  options = set_by (split_fields (trim_space line)) c.options;
  text = c.text ++ (line ∷ []);
}

-- The loop of `parseChunks` behind the first chunk, `cur`.
unfoldable pub chunks_from : Chunk → List Str → List Chunk
chunks_from cur [] = cur ∷ []
chunks_from cur (line ∷ lines) =
    if is_config_line (trim_space line)
    then cur ∷ chunks_from (open_chunk line) lines
    else chunks_from (add_line cur line) lines

-- A chunk of the lines in front of the first section.
abbrev pub first_chunk : Str → Chunk
first_chunk line =
    if is_config_line (trim_space line)
    then open_chunk line
    else record { type = []; name = []; options = []; text = line ∷ [] }

abbrev pub chunks_of : List Str → List Chunk
chunks_of [] = []
chunks_of (line ∷ lines) = chunks_from (first_chunk line) lines

-- `parseChunks`.
unfoldable pub parse_chunks : Str → List Chunk
parse_chunks data' = chunks_of (split 10 data')

-- `setOption`.
abbrev pub option_line : Str → Str → Str
option_line name value = 9 ∷ (codes "option " ++ (name ++ (b' ' ∷ quote value)))

abbrev pub option_prefix : Str → Str
option_prefix name = codes "option " ++ (name ++ (b' ' ∷ []))

abbrev pub sets : Str → Str → Bool
sets name line = has_prefix (trim_space line) (option_prefix name)

abbrev pub new_lines : Str → Str → List Str
new_lines name value = if is_blank value then [] else option_line name value ∷ []

-- The loop, from a value of `written`.
unfoldable pub set_from : Bool → List Str → Str → Str → List Str
set_from written [] name value = if written then [] else new_lines name value
set_from written (line ∷ lines) name value =
    let old = sets name line in
    let rest = set_from (written || old) lines name value in
    if old then new_lines name value ++ rest else line ∷ rest

unfoldable pub set_option : List Str → Str → Str → List Str
set_option lines name value = set_from false lines name value

-- The body of the loop of `UpdateMetadata` for the provider.
unfoldable pub update_chunk : Str → Str → ℕ → Chunk → Chunk
update_chunk local_path now count c = record c {
  text =
      set_option
        (set_option
          (set_option (set_option c.text (codes "local_path") local_path) (codes "last_update") now)
          (codes "item_count") (itoa count))
        (codes "last_error") [];
}

abbrev pub option_value : Option Str → Str
option_value none = []
option_value (some v) = v

unfoldable pub is_provider : Str → Chunk → Bool
is_provider provider_name c =
    str_eq c.type (codes "provider")
    && (str_eq c.name provider_name
        || str_eq (option_value (lookup (codes "name") c.options)) provider_name)

-- The first chunk of the provider is updated; `none` is the provider that is not found.
unfoldable pub update_first : Str → (Chunk → Chunk) → List Chunk → Option (List Chunk)
update_first provider_name update [] = none
update_first provider_name update (c ∷ cs) =
    let rest = update_first provider_name update cs in
    if is_provider provider_name c
    then some (update c ∷ cs)
    else elim rest [ none ↦ none | some more ↦ some (c ∷ more) ]

-- The text of chunks: a line feed behind every line.
unfoldable pub lines_text : List Str → Str
lines_text [] = []
lines_text (line ∷ lines) = line ++ (10 ∷ lines_text lines)

unfoldable pub chunk_lines : List Chunk → List Str
chunk_lines [] = []
chunk_lines (c ∷ cs) = c.text ++ chunk_lines cs

-- The results of `UpdateMetadata`: the provider is not there, `Parse` refuses the text, or the text
-- that is written.
pub data Updated : Type 0 where
  not_found : Updated
  invalid : Parsed → Updated
  updated : Str → Updated

abbrev pub if_parsed : Str → Parsed → Updated
if_parsed text (parsed c) = updated text
if_parsed text error = invalid error

unfoldable pub update_metadata : Str → Str → Str → Str → ℕ → Updated
update_metadata data' provider_name local_path now count =
    elim (update_first provider_name (update_chunk local_path now count) (parse_chunks data')) [
      | none ↦ not_found
      | some chunks ↦ let text = lines_text (chunk_lines chunks) in if_parsed text (parse text)
    ]
