-- ===== src/Config/Uci.antt =====
-- internal/config/config.go: the UCI text, from `parseSections` down. An error is `none`; its text
-- is not modelled.
use zakop.Prelude.{
  ℕ, Bool, true, false, not, ◌&&◌, ◌||◌, List, [], ◌∷◌, ◌++◌, Option, none, some, ◌==◌,
  if◌then◌else◌,
}
use zakop.Text.{Str, codes, str_eq, trim_space, split}
use zakop.Dict.{lookup, put}

-- The variables of `splitUCIFields`; `quote` is 0 outside quotes.
pub record Scan : Type 0 where
  pub quote : ℕ
  pub escaped : Bool
  pub in_field : Bool
  pub current : Str
  pub fields : List Str

abbrev pub scan_start : Scan
scan_start = record { quote = 0; escaped = false; in_field = false; current = []; fields = [] }

-- `flush`.
unfoldable pub flush : Scan → Scan
flush s =
    if s.in_field
    then record s { in_field = false; current = []; fields = s.fields ++ (s.current ∷ []) }
    else s

-- `b.WriteRune(r); inField = true`.
abbrev pub write_rune : Scan → ℕ → Scan
write_rune s r = record s { current = s.current ++ (r ∷ []); in_field = true }

-- The body of the loop.
unfoldable pub scan_rune : Scan → ℕ → Scan
scan_rune s r =
    if s.escaped
    then record (write_rune s r) { escaped = false }
    else if not (s.quote == 0)
    then if r == b'\\'
      then record s { escaped = true; in_field = true }
      else if r == s.quote
      then record s { quote = 0 }
      else write_rune s r
    else if r == b'\'' || r == b'"'
    then record s { quote = r; in_field = true }
    else if r == b' ' || r == 9
    then flush s
    else write_rune s r

unfoldable pub scan : Scan → Str → Scan
scan s [] = s
scan s (r ∷ rs) = scan (scan_rune s r) rs

-- `splitUCIFields`; an unterminated quote is the error.
unfoldable pub split_uci_fields : Str → Option (List Str)
split_uci_fields text =
    let end = scan scan_start text in
    if not (end.quote == 0) then none else some ((flush end).fields)

-- The quote and the escape behind a rune in `stripComment`.
abbrev pub quote_behind : ℕ → ℕ → ℕ
quote_behind quote r =
    if not (quote == 0)
    then (if r == quote then 0 else quote)
    else if r == b'\'' || r == b'"'
    then r
    else 0

-- `stripComment` from the state of its loop.
unfoldable pub uncomment_from : ℕ → Bool → Str → Str
uncomment_from quote escaped [] = []
uncomment_from quote true (r ∷ rs) = r ∷ uncomment_from quote false rs
uncomment_from quote false (r ∷ rs) =
    let escapes = not (quote == 0) && r == b'\\' in
    let rest = uncomment_from (if escapes then quote else quote_behind quote r) escapes rs in
    if quote == 0 && r == b'#' then [] else r ∷ rest

unfoldable pub strip_comment : Str → Str
strip_comment line = uncomment_from 0 false line

-- `section`; a missing key of `lists` is the nil slice.
pub record Section : Type 0 where
  pub type : Str
  pub name : Str
  pub options : List (Str × Str)
  pub lists : List (Str × List Str)

-- `s.options[key]` and `s.lists[key]` where the key may be missing.
abbrev or_empty : Option Str → Str
or_empty none = []
or_empty (some v) = v

abbrev pub or_none : {A : Type 0} → Option (List A) → List A
or_none none = []
or_none (some vs) = vs

unfoldable pub option_of : Section → Str → Str
option_of s key = or_empty (lookup key s.options)

unfoldable pub list_of : Section → Str → List Str
list_of s key = or_none (lookup key s.lists)

-- The sections that are complete, and the one that `cur` points at.
pub record Parsing : Type 0 where
  pub closed : List Section
  pub cur : Option Section

abbrev opened : Option Section → List Section
opened none = []
opened (some s) = s ∷ []

abbrev pub sections_of : Parsing → List Section
sections_of p = p.closed ++ opened p.cur

-- The case "config".
unfoldable pub open_section : Parsing → List Str → Option Parsing
open_section p (t ∷ []) = some (record {
  closed = sections_of p;
  cur = some (record { type = t; name = []; options = []; lists = [] });
})
open_section p (t ∷ n ∷ []) = some (record {
  closed = sections_of p;
  cur = some (record { type = t; name = n; options = []; lists = [] });
})
open_section p _ = none

-- The case "option".
unfoldable pub add_option : Option Section → List Str → Option Section
add_option (some s) (k ∷ v ∷ []) = some (record s { options = put k v s.options })
add_option _ _ = none

-- The case "list".
unfoldable pub add_list : Option Section → List Str → Option Section
add_list (some s) (k ∷ v ∷ []) =
    some (record s { lists = put k (or_none (lookup k s.lists) ++ (v ∷ [])) s.lists })
add_list _ _ = none

abbrev with_open : Parsing → Option Section → Option Parsing
with_open p none = none
with_open p (some s) = some (record p { cur = some s })

-- The `switch` of `parseSections`.
unfoldable pub parse_fields : Parsing → List Str → Option Parsing
unfolding open_section add_option add_list str_eq
parse_fields p [] = some p
parse_fields p (keyword ∷ args) =
    if str_eq keyword (codes "config")
    then open_section p args
    else if str_eq keyword (codes "option")
    then with_open p (add_option p.cur args)
    else if str_eq keyword (codes "list")
    then with_open p (add_list p.cur args)
    else none

unfoldable pub parse_trimmed : Parsing → Str → Option Parsing
parse_trimmed p [] = some p
parse_trimmed p (c ∷ line) = elim (split_uci_fields (c ∷ line)) [
  | none ↦ none
  | some fields ↦ parse_fields p fields
]

unfoldable pub parse_line : Parsing → Str → Option Parsing
parse_line p raw = parse_trimmed p (trim_space (strip_comment raw))

unfoldable pub parse_lines : Parsing → List Str → Option Parsing
parse_lines p [] = some p
parse_lines p (raw ∷ raws) = elim (parse_line p raw) [
  | none ↦ none
  | some next ↦ parse_lines next raws
]

-- `parseSections`.
unfoldable pub parse_sections : Str → Option (List Section)
parse_sections text = elim (parse_lines (record { closed = []; cur = none }) (split 10 text)) [
  | none ↦ none
  | some p ↦ some (sections_of p)
]
