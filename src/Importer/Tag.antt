-- ===== src/Importer/Tag.antt =====
-- internal/importer/uci.go: `uniqueTag` and `sanitizeTag`.
use zakop.Prelude.{
  ℕ, zero, suc, ◌+◌, Bool, false, not, ◌&&◌, ◌||◌, List, [], ◌∷◌, ◌++◌, Option, none, some, ltb,
  leb, ◌==◌, if◌then◌else◌, length, take,
}
use zakop.Text.{Str, codes, trim_space, trim_left, trim_right}
use zakop.Text.Number.{itoa}
use zakop.Dict.{contains_text}

-- The characters that `tagCharRE` leaves alone.
abbrev is_tag_char : ℕ → Bool
is_tag_char c =
    (leb b'A' c && leb c b'Z')
    || (leb b'a' c && leb c b'z')
    || (leb b'0' c && leb c b'9')
    || c == b'_'

-- `tagCharRE.ReplaceAllString(value, "_")`: a run of other characters is one underscore. The flag
-- says that the run has begun.
unfoldable pub replace_runs : Bool → Str → Str
replace_runs inside [] = []
replace_runs inside (c ∷ s) =
    let kept = is_tag_char c in
    let rest = replace_runs (not kept) s in
    if kept then c ∷ rest else if inside then rest else b'_' ∷ rest

abbrev is_underscore : ℕ → Bool
is_underscore c = c == b'_'

abbrev with_letter : Str → Str
with_letter [] = []
with_letter (c ∷ s) = if leb b'0' c && leb c b'9' then codes "node_" ++ (c ∷ s) else c ∷ s

abbrev at_most_48 : Str → Str
at_most_48 s = if ltb 48 (length s) then trim_right is_underscore (take 48 s) else s

-- `sanitizeTag`.
unfoldable pub sanitize_tag : Str → Str
sanitize_tag value = at_most_48 (
    with_letter
      (trim_right is_underscore (trim_left is_underscore (replace_runs false (trim_space value)))))

abbrev pub or_node : Str → Str
or_node [] = codes "node"
or_node (c ∷ s) = c ∷ s

-- The candidates in their order: the tag, the tag with "_2", with "_3" and so on.
abbrev pub candidate : Str → ℕ → Str
candidate tag i = if i == 1 then tag else tag ++ (b'_' ∷ itoa i)

-- The loop of `uniqueTag`, so many candidates at most; `none` is a loop that has not ended.
unfoldable pub unique_from : ℕ → Str → ℕ → List Str → Option Str
unique_from zero tag i used = none
unique_from (suc f) tag i used =
    let rest = unique_from f tag (suc i) used in
    if contains_text used (candidate tag i) then rest else some (candidate tag i)

-- `uniqueTag`. The keys of a map are distinct, so one candidate more than there are keys is enough.
unfoldable pub unique_tag : Str → List Str → Option Str
unique_tag base used = unique_from (length used + 1) (or_node (sanitize_tag base)) 1 used
