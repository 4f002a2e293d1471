-- ===== src/Text/Scanner.antt =====
-- `bufio.Scanner` on the lines of a text.
use zakop.Prelude.{Bool, true, false, ◌||◌, List, [], ◌∷◌, ltb, ◌==◌, if◌then◌else◌, length}
use zakop.Text.{Str, split}

-- The lines that a `bufio.Scanner` returns: a line ends in front of a carriage return, the text
-- behind the last line feed is a line if it is not empty, and a line of 65536 characters and more
-- fills the buffer, which ends the scan.
abbrev pub drop_return : Str → Str
drop_return [] = []
drop_return (c ∷ []) = if c == 13 then [] else c ∷ []
drop_return (c ∷ d ∷ s) = c ∷ drop_return (d ∷ s)

abbrev pub too_long : Str → Bool
too_long line = ltb 65535 (length line)

abbrev pub no_text : Str → Bool
no_text [] = true
no_text (c ∷ s) = false

unfoldable pub scanned : List Str → List Str
scanned [] = []
scanned (line ∷ []) = if too_long line || no_text line then [] else drop_return line ∷ []
scanned (line ∷ next ∷ more) =
    let rest = scanned (next ∷ more) in if too_long line then [] else drop_return line ∷ rest

unfoldable pub scan_lines : Str → List Str
scan_lines text = scanned (split 10 text)

-- `scanner.Err() != nil` behind the loop.
unfoldable pub some_too_long : List Str → Bool
some_too_long [] = false
some_too_long (line ∷ lines) = too_long line || some_too_long lines

unfoldable pub scan_fails : Str → Bool
scan_fails text = some_too_long (split 10 text)
