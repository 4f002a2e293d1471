-- ===== src/Text.antt =====
-- Go strings and the functions of package `strings` that the program calls. A string is the list
-- of its code points; the text is ASCII where `ToLower` is called, so lower case is that of ASCII.
pub mod Match
pub mod Number
pub mod Trim
pub mod Scanner
pub mod Fields
pub mod Decimal
use Prim.Native.Char.{code}
use Prim.Native.String.{String}
use zakop.Prelude.{
  ℕ, zero, suc, ◌+◌, ◌-◌, Bool, true, false, ◌&&◌, ◌||◌, List, [], ◌∷◌, ◌++◌, Option, none, some,
  leb, ◌==◌, if◌then◌else◌, length, drop,
}

abbrev pub Str : Type 0
Str = List ℕ

abbrev pub codes : String → Str
codes String.[] = []
codes (String.◌∷◌ c s) = code c ∷ codes s

-- `a == b` on strings.
unfoldable pub str_eq : Str → Str → Bool
str_eq [] [] = true
str_eq [] (y ∷ b) = false
str_eq (x ∷ a) [] = false
str_eq (x ∷ a) (y ∷ b) = x == y && str_eq a b

-- `unicode.IsSpace`: the ASCII blanks, and those of the other planes.
unfoldable pub is_space : ℕ → Bool
is_space c =
    c == b' '
    || (leb 9 c && leb c 13)
    || c == 0x85
    || c == 0xa0
    || c == 0x1680
    || (leb 0x2000 c && leb c 0x200a)
    || c == 0x2028
    || c == 0x2029
    || c == 0x202f
    || c == 0x205f
    || c == 0x3000

unfoldable pub lower_rune : ℕ → ℕ
lower_rune c = if leb b'A' c && leb c b'Z' then c + 32 else c

-- `strings.ToLower`.
unfoldable pub to_lower : Str → Str
to_lower [] = []
to_lower (c ∷ s) = lower_rune c ∷ to_lower s

-- `strings.TrimLeftFunc` and `strings.TrimRightFunc`.
unfoldable pub trim_left : (ℕ → Bool) → Str → Str
trim_left p [] = []
trim_left p (c ∷ s) = if p c then trim_left p s else c ∷ s

-- One character in front of a string whose right end is trimmed.
abbrev pub keep_unless : Bool → ℕ → Str → Str
keep_unless true c [] = []
keep_unless true c (x ∷ s) = c ∷ x ∷ s
keep_unless false c s = c ∷ s

unfoldable pub trim_right : (ℕ → Bool) → Str → Str
trim_right p [] = []
trim_right p (c ∷ s) = keep_unless (p c) c (trim_right p s)

-- `strings.TrimSpace`.
unfoldable pub trim_space : Str → Str
unfolding trim_left trim_right is_space
trim_space s = trim_right is_space (trim_left is_space s)

-- `strings.HasPrefix`, `strings.HasSuffix` and `strings.Contains`.
unfoldable pub has_prefix : Str → Str → Bool
has_prefix s [] = true
has_prefix [] (x ∷ p) = false
has_prefix (c ∷ s) (x ∷ p) = c == x && has_prefix s p

unfoldable pub has_suffix : Str → Str → Bool
unfolding str_eq
has_suffix s p = leb (length p) (length s) && str_eq (drop (length s - length p) s) p

unfoldable pub contains : Str → Str → Bool
unfolding has_prefix
contains [] p = has_prefix [] p
contains (c ∷ s) p = has_prefix (c ∷ s) p || contains s p

-- A first piece in front of the pieces of the rest.
abbrev pub cons_head : ℕ → List Str → List Str
cons_head c [] = (c ∷ []) ∷ []
cons_head c (w ∷ ws) = (c ∷ w) ∷ ws

-- `strings.Split` at a separator of one character.
unfoldable pub split : ℕ → Str → List Str
split sep [] = [] ∷ []
split sep (c ∷ s) = let rest = split sep s in if c == sep then [] ∷ rest else cons_head c rest

-- `strings.Join`.
unfoldable pub join : List Str → Str → Str
join [] sep = []
join (w ∷ []) sep = w
join (w ∷ v ∷ ws) sep = w ++ (sep ++ join (v ∷ ws) sep)

-- `strings.IndexByte`, as the part in front of the byte and the part behind it.
unfoldable pub cut : ℕ → Str → Option (Str × Str)
cut sep [] = none
cut sep (c ∷ s) =
    let rest = cut sep s in
    if c == sep then some ([], s) else elim rest [ none ↦ none | some (a, b) ↦ some (c ∷ a, b) ]

-- `strings.FieldsFunc`: the maximal pieces with no separator. The pending piece is kept in order.
fields_from : (ℕ → Bool) → Str → Str → List Str
fields_from p [] [] = []
fields_from p (x ∷ cur) [] = (x ∷ cur) ∷ []
fields_from p [] (c ∷ s) = fields_from p (if p c then [] else c ∷ []) s
fields_from p (x ∷ cur) (c ∷ s) =
    let next = fields_from p [] s in
    let more = fields_from p (x ∷ (cur ++ c ∷ [])) s in if p c then (x ∷ cur) ∷ next else more

unfoldable pub fields_func : (ℕ → Bool) → Str → List Str
unfolding fields_from
fields_func p s = fields_from p [] s

-- `strings.Fields`.
unfoldable pub fields : Str → List Str
unfolding fields_func is_space
fields s = fields_func is_space s
