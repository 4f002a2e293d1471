-- ===== src/Net/Url.antt =====
-- `url.Parse`, as far as its errors, its scheme and its host go. An IPv6 zone in a host is read
-- like the rest of the host.
use zakop.Prelude.{
  ℕ, Bool, true, false, not, ◌&&◌, ◌||◌, [], ◌∷◌, ◌++◌, ◌+◌, ◌-◌, Option, none, some, ltb, leb,
  ◌==◌, if◌then◌else◌, drop,
}
use zakop.Text.{Str, codes, to_lower, has_prefix, cut}

abbrev is_letter : ℕ → Bool
is_letter c = (leb b'a' c && leb c b'z') || (leb b'A' c && leb c b'Z')

abbrev is_digit : ℕ → Bool
is_digit c = leb b'0' c && leb c b'9'

abbrev has_rune : ℕ → Str → Bool
has_rune c [] = false
has_rune c (d ∷ s) = d == c || has_rune c s

abbrev all_runes : (ℕ → Bool) → Str → Bool
all_runes p [] = true
all_runes p (c ∷ s) = p c && all_runes p s

abbrev no_text : Str → Bool
no_text [] = true
no_text (c ∷ s) = false

-- A byte that `stringContainsCTLByte` looks for.
abbrev is_control : ℕ → Bool
is_control c = ltb c b' ' || c == 0x7f

-- `getScheme` behind the letters `acc`: the scheme, if there is one, and the rest.
scheme_from : Str → Str → Str → Option (Str × Str)
scheme_from whole acc [] = some ([], whole)
scheme_from whole acc (c ∷ s) =
    let more = scheme_from whole (acc ++ c ∷ []) s in
    if is_letter c || (not (no_text acc) && (is_digit c || has_rune c (codes "+-.")))
    then more
    else if c == b':'
    then (if no_text acc then none else some (acc, s))
    else some ([], whole)

-- The texts around the first separator, and around the last one; without one, the second is empty.
abbrev cut_or : ℕ → Str → Str × Str
cut_or sep s = elim (cut sep s) [ none ↦ (s, []) | some pair ↦ pair ]

cut_last : ℕ → Str → Option (Str × Str)
cut_last sep [] = none
cut_last sep (c ∷ s) = elim (cut_last sep s) [
  | some (a, b) ↦ some (c ∷ a, b)
  | none ↦ if c == sep then some ([], s) else none
]

abbrev hex_value : ℕ → Option ℕ
hex_value c =
    if is_digit c
    then some (c - b'0')
    else if leb b'a' c && leb c b'f'
    then some (c - b'a' + 10)
    else if leb b'A' c && leb c b'F'
    then some (c - b'A' + 10)
    else none

-- `unescape` gives no error: each `%` is followed by two hexadecimal digits that are allowed.
escapes_ok : (ℕ → ℕ → Bool) → Str → Bool
escapes_ok allowed [] = true
escapes_ok allowed (c ∷ []) = not (c == b'%')
escapes_ok allowed (c ∷ d ∷ []) = not (c == b'%') && not (d == b'%')
escapes_ok allowed (c ∷ d ∷ e ∷ s) =
    let rest = escapes_ok allowed (d ∷ e ∷ s) in
    if c == b'%'
    then elim (hex_value d) [
      | none ↦ false
      | some h ↦ elim (hex_value e) [ none ↦ false | some l ↦ allowed h l && rest ]
    ]
    else rest

-- A host spells bytes of 128 and more, and `%` itself, by escapes.
abbrev host_escape : ℕ → ℕ → Bool
host_escape h l = leb 8 h || (h == 2 && l == 5)

abbrev host_rune : ℕ → Bool
host_rune c =
    leb 0x80 c || is_letter c || is_digit c || has_rune c (codes "%-_.~!$&'()*+,;=:[]<>\"")

-- `validUserinfo`.
abbrev user_rune : ℕ → Bool
user_rune c = is_letter c || is_digit c || has_rune c (codes "-._:~!$&'()*+,;=%@")

-- `validOptionalPort`.
abbrev valid_optional_port : Str → Bool
valid_optional_port [] = true
valid_optional_port (c ∷ s) = c == b':' && all_runes is_digit s

-- The ports of a host: behind the last bracket, or from the last colon on.
port_ok : Str → Bool
unfolding cut_last
port_ok host =
    if has_prefix host (codes "[")
    then elim (cut_last b']' host) [ none ↦ false | some (_, port) ↦ valid_optional_port port ]
    else elim (cut_last b':' host) [
      | none ↦ true
      | some (_, port) ↦ valid_optional_port (b':' ∷ port)
    ]

-- `parseHost`, without the escapes replaced.
parse_host : Str → Option Str
unfolding port_ok escapes_ok
parse_host host =
    if port_ok host && escapes_ok host_escape host && all_runes host_rune host
    then some host
    else none

-- `parseAuthority`: the host.
parse_authority : Str → Option Str
unfolding parse_host cut_last
parse_authority authority = elim (cut_last b'@' authority) [
  | none ↦ parse_host authority
  | some (user, host) ↦
      if all_runes user_rune user && escapes_ok (λ h l. true) user then parse_host host else none
]

-- The scheme and the host, where the path of the URL has no invalid escape.
abbrev with_host : Str → Str → Option Str → Option (Str × Str)
with_host scheme path none = none
with_host scheme path (some host) =
    if escapes_ok (λ h l. true) path then some (scheme, host) else none

-- `parse` behind the scheme, the query cut off.
hierarchical : Str → Str → Option (Str × Str)
unfolding parse_authority escapes_ok
hierarchical scheme rest =
    let (authority, path) = cut_or b'/' (drop 2 rest) in
    if not (has_prefix rest (codes "/"))
    then (if not (no_text scheme)
        then some (scheme, [])
        else if has_rune b':' (cut_or b'/' rest).0
        then none
        else with_host scheme rest (some []))
    else if has_prefix rest (codes "//") && not (no_text scheme && has_prefix rest (codes "///"))
    then with_host scheme path (parse_authority authority)
    else with_host scheme rest (some [])

-- `url.Parse`: the scheme and the host; an error is `none`.
unfoldable pub parse_url : Str → Option (Str × Str)
unfolding scheme_from hierarchical escapes_ok
parse_url raw =
    let (text, fragment) = cut_or b'#' raw in
    if not (all_runes (λ c. not (is_control c)) text) || not (escapes_ok (λ h l. true) fragment)
    then none
    else elim (scheme_from text [] text) [
      | none ↦ none
      | some (scheme, rest) ↦ hierarchical (to_lower scheme) (cut_or b'?' rest).0
    ]
