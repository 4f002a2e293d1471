-- ===== src/Text/Number.antt =====
-- `strconv`: decimal numbers and numbers with a base prefix.
use zakop.Prelude.{
  ℕ, zero, suc, ◌+◌, ◌-◌, ◌*◌, ◌/◌, ◌%◌, ◌^◌, ◌&&◌, [], ◌∷◌, Option, none, some, ltb, leb, ◌==◌,
  if◌then◌else◌,
}
use zakop.Prelude.Int.{ℤ, pos, negsuc}
use zakop.Text.{Str, lower_rune}

-- The digits of `n` in front of `acc`. The first argument bounds their count.
unfoldable pub digits_onto : ℕ → ℕ → Str → Str
digits_onto zero n acc = acc
digits_onto (suc f) n acc =
    let more = digits_onto f (n / 10) ((b'0' + n % 10) ∷ acc) in
    if ltb n 10 then (b'0' + n) ∷ acc else more

-- `strconv.Itoa` of a number that is not negative.
unfoldable pub itoa : ℕ → Str
unfolding digits_onto
itoa n = digits_onto (n + 1) n []

-- The value of a digit of a base up to 16.
unfoldable pub digit_value : ℕ → Option ℕ
digit_value c =
    if leb b'0' c && leb c b'9'
    then some (c - b'0')
    else if leb b'a' c && leb c b'f'
    then some (c - b'a' + 10)
    else if leb b'A' c && leb c b'F'
    then some (c - b'A' + 10)
    else none

-- The number that digits of the base spell behind those that spell `acc`; `none` at another
-- character.
unfoldable pub number_from : ℕ → ℕ → Str → Option ℕ
unfolding digit_value
number_from base acc [] = some acc
number_from base acc (c ∷ s) = elim (digit_value c) [
  | none ↦ none
  | some d ↦ let rest = number_from base (acc * base + d) s in if ltb d base then rest else none
]

-- Digits of the base, at least one, and the number that they spell.
unfoldable pub number : ℕ → Str → Option ℕ
unfolding number_from
number base [] = none
number base (c ∷ s) = number_from base 0 (c ∷ s)

abbrev below : ℕ → Option ℕ → Option ℕ
below top none = none
below top (some n) = if ltb n top then some n else none

abbrev negate : Option ℕ → Option ℤ
negate none = none
negate (some zero) = some (pos 0)
negate (some (suc n)) = if ltb n (2 ^ 63) then some (negsuc n) else none

abbrev positive : Option ℕ → Option ℤ
positive none = none
positive (some n) = if ltb n (2 ^ 63) then some (pos n) else none

-- `strconv.Atoi` for a 64-bit `int`.
unfoldable pub atoi : Str → Option ℤ
unfolding number
atoi [] = none
atoi (c ∷ s) =
    if c == b'-'
    then negate (number 10 s)
    else if c == b'+'
    then positive (number 10 s)
    else positive (number 10 (c ∷ s))

-- The base of a text that `ParseUint` reads in base 0, and its digits.
abbrev based : Str → ℕ × Str
based [] = (10, [])
based (c ∷ []) = (10, c ∷ [])
based (c ∷ d ∷ []) = if c == b'0' then (8, d ∷ []) else (10, c ∷ d ∷ [])
based (c ∷ d ∷ e ∷ s) =
    if c == b'0'
    then if lower_rune d == b'x'
      then (16, e ∷ s)
      else if lower_rune d == b'b'
      then (2, e ∷ s)
      else if lower_rune d == b'o'
      then (8, e ∷ s)
      else (8, d ∷ e ∷ s)
    else (10, c ∷ d ∷ e ∷ s)

-- `strconv.ParseUint(s, 0, 32)` of a text without underscores.
unfoldable pub parse_uint32 : Str → Option ℕ
unfolding number lower_rune
parse_uint32 s = let (base, digits) = based s in below (2 ^ 32) (number base digits)
