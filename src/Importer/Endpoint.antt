-- ===== src/Importer/Endpoint.antt =====
-- The outbound that `parseOutbound` makes of what `formatOutbound` writes: where it connects, and its
-- credentials.
use zakop.Prelude.{
  ℕ, zero, suc, ◌<◌, ◌≤◌, ◌≡◌, ◌≢◌, inl, inr, refl, sym, ap, ◌∙◌, Bool, true, false, [], ◌∷◌, none,
  some, arith, ◌^◌, if◌then◌else◌, Bool-cases,
}
use zakop.Prelude.Int.{ℤ, pos}
use zakop.Text.{Str, codes, is_space, trim_left, trim_right, trim_space, keep_unless}
use zakop.Text.Match.{str_eq_iff}
use zakop.Text.Number.{itoa, atoi}
use zakop.Text.Decimal.{AreDigits, itoa-AreDigits, atoi-itoa}
use zakop.Dict.{lookup}
use zakop.Config.Access.{is_blank, first_non_empty}
use zakop.Config.Types.{Outbound}
use zakop.Config.Uci.{Section, parse_sections, option_of}
use zakop.Config.ApplyMain.{set_int, int_or}
use zakop.Config.Lists.{is_empty}
use zakop.Config.ParseOutbound.{parse_outbound}
use zakop.Importer.Format.{ApplyOptions, format_outbound, positive}
use zakop.Importer.Quote.{flat, flat_rune}
use zakop.Importer.Fields.{written, written_by, format_outbound-Fields}

is_space-flat_rune : (c : ℕ) → is_space (flat_rune c) ≡ is_space c
unfolding is_space
is_space-flat_rune c = ground arith

trim_left-flat : (s : Str) → trim_left is_space (flat s) ≡ flat (trim_left is_space s)
unfolding trim_left
trim_left-flat [] = refl
trim_left-flat (c ∷ s) = rw (is_space-flat_rune c) (elim (Bool-cases (is_space c)) [
  | inl space ↦ rw space (trim_left-flat s)
  | inr kept ↦ rw kept
])

keep_unless-flat :
    (b : Bool) (c : ℕ) (s : Str) → keep_unless b (flat_rune c) (flat s) ≡ flat (keep_unless b c s)
keep_unless-flat true c [] = refl
keep_unless-flat true c (x ∷ s) = refl
keep_unless-flat false c s = refl

trim_right-flat : (s : Str) → trim_right is_space (flat s) ≡ flat (trim_right is_space s)
unfolding trim_right
trim_right-flat [] = refl
trim_right-flat (c ∷ s) =
    rw (is_space-flat_rune c, trim_right-flat s)
      (keep_unless-flat (is_space c) c (trim_right is_space s))

-- Line breaks are spaces, before and after they are replaced.
trim_space-flat : (s : Str) → trim_space (flat s) ≡ flat (trim_space s)
unfolding trim_space
trim_space-flat s =
    ap (trim_right is_space) (trim_left-flat s) ∙ trim_right-flat (trim_left is_space s)

is_blank-trim_space : (s : Str) → is_blank s ≡ true → trim_space s ≡ []
unfolding is_blank
is_blank-trim_space s e = (str_eq_iff (trim_space s) []).0 e

trim_nil : trim_space [] ≡ []
unfolding trim_space trim_left trim_right
trim_nil = refl

trim_space-first :
    (a b : Str)
    → (is_blank a ≡ true → trim_space b ≡ trim_space a)
    → trim_space (first_non_empty (a ∷ b ∷ [])) ≡ trim_space a
unfolding first_non_empty
trim_space-first a b same = elim (Bool-cases (is_blank a)) [
  | inr text ↦ rw text
  | inl blank ↦ rw blank (elim (Bool-cases (is_blank b)) [
    | inr text ↦ rw text (same blank)
    | inl both ↦ rw both (trim_nil ∙ sym (is_blank-trim_space a blank))
  ])
]

module _ (s : Section) (key : Str) where
  option_of-none : lookup key s.options ≡ none → option_of s key ≡ []
  unfolding option_of
  option_of-none e = rw e

  option_of-some : (v : Str) → lookup key s.options ≡ some v → option_of s key ≡ v
  unfolding option_of
  option_of-some v e = rw e

  -- What is read under the key is the value that was written, trimmed.
  trim_space-option_of :
      (v : Str)
      → lookup key s.options ≡ written v none
      → trim_space (option_of s key) ≡ flat (trim_space v)
  trim_space-option_of v e = elim (Bool-cases (is_blank v)) [
    | inl blank ↦
        let nothing : lookup key s.options ≡ none =
          e ∙ ap (λ b. if b then none else some (flat v)) blank in
        ap trim_space (option_of-none nothing)
        ∙ trim_nil
        ∙ ap flat (sym (is_blank-trim_space v blank))
    | inr text ↦
        let found : lookup key s.options ≡ some (flat v) =
          e ∙ ap (λ b. if b then none else some (flat v)) text in
        ap trim_space (option_of-some (flat v) found) ∙ trim_space-flat v
  ]

flat-digits : (s : Str) → AreDigits s → flat s ≡ s
flat-digits [] v = refl
flat-digits (c ∷ s) v =
    let same : flat_rune c ≡ c = ground arith in
    ap (λ (x : ℕ). x ∷ flat s) same ∙ ap (λ (x : Str). c ∷ x) (flat-digits s v.2)

keep_unless-some : (c : ℕ) (s : Str) → keep_unless false c s ≢ []
keep_unless-some c s e = absurd (ground arith)

is_blank-digits : (s : Str) → AreDigits s → s ≢ [] → is_blank s ≡ false
unfolding is_blank trim_space trim_left trim_right is_space
is_blank-digits [] v some_digit = absurd (some_digit refl)
is_blank-digits (c ∷ s) v some_digit =
    let no_space : is_space c ≡ false = digit_no_space c v.0 v.1 in
    rw (no_space, trim_left, no_space) (ground (arith, str_eq_iff (c ∷ trim_right is_space s) []))
  where
    digit_no_space : (d : ℕ) → b'0' ≤ d → d ≤ b'9' → is_space d ≡ false
    digit_no_space d low high = ground arith

-- The port that is read where a positive one in the range of an `int` is written.
set_int-port :
    (s : Section) (n : ℕ)
    → 0 < n
    → n < 2 ^ 63
    → lookup (codes "port") s.options ≡ written_by (positive (codes "port") (pos n)) none
    → set_int s (codes "port") (pos 0) ≡ pos n
set_int-port s zero low high e = absurd (omega arith)
set_int-port s (suc n) low high e =
    let (digits, some_digit) = itoa-AreDigits (suc n) in
    let text = is_blank-digits (itoa (suc n)) digits some_digit in
    let found : lookup (codes "port") s.options ≡ some (flat (itoa (suc n))) =
      e ∙ ap (λ b. if b then none else some (flat (itoa (suc n)))) text in
    let value =
      option_of-some s (codes "port") (flat (itoa (suc n))) found
      ∙ flat-digits (itoa (suc n)) digits in
    rw value (read (itoa (suc n)) some_digit (atoi-itoa (suc n) high))
  where
    read :
        (v : Str)
        → v ≢ []
        → atoi v ≡ some (pos (suc n))
        → (if is_empty v then pos 0 else int_or (atoi v) (pos 0)) ≡ pos (suc n)
    read [] some_digit e = absurd (some_digit refl)
    read (c ∷ v) some_digit e = rw e

-- Where the outbound connects, and its credentials, trimmed and with line breaks made spaces.
pub record SameEndpoint (out read : Outbound) : Type 0 where
  pub tag : read.tag ≡ flat (trim_space out.tag)
  pub server : read.server ≡ flat (trim_space out.server)
  pub port : read.port ≡ out.port
  pub uuid : read.uuid ≡ flat (trim_space out.uuid)
  pub password : read.password ≡ flat (trim_space out.password)
  pub transport : read.transport ≡ flat (trim_space out.transport)

-- For an outbound whose port is positive and in the range of an `int`, the text that `formatOutbound`
-- writes is read as one section, and the outbound that `parseOutbound` makes of it has the same tag,
-- server, port, uuid, password and transport, with the spaces around them removed and line breaks made
-- spaces.
pub parse_outbound-format_outbound :
    (out : Outbound) (opts : ApplyOptions) (n : ℕ)
    → out.port ≡ pos n
    → 0 < n
    → n < 2 ^ 63
    → (s : Section) × (parse_sections (format_outbound out opts) ≡ some (s ∷ []))
      × SameEndpoint out (parse_outbound s)
unfolding parse_outbound
parse_outbound-format_outbound out opts n port low high =
    let (s, parsed, name, f) = format_outbound-Fields out opts in
    let tag = trim_space-option_of s (codes "tag") out.tag f.tag in
    let server = trim_space-option_of s (codes "server") out.server f.server in
    let address = ap trim_space (option_of-none s (codes "address") f.address) ∙ trim_nil in
    (
      s,
      parsed,
      record {
        tag =
            trim_space-first (option_of s (codes "tag")) s.name
              (λ blank. ap trim_space name ∙ trim_space-flat out.tag ∙ sym tag)
            ∙ tag;
        server =
            trim_space-first (option_of s (codes "server")) (option_of s (codes "address"))
              (λ blank. address ∙ sym (is_blank-trim_space (option_of s (codes "server")) blank))
            ∙ server;
        port =
            set_int-port s n low high
              (f.port ∙ ap (λ (p : ℤ). written_by (positive (codes "port") p) none) port)
            ∙ sym port;
        uuid = trim_space-option_of s (codes "uuid") out.uuid f.uuid;
        password = trim_space-option_of s (codes "password") out.password f.password;
        transport = trim_space-option_of s (codes "transport") out.transport f.transport;
      },
    )
