-- ===== src/Net/Parse/Printed.antt =====
-- `net.ParseIP` and the mask of `net.ParseCIDR` on the texts that the program prints.
use zakop.Prelude.{
  ℕ, zero, suc, ◌+◌, ◌*◌, ◌/◌, ◌%◌, ◌<◌, ◌≤◌, ◌≡◌, ◌⊎◌, inl, inr, refl, sym, ap, ◌∙◌, subst, Bool,
  true, false, ◌&&◌, [], ◌∷◌, ◌++◌, Option, none, some, ◌==◌, ==_iff, arith, Bool-cases,
}
use zakop.Text.{Str, split, cut, contains, has_prefix, join}
use zakop.Text.Number.{itoa, digits_onto, number, number_from, digit_value}
use zakop.Text.Decimal.{AreDigits, itoa-AreDigits}
use zakop.Policy.Cidr.{v4, masked}
use zakop.Net.{ip4, ipv4_string}
use zakop.Net.Parse.{
  octet, octets, parse_ipv4, parse_form, parse_ip, parse_cidr, mask_length, ◌>>=◌,
}

-- The character is not in the text.
abbrev pub Without : ℕ → Str → Type 0
Without c [] = Unit
Without c (d ∷ s) = ((d == c) ≡ false) × Without c s

pub Without-append : (c : ℕ) (s t : Str) → Without c s → Without c t → Without c (s ++ t)
Without-append c [] t u v = v
Without-append c (d ∷ s) t u v = (u.0, Without-append c s t u.1 v)

pub digits-Without : (c : ℕ) (s : Str) → (c < b'0') ⊎ (b'9' < c) → AreDigits s → Without c s
digits-Without c [] out d = tt
digits-Without c (x ∷ s) out d = (ground (arith, out, d), digits-Without c s out d.2)

pub cut-append : (c : ℕ) (s t : Str) → Without c s → cut c (s ++ (c ∷ t)) ≡ some (s, t)
unfolding cut
cut-append c [] t w = rw ((==_iff c c).1 refl) refl
cut-append c (d ∷ s) t w = rw (w.0, cut-append c s t w.1) refl

pub split-append : (c : ℕ) (s t : Str) → Without c s → split c (s ++ (c ∷ t)) ≡ s ∷ split c t
unfolding split
split-append c [] t w = rw ((==_iff c c).1 refl) refl
split-append c (d ∷ s) t w = rw (w.0, split-append c s t w.1) refl

pub split-whole : (c : ℕ) (s : Str) → Without c s → split c s ≡ s ∷ []
unfolding split
split-whole c [] w = refl
split-whole c (d ∷ s) w = rw (w.0, split-whole c s w.1) refl

contains-Without : (c : ℕ) (s : Str) → Without c s → contains s (c ∷ []) ≡ false
unfolding contains has_prefix
contains-Without c [] w = refl
contains-Without c (d ∷ s) w = rw (w.0, contains-Without c s w.1) refl

-- A text of digits and a dot is one of four octets.
parse_form-digits :
    (s d t : Str)
    → AreDigits d
    → parse_form s (d ++ (b'.' ∷ t)) ≡ (parse_ipv4 s >>= (λ a. some (ip4 a)))
unfolding parse_form
parse_form-digits s [] t v = refl
parse_form-digits s (c ∷ d) t v =
    let dot : (c == b'.') ≡ false = ground (arith, v) in
    let colon : (c == b':') ≡ false = ground (arith, v) in
    let zone : (c == b'%') ≡ false = ground (arith, v) in
    rw (dot, colon, zone) (parse_form-digits s d t v.2)

-- What holds of every number below a bound, by a test of each.
all_below : ℕ → (ℕ → Bool) → Bool
all_below zero test = true
all_below (suc n) test = test n && all_below n test

all_below-test :
    (top : ℕ) (test : ℕ → Bool) → all_below top test ≡ true → (n : ℕ) → n < top → test n ≡ true
unfolding all_below
all_below-test zero test e n less = absurd (omega (arith, less))
all_below-test (suc top) test e n less = elim (Bool-cases (n == top)) [
  | inl same ↦ rw ((==_iff n top).0 same) (ground (arith, e))
  | inr differ ↦ all_below-test top test (ground (arith, e)) n (ground (arith, less, differ))
]

reads : ℕ → Option ℕ → Bool
reads n none = false
reads n (some m) = m == n

reads-some : (n : ℕ) (o : Option ℕ) → reads n o ≡ true → o ≡ some n
unfolding reads
reads-some n none e = absurd (ground arith)
reads-some n (some m) e = ap some ((==_iff m n).0 e)

octets_read : all_below 256 (λ k. reads k (octet (itoa k))) ≡ true
unfolding all_below reads octet itoa digits_onto number number_from digit_value
octets_read = refl

octet-itoa : (n : ℕ) → n < 256 → octet (itoa n) ≡ some n
octet-itoa n less =
    reads-some n (octet (itoa n))
      (all_below-test 256 (λ k. reads k (octet (itoa k))) octets_read n less)

masks_read : all_below 33 (λ k. reads k (mask_length 32 (itoa k))) ≡ true
unfolding all_below reads mask_length itoa digits_onto number number_from digit_value
masks_read = refl

mask_length-itoa : (n : ℕ) → n ≤ 32 → mask_length 32 (itoa n) ≡ some n
mask_length-itoa n le =
    reads-some n (mask_length 32 (itoa n))
      (all_below-test 33 (λ k. reads k (mask_length 32 (itoa k))) masks_read n (omega (arith, le)))

module _ (w x y z : ℕ) where
  dotted : Str
  dotted = itoa w ++ (b'.' ∷ (itoa x ++ (b'.' ∷ (itoa y ++ (b'.' ∷ itoa z)))))

  dotted-split : split b'.' dotted ≡ itoa w ∷ itoa x ∷ itoa y ∷ itoa z ∷ []
  unfolding dotted
  dotted-split =
      let none_in : (n : ℕ) → Without b'.' (itoa n) =
        λ n. digits-Without b'.' (itoa n) (inl (omega arith)) (itoa-AreDigits n).0 in
      split-append b'.' (itoa w) _ (none_in w)
      ∙ ap (◌∷◌ (itoa w)) (
          split-append b'.' (itoa x) _ (none_in x)
          ∙ ap (◌∷◌ (itoa x)) (
              split-append b'.' (itoa y) _ (none_in y)
              ∙ ap (◌∷◌ (itoa y)) (split-whole b'.' (itoa z) (none_in z))))

  dotted-octets :
      w < 256
      → x < 256
      → y < 256
      → z < 256
      → parse_ipv4 dotted ≡ some (w * 0x100_0000 + x * 0x1_0000 + y * 0x100 + z)
  unfolding parse_ipv4 octets
  dotted-octets a b c d =
      ap octets dotted-split
      ∙ rw (octet-itoa w a, octet-itoa x b, octet-itoa y c, octet-itoa z d) refl

  dotted-Without : (c : ℕ) → (c < b'0') ⊎ (b'9' < c) → (b'.' == c) ≡ false → Without c dotted
  unfolding dotted
  dotted-Without c out no_dot =
      let none_in : (n : ℕ) → Without c (itoa n) =
        λ n. digits-Without c (itoa n) out (itoa-AreDigits n).0 in
      Without-append c (itoa w) _ (none_in w) (
        no_dot,
        Without-append c (itoa x) _ (none_in x)
            (no_dot, Without-append c (itoa y) _ (none_in y) (no_dot, none_in z)),
      )

-- The text of an IPv4 address is read as the address.
ipv4_string-dotted :
    (a : ℕ)
    → ipv4_string a ≡ dotted (a / 0x100_0000 % 256) (a / 0x1_0000 % 256) (a / 0x100 % 256) (a % 256)
unfolding ipv4_string join dotted
ipv4_string-dotted a = refl

parse_ipv4-ipv4_string : (a : ℕ) → a < 0x1_0000_0000 → parse_ipv4 (ipv4_string a) ≡ some a
parse_ipv4-ipv4_string a less =
    ap parse_ipv4 (ipv4_string-dotted a)
    ∙ dotted-octets (a / 0x100_0000 % 256) (a / 0x1_0000 % 256) (a / 0x100 % 256) (a % 256)
        (omega arith) (omega arith) (omega arith) (omega arith)
    ∙ ap some (omega (arith, less))

parse_ip-ipv4_string : (a : ℕ) → a < 0x1_0000_0000 → parse_ip (ipv4_string a) ≡ some (ip4 a)
unfolding parse_ip dotted
parse_ip-ipv4_string a less =
    ap (λ s. parse_form s s) (ipv4_string-dotted a)
    ∙ parse_form-digits
        (dotted (a / 0x100_0000 % 256) (a / 0x1_0000 % 256) (a / 0x100 % 256) (a % 256))
        (itoa (a / 0x100_0000 % 256)) _ (itoa-AreDigits (a / 0x100_0000 % 256)).0
    ∙ ap (λ o. o >>= (λ n. some (ip4 n)))
        (sym (ap parse_ipv4 (ipv4_string-dotted a)) ∙ parse_ipv4-ipv4_string a less)

ipv4_string-Without :
    (a c : ℕ) → (c < b'0') ⊎ (b'9' < c) → (b'.' == c) ≡ false → Without c (ipv4_string a)
ipv4_string-Without a c out no_dot = subst (Without c) (sym (ipv4_string-dotted a)) (
    dotted-Without (a / 0x100_0000 % 256) (a / 0x1_0000 % 256) (a / 0x100 % 256) (a % 256) c out
      no_dot)

-- The text of an IPv4 network is read as the address and the network.
pub parse_cidr-ipv4_string :
    (a ones : ℕ)
    → a < 0x1_0000_0000
    → ones ≤ 32
    → parse_cidr (ipv4_string a ++ (b'/' ∷ itoa ones)) ≡ some (some a, v4 (masked a ones) ones)
unfolding parse_cidr
parse_cidr-ipv4_string a ones less le =
    rw
      (
        cut-append b'/' (ipv4_string a) (itoa ones)
            (ipv4_string-Without a b'/' (inl (omega arith)) refl),
        parse_ip-ipv4_string a less,
        contains-Without b':' (ipv4_string a) (ipv4_string-Without a b':' (inr (omega arith)) refl),
        mask_length-itoa ones le,
      )
      refl
