-- ===== src/Importer/Quote.antt =====
-- What the configuration's scanner makes of a quoted value.
use zakop.Prelude.{
  ℕ, ◌<◌, ◌≡◌, inl, inr, refl, sym, ap, ◌∙◌, Bool, true, false, ◌||◌, List, [], ◌∷◌, ◌++◌,
  append_assoc, append-nil, arith, ◌==◌, if◌then◌else◌, Bool-cases,
}
use zakop.Text.{Str, trim_right, keep_unless}
use zakop.Config.Uci.{Scan, scan_rune, scan, uncomment_from}
use zakop.Importer.Format.{replace_all, quoted_text, quote}

-- A value with its line breaks made spaces, which is what can be read back.
abbrev pub flat_rune : ℕ → ℕ
flat_rune c = if c == 10 || c == 13 then b' ' else c

abbrev pub flat : Str → Str
flat [] = []
flat (c ∷ s) = flat_rune c ∷ flat s

abbrev pub escape_rune : ℕ → Str
escape_rune c = if c == b'\\' || c == b'"' then b'\\' ∷ c ∷ [] else flat_rune c ∷ []

abbrev pub escape : Str → Str
escape [] = []
escape (c ∷ s) = escape_rune c ++ escape s

pub quoted_text-escape : (s : Str) → quoted_text s ≡ escape s
unfolding quoted_text replace_all
quoted_text-escape [] = refl
quoted_text-escape (c ∷ s) = ground (arith, quoted_text-escape s)

-- A letter, a digit or an underscore: the names of options are made of these.
abbrev pub IsWord : Str → Type 0
IsWord [] = Unit
IsWord (c ∷ s) = (b'\'' < c) × (c < 0x80) × IsWord s

pub scan-append : (s : Scan) (a b : Str) → scan s (a ++ b) ≡ scan (scan s a) b
unfolding scan
scan-append s [] b = refl
scan-append s (c ∷ a) b = scan-append (scan_rune s c) a b

-- The state in a field, outside quotes or in double quotes.
abbrev pub in_state : ℕ → Str → List Str → Scan
in_state q cur fs = record {
  quote = q;
  escaped = false;
  in_field = true;
  current = cur;
  fields = fs;
}

pub scan-word :
    (w cur : Str) (fs : List Str) → IsWord w → scan (in_state 0 cur fs) w ≡ in_state 0 (cur ++ w) fs
unfolding scan scan_rune
scan-word [] cur fs v = ap (λ x. in_state 0 x fs) (sym (append-nil cur))
scan-word (c ∷ w) cur fs v =
    let one : scan_rune (in_state 0 cur fs) c ≡ in_state 0 (cur ++ (c ∷ [])) fs = ground arith in
    ap (λ t. scan t w) one
    ∙ scan-word w (cur ++ (c ∷ [])) fs v.2
    ∙ ap (λ x. in_state 0 x fs) (append_assoc cur (c ∷ []) w)

scan-escape :
    (s cur : Str) (fs : List Str)
    → scan (in_state 34 cur fs) (escape s) ≡ in_state 34 (cur ++ flat s) fs
unfolding scan scan_rune
scan-escape [] cur fs = ap (λ x. in_state 34 x fs) (sym (append-nil cur))
scan-escape (c ∷ s) cur fs =
    let one : scan (in_state 34 cur fs) (escape_rune c)
        ≡ in_state 34 (cur ++ (flat_rune c ∷ [])) fs =
      ground arith in
    scan-append (in_state 34 cur fs) (escape_rune c) (escape s)
    ∙ ap (λ t. scan t (escape s)) one
    ∙ scan-escape s (cur ++ (flat_rune c ∷ [])) fs
    ∙ ap (λ x. in_state 34 x fs) (append_assoc cur (flat_rune c ∷ []) (flat s))

-- A quoted value at the end of a line is one more field.
pub scan-quote :
    (value : Str) (fs : List Str)
    → scan
        (record { quote = 0; escaped = false; in_field = false; current = []; fields = fs })
        (quote value)
      ≡ in_state 0 (flat value) fs
unfolding scan scan_rune
scan-quote value fs = rw (quoted_text-escape value) (
    scan-append (in_state 34 [] fs) (escape value) (b'"' ∷ [])
    ∙ ap (λ t. scan t (b'"' ∷ [])) (scan-escape value [] fs))

pub uncomment-word :
    (w rest : Str)
    → IsWord w
    → uncomment_from 0 false (w ++ rest) ≡ w ++ uncomment_from 0 false rest
unfolding uncomment_from
uncomment-word [] rest v = refl
uncomment-word (c ∷ w) rest v = let ih = uncomment-word w rest v.2 in ground arith

uncomment-escape :
    (s rest : Str)
    → uncomment_from 34 false (escape s ++ rest) ≡ escape s ++ uncomment_from 34 false rest
unfolding uncomment_from
uncomment-escape [] rest = refl
uncomment-escape (c ∷ s) rest = let ih = uncomment-escape s rest in ground arith

-- A quoted value holds no comment.
pub uncomment-quote : (value : Str) → uncomment_from 0 false (quote value) ≡ quote value
unfolding uncomment_from
uncomment-quote value =
    rw (quoted_text-escape value) (ap (λ (x : Str). b'"' ∷ x) (uncomment-escape value (b'"' ∷ [])))

-- What ends in a character that is no space keeps its end.
pub trim_right-end :
    (p : ℕ → Bool) (s : Str) (c : ℕ) → p c ≡ false → trim_right p (s ++ (c ∷ [])) ≡ s ++ (c ∷ [])
unfolding trim_right
trim_right-end p [] c ends = rw ends
trim_right-end p (x ∷ s) c ends =
    rw (trim_right-end p s c ends)
      (elim (Bool-cases (p x)) [ inr keep ↦ rw keep | inl drop ↦ rw drop (keeps s) ])
  where
    keeps : (t : Str) → keep_unless true x (t ++ (c ∷ [])) ≡ x ∷ (t ++ (c ∷ []))
    keeps [] = refl
    keeps (y ∷ t) = refl
