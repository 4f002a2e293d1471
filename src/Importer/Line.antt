-- ===== src/Importer/Line.antt =====
-- A line of two words and a quoted value, as the importer writes it and the configuration reads it.
use zakop.Prelude.{
  ◌≡◌, ◌≢◌, refl, sym, ap, ◌∙◌, false, List, [], ◌∷◌, ◌++◌, append_assoc, some, arith,
}
use zakop.Text.{Str, is_space, trim_left, trim_right, trim_space}
use zakop.Config.Uci.{
  Scan, flush, scan_rune, scan, split_uci_fields, uncomment_from, strip_comment, Parsing,
  parse_fields, parse_trimmed, parse_line,
}
use zakop.Importer.Format.{quoted_text, quote}
use zakop.Importer.Quote.{
  IsWord, flat, scan-append, scan-word, scan-quote, uncomment-word, uncomment-quote, trim_right-end,
  in_state,
}

abbrev pub IsName : Str → Type 0
IsName [] = ⊥
IsName (c ∷ w) = IsWord (c ∷ w)

abbrev body : Str → Str → Str → Str
body a b value = a ++ (b' ' ∷ (b ++ (b' ' ∷ quote value)))

abbrev between : List Str → Scan
between fs = record { quote = 0; escaped = false; in_field = false; current = []; fields = fs }

-- A word and the space behind it are one more field.
scan-field :
    (w rest : Str) (fs : List Str)
    → IsName w
    → scan (between fs) (w ++ (b' ' ∷ rest)) ≡ scan (between (fs ++ (w ∷ []))) rest
unfolding scan scan_rune flush
scan-field [] rest fs v = absurd v
scan-field (c ∷ w) rest fs v =
    let first : scan_rune (between fs) c ≡ in_state 0 (c ∷ []) fs = ground arith in
    ap (λ t. scan t (w ++ (b' ' ∷ rest))) first
    ∙ scan-append (in_state 0 (c ∷ []) fs) w (b' ' ∷ rest)
    ∙ ap (λ t. scan t (b' ' ∷ rest)) (scan-word w (c ∷ []) fs v.2)

split_uci_fields-body :
    (a b value : Str)
    → IsName a
    → IsName b
    → split_uci_fields (body a b value) ≡ some (a ∷ b ∷ flat value ∷ [])
unfolding split_uci_fields flush
split_uci_fields-body a b value va vb =
    let all =
      scan-field a (b ++ (b' ' ∷ quote value)) [] va
      ∙ scan-field b (quote value) (a ∷ []) vb
      ∙ scan-quote value (a ∷ b ∷ []) in
    rw all

IsName-IsWord : (w : Str) → IsName w → IsWord w
IsName-IsWord [] v = tt
IsName-IsWord (c ∷ w) v = v

strip_comment-body :
    (a b value : Str) → IsName a → IsName b → strip_comment (body a b value) ≡ body a b value
unfolding strip_comment uncomment_from
strip_comment-body a b value va vb =
    uncomment-word a (b' ' ∷ (b ++ (b' ' ∷ quote value))) (IsName-IsWord a va)
    ∙ ap (λ (x : Str). a ++ (b' ' ∷ x))
        (uncomment-word b (b' ' ∷ quote value) (IsName-IsWord b vb)
          ∙ ap (λ (x : Str). b ++ (b' ' ∷ x)) (uncomment-quote value))

body-end :
    (a b value : Str)
    → body a b value ≡ (a ++ (b' ' ∷ (b ++ (b' ' ∷ b'"' ∷ quoted_text value)))) ++ (b'"' ∷ [])
body-end a b value = sym (
    append_assoc a (b' ' ∷ (b ++ (b' ' ∷ b'"' ∷ quoted_text value))) (b'"' ∷ [])
    ∙ ap (λ (x : Str). a ++ (b' ' ∷ x))
        (append_assoc b (b' ' ∷ b'"' ∷ quoted_text value) (b'"' ∷ [])))

trim_left-word : (w rest : Str) → IsName w → trim_left is_space (w ++ rest) ≡ w ++ rest
unfolding trim_left is_space
trim_left-word [] rest v = absurd v
trim_left-word (c ∷ w) rest v = ground arith

quote_no_space : is_space b'"' ≡ false
unfolding is_space
quote_no_space = refl

trim_space-body : (a b value : Str) → IsName a → trim_space (body a b value) ≡ body a b value
unfolding trim_space
trim_space-body a b value va =
    ap (trim_right is_space) (trim_left-word a (b' ' ∷ (b ++ (b' ' ∷ quote value))) va)
    ∙ ap (trim_right is_space) (body-end a b value)
    ∙ trim_right-end is_space (a ++ (b' ' ∷ (b ++ (b' ' ∷ b'"' ∷ quoted_text value)))) b'"'
        quote_no_space
    ∙ sym (body-end a b value)

parse_trimmed-some :
    (p : Parsing) (line : Str) (fields : List Str)
    → split_uci_fields line ≡ some fields
    → line ≢ []
    → parse_trimmed p line ≡ parse_fields p fields
unfolding parse_trimmed
parse_trimmed-some p [] fields e some_rune = absurd (some_rune refl)
parse_trimmed-some p (c ∷ line) fields e some_rune = rw (e, parse_trimmed)

-- A line of two words and a quoted value is read as its three fields.
pub parse_line-body :
    (p : Parsing) (a b value : Str)
    → IsName a
    → IsName b
    → parse_line p (body a b value) ≡ parse_fields p (a ∷ b ∷ flat value ∷ [])
unfolding parse_line
parse_line-body p a b value va vb =
    rw (strip_comment-body a b value va vb, trim_space-body a b value va)
      (parse_trimmed-some p (body a b value) _ (split_uci_fields-body a b value va vb)
        (word_first a va))
  where
    word_first : (w : Str) → IsName w → body w b value ≢ []
    word_first [] v e = v
    word_first (c ∷ w) v e = absurd (ground arith)

-- A tab in front of a line changes nothing.
pub parse_line-tab : (p : Parsing) (line : Str) → parse_line p (9 ∷ line) ≡ parse_line p line
unfolding parse_line strip_comment uncomment_from trim_space trim_left is_space
parse_line-tab p line = refl
