-- ===== src/Text/Fields.antt =====
-- `strings.Fields` and `strings.TrimSpace` on words with one space between them.
use zakop.Prelude.{
  ℕ, ◌≡◌, ◌≢◌, inl, inr, refl, sym, ap, ◌∙◌, Bool, true, false, List, [], ◌∷◌, ◌++◌, ◌==◌, ==_iff,
  arith, if◌then◌else◌, Bool-cases, append_assoc, append-nil,
}
use zakop.Text.{
  Str, codes, is_space, trim_left, trim_right, trim_space, keep_unless, join, fields, fields_func,
  fields_from,
}
use zakop.Net.Parse.Printed.{Without, Without-append}

abbrev pub NoSpace : Str → Type 0
NoSpace [] = Unit
NoSpace (c ∷ s) = (is_space c ≡ false) × NoSpace s

abbrev pub IsWord : Str → Type 0
IsWord w = (w ≢ []) × NoSpace w

abbrev pub AreWords : List Str → Type 0
AreWords [] = Unit
AreWords (w ∷ ws) = IsWord w × AreWords ws

abbrev pub words_text : List Str → Str
words_text ws = join ws (codes " ")

-- A word is taken whole.
fields_from-word :
    (x : ℕ) (cur s t : Str)
    → NoSpace s
    → fields_from is_space (x ∷ cur) (s ++ t) ≡ fields_from is_space (x ∷ (cur ++ s)) t
unfolding fields_from
fields_from-word x cur [] t w = ap (λ r. fields_from is_space (x ∷ r) t) (sym (append-nil cur))
fields_from-word x cur (c ∷ s) t w = rw (w.0) (
    fields_from-word x (cur ++ (c ∷ [])) s t w.1
    ∙ ap (λ r. fields_from is_space (x ∷ r) t) (append_assoc cur (c ∷ []) s))

feed : is_space 10 ≡ true
unfolding is_space
feed = refl

fields_from-start :
    (c : ℕ) (s : Str)
    → is_space c ≡ false
    → fields_from is_space [] (c ∷ s) ≡ fields_from is_space (c ∷ []) s
unfolding fields_from
fields_from-start c s rune = ap (λ b. fields_from is_space (if b then [] else c ∷ []) s) rune

fields_from-end :
    (x : ℕ) (cur t : Str)
    → fields_from is_space (x ∷ cur) (32 ∷ t) ≡ (x ∷ cur) ∷ fields_from is_space [] t
unfolding fields_from is_space
fields_from-end x cur t = refl

fields_from-words_text :
    (ws : List Str) → AreWords ws → fields_from is_space [] (words_text ws) ≡ ws
unfolding fields_from join
fields_from-words_text [] v = refl
fields_from-words_text ([] ∷ ws) v = absurd (v.0.0 refl)
fields_from-words_text ((c ∷ s) ∷ []) v =
    fields_from-start c s v.0.1.0
    ∙ ap (fields_from is_space (c ∷ [])) (sym (append-nil s))
    ∙ fields_from-word c [] s [] v.0.1.1
fields_from-words_text ((c ∷ s) ∷ w ∷ ws) v =
    let rest = words_text (w ∷ ws) in
    fields_from-start c (s ++ (32 ∷ rest)) v.0.1.0
    ∙ fields_from-word c [] s (32 ∷ rest) v.0.1.1
    ∙ fields_from-end c s rest
    ∙ ap (◌∷◌ (c ∷ s)) (fields_from-words_text (w ∷ ws) v.1)

pub fields-words_text : (ws : List Str) → AreWords ws → fields (words_text ws) ≡ ws
unfolding fields fields_func
fields-words_text ws v = fields_from-words_text ws v

keep_unless-nonempty : (b : Bool) (c : ℕ) (r : Str) → r ≢ [] → keep_unless b c r ≡ c ∷ r
keep_unless-nonempty b c [] some_rune = absurd (some_rune refl)
keep_unless-nonempty true c (x ∷ r) some_rune = refl
keep_unless-nonempty false c (x ∷ r) some_rune = refl

append-nonempty : (s t : Str) → t ≢ [] → s ++ t ≢ []
append-nonempty [] t some_rune e = some_rune e
append-nonempty (c ∷ s) t some_rune e = absurd (ground (arith, e))

trim_right-append :
    (s t : Str) → t ≢ [] → trim_right is_space t ≡ t → trim_right is_space (s ++ t) ≡ s ++ t
unfolding trim_right
trim_right-append [] t some_rune e = e
trim_right-append (c ∷ s) t some_rune e =
    ap (keep_unless (is_space c) c) (trim_right-append s t some_rune e)
    ∙ keep_unless-nonempty (is_space c) c (s ++ t) (append-nonempty s t some_rune)

trim_right-NoSpace : (s : Str) → NoSpace s → trim_right is_space s ≡ s
unfolding trim_right
trim_right-NoSpace [] v = refl
trim_right-NoSpace (c ∷ s) v = rw (v.0, trim_right-NoSpace s v.1) refl

words_text-nonempty : (w : Str) (ws : List Str) → IsWord w → words_text (w ∷ ws) ≢ []
unfolding join
words_text-nonempty [] ws v e = v.0 refl
words_text-nonempty (c ∷ w) [] v e = absurd (ground (arith, e))
words_text-nonempty (c ∷ w) (u ∷ ws) v e = absurd (ground (arith, e))

trim_right-words_text :
    (w : Str) (ws : List Str)
    → AreWords (w ∷ ws)
    → trim_right is_space (words_text (w ∷ ws)) ≡ words_text (w ∷ ws)
unfolding join
trim_right-words_text w [] v = trim_right-NoSpace w v.0.1
trim_right-words_text w (u ∷ ws) v =
    let rest = words_text (u ∷ ws) in
    trim_right-append w (32 ∷ rest) (λ e. absurd (ground (arith, e)))
      (trim_right-append (32 ∷ []) rest (words_text-nonempty u ws v.1.0)
        (trim_right-words_text u ws v.1))

-- A text that begins with a word and ends with words is not trimmed.
pub trim_space-around :
    (s : Str) (w : Str) (ws : List Str)
    → (c : ℕ) × (r : Str) × (s ++ words_text (w ∷ ws) ≡ c ∷ r) × (is_space c ≡ false)
    → AreWords (w ∷ ws)
    → trim_space (s ++ words_text (w ∷ ws)) ≡ s ++ words_text (w ∷ ws)
unfolding trim_space trim_left
trim_space-around s w ws (c, r, e, rune) v =
    let text = s ++ words_text (w ∷ ws) in
    let first : trim_left is_space (c ∷ r) ≡ c ∷ r = rw rune refl in
    ap (λ t. trim_right is_space (trim_left is_space t)) e
    ∙ ap (trim_right is_space) (first ∙ sym e)
    ∙ trim_right-append s (words_text (w ∷ ws)) (words_text-nonempty w ws v.0)
        (trim_right-words_text w ws v)

not_feed : (c : ℕ) → is_space c ≡ false → (c == 10) ≡ false
not_feed c rune = elim (Bool-cases (c == 10)) [
  | inr differ ↦ differ
  | inl same ↦ absurd (cc (rune, ap is_space ((==_iff c 10).0 same), feed))
]

NoSpace-Without : (s : Str) → NoSpace s → Without 10 s
NoSpace-Without [] v = tt
NoSpace-Without (c ∷ s) v = (not_feed c v.0, NoSpace-Without s v.1)

pub words_text-Without : (ws : List Str) → AreWords ws → Without 10 (words_text ws)
unfolding join
words_text-Without [] v = tt
words_text-Without (w ∷ []) v = NoSpace-Without w v.0.1
words_text-Without (w ∷ u ∷ ws) v =
    Without-append 10 w (32 ∷ words_text (u ∷ ws)) (NoSpace-Without w v.0.1)
      (refl, words_text-Without (u ∷ ws) v.1)
