-- ===== src/TProxy/Shown.antt =====
-- `RulePresent` and `RoutePresent` on what `ip` prints.
use zakop.Prelude.{
  ℕ, ◌≡◌, ◌≢◌, ◌≤◌, inl, inr, refl, sym, ap, ◌∙◌, Bool, true, false, not, ◌&&◌, ◌||◌, List, [], ◌∷◌,
  ◌++◌, Option, none, some, ◌==◌, arith, Bool-cases, append_assoc,
}
use zakop.Text.{
  Str, codes, str_eq, lower_rune, is_space, trim_space, trim_left, trim_right, cut, split, fields,
  fields_func, join,
}
use zakop.Text.Match.{str_eq-false}
use zakop.Text.Number.{itoa, parse_uint32, number, number_from, digit_value}
use zakop.Text.Decimal.{AreDigits, itoa-AreDigits}
use zakop.Text.Fields.{
  IsWord, AreWords, NoSpace, words_text, fields-words_text, trim_space-around, words_text-Without,
}
use zakop.Config.Validate.Fresh.{Each}
use zakop.Net.Parse.Printed.{
  Without, Without-append, digits-Without, cut-append, split-append, split-whole,
}
use zakop.TProxy.{
  both, is_source_rule, scan_pairs, rule_line, route_line, any_line, rule_present, route_present,
  TproxyConfig, table_string, behind_colon,
}
use zakop.TProxy.Kernel.{
  KernelRule, KernelRoute, is_rule, is_route, exists, shown_lines, mark_words, rule_text,
  rule_lines, IsMark, IsShown, IsType, IsShownRoute, is_local, same_mark, route_words, route_text,
  route_lines,
}

digit_rune : (c : ℕ) → b'0' ≤ c → c ≤ b'9' → is_space c ≡ false
unfolding is_space
digit_rune c low high = ground (arith, low, high)

first_digit : (n : ℕ) (t : Str) → (c : ℕ) × (r : Str) × (itoa n ++ t ≡ c ∷ r) × (is_space c ≡ false)
first_digit n t = of_digits (itoa n) (itoa-AreDigits n)
  where
    of_digits :
        (s : Str)
        → AreDigits s × (s ≢ [])
        → (c : ℕ) × (r : Str) × (s ++ t ≡ c ∷ r) × (is_space c ≡ false)
    of_digits [] d = absurd (d.1 refl)
    of_digits (c ∷ s) d = (c, s ++ t, refl, digit_rune c d.0.0 d.0.1)

first_of_word :
    (w : Str) (ws : List Str)
    → IsWord w
    → (c : ℕ) × (r : Str) × (words_text (w ∷ ws) ≡ c ∷ r) × (is_space c ≡ false)
unfolding join
first_of_word [] ws v = absurd (v.0 refl)
first_of_word (c ∷ w) [] v = (c, w, refl, v.1.0)
first_of_word (c ∷ w) (u ∷ ws) v = (c, _, refl, v.1.0)

trim_space-words_text :
    (w : Str) (ws : List Str)
    → AreWords (w ∷ ws)
    → trim_space (words_text (w ∷ ws)) ≡ words_text (w ∷ ws)
trim_space-words_text w ws v = trim_space-around [] w ws (first_of_word w ws v.0) v

trim_space-tab : (s : Str) → trim_space (9 ∷ s) ≡ trim_space s
unfolding trim_space trim_left is_space
trim_space-tab s = refl

-- The fields of a printed rule.
rule_fields :
    (preference : ℕ) (w : Str) (ws : List Str)
    → AreWords (w ∷ ws)
    → fields
        (behind_colon (trim_space ((itoa preference ++ (b':' ∷ 9 ∷ [])) ++ words_text (w ∷ ws))))
      ≡ w ∷ ws
rule_fields preference w ws v =
    let digits = itoa preference in
    let words = words_text (w ∷ ws) in
    let text = (digits ++ (b':' ∷ 9 ∷ [])) ++ words in
    let same : text ≡ digits ++ (b':' ∷ 9 ∷ words) = append_assoc digits (b':' ∷ 9 ∷ []) words in
    let (c, r, e, rune) = first_digit preference (b':' ∷ 9 ∷ words) in
    let whole : trim_space text ≡ text =
      trim_space-around (digits ++ (b':' ∷ 9 ∷ [])) w ws (c, r, same ∙ e, rune) v in
    let behind : cut b':' text ≡ some (digits, 9 ∷ words) =
      ap (cut b':') same
      ∙ cut-append b':' digits (9 ∷ words)
          (digits-Without b':' digits (inr (omega arith)) (itoa-AreDigits preference).0) in
    ap (λ t. fields (behind_colon t)) whole
    ∙ rw (behind, behind_colon)
        (ap fields (trim_space-tab words ∙ trim_space-words_text w ws v)
          ∙ fields-words_text (w ∷ ws) v)

-- No name of a selector is a number.
names_not_numbers :
    (parse_uint32 (codes "fwmark") ≡ none)
    × (parse_uint32 (codes "lookup") ≡ none)
    × (parse_uint32 (codes "table") ≡ none)
unfolding parse_uint32 number number_from digit_value lower_rune
names_not_numbers = (refl, refl, refl)

number_differs :
    (s name : Str) (n : ℕ)
    → parse_uint32 s ≡ some n
    → parse_uint32 name ≡ none
    → str_eq s name ≡ false
number_differs s name n read no_number =
    str_eq-false s name (λ e. absurd (ground (arith, sym (ap parse_uint32 e) ∙ read, no_number)))

-- A literal is a word if its runes pass the test.
abbrev is_word : Str → Bool
is_word [] = true
is_word (c ∷ s) = not (is_space c) && is_word s

NoSpace-word : (s : Str) → is_word s ≡ true → NoSpace s
NoSpace-word [] e = tt
NoSpace-word (c ∷ s) e = (ground (arith, e), NoSpace-word s (ground (arith, e)))

names :
    (is_word (codes "from") ≡ true)
    × (is_word (codes "all") ≡ true)
    × (is_word (codes "fwmark") ≡ true)
    × (is_word (codes "lookup") ≡ true)
    × (is_word (codes "link") ≡ true)
    × (is_word (codes "default") ≡ true)
    × (is_word (codes "dev") ≡ true)
    × (is_word (codes "scope") ≡ true)
    × (is_word (codes "host") ≡ true)
unfolding is_space
names = (refl, refl, refl, refl, refl, refl, refl, refl, refl)

IsWord-name : (c : ℕ) (s : Str) → is_word (c ∷ s) ≡ true → IsWord (c ∷ s)
IsWord-name c s e = ((λ no. absurd (ground (arith, no))), NoSpace-word (c ∷ s) e)

mark_words-AreWords :
    (mark_text : ℕ → Str) (m : Option ℕ) (table : Str)
    → IsMark mark_text m
    → IsWord table
    → AreWords (mark_words mark_text m table)
mark_words-AreWords mark_text none table u v =
    let (from, all, _, lookup, _, _, _, _, _) = names in
    (IsWord-name _ _ from, (IsWord-name _ _ all, (IsWord-name _ _ lookup, (v, tt))))
mark_words-AreWords mark_text (some n) table u v =
    let (from, all, fwmark, lookup, _, _, _, _, _) = names in
    (
      IsWord-name _ _ from,
      (IsWord-name _ _ all, (IsWord-name _ _ fwmark, (u.0, (IsWord-name _ _ lookup, (v, tt))))),
    )

rule_line-fields :
    (want : ℕ) (table raw : Str) (fs : List Str)
    → fields (behind_colon (trim_space raw)) ≡ fs
    → rule_line want table raw
      ≡ (is_source_rule fs && both (scan_pairs want table fs (false, false)))
unfolding rule_line
rule_line-fields want table raw fs e =
    ap (λ gs. is_source_rule gs && both (scan_pairs want table gs (false, false))) e

marked-scan :
    (mark_text : ℕ → Str) (want n : ℕ) (shown table : Str)
    → Without b'/' (mark_text n)
    → parse_uint32 (mark_text n) ≡ some n
    → (is_source_rule (mark_words mark_text (some n) shown)
        && both (scan_pairs want table (mark_words mark_text (some n) shown) (false, false)))
      ≡ (n == want && str_eq shown table)
unfolding scan_pairs str_eq
marked-scan mark_text want n shown table no_mask read =
    let (fwmark, lookup, target) = names_not_numbers in
    rw
      (
        number_differs (mark_text n) (codes "fwmark") n read fwmark,
        number_differs (mark_text n) (codes "lookup") n read lookup,
        number_differs (mark_text n) (codes "table") n read target,
        split-whole b'/' (mark_text n) no_mask,
        read,
      )
      refl

rule_line-rule_text :
    (mark_text : ℕ → Str) (want : ℕ) (table : Str) (r : KernelRule)
    → IsShown mark_text r
    → rule_line want table (rule_text mark_text r) ≡ is_rule want table r
rule_line-rule_text mark_text want table r v = of_mark r.mark v.0
  where
    of_mark :
        (m : Option ℕ)
        → IsMark mark_text m
        → rule_line want table
            ((itoa r.preference ++ (b':' ∷ 9 ∷ [])) ++ words_text (mark_words mark_text m r.table))
          ≡ (same_mark want m && str_eq r.table table)
    of_mark none u = rule_line-fields want table _ _ (
        rule_fields r.preference (codes "from") _
          (mark_words-AreWords mark_text none r.table tt v.1))
    of_mark (some n) u =
        rule_line-fields want table _ _ (
          rule_fields r.preference (codes "from") _
            (mark_words-AreWords mark_text (some n) r.table u v.1))
        ∙ marked-scan mark_text want n r.table table u.1 u.2

route_words-AreWords :
    (type : Option Str) (device : Str)
    → IsType type
    → IsWord device
    → AreWords (route_words type device)
route_words-AreWords (some type) device u v =
    let (_, _, _, _, _, default, dev, scope, host) = names in
    (
      u,
      (
        IsWord-name _ _ default,
        (IsWord-name _ _ dev, (v, (IsWord-name _ _ scope, (IsWord-name _ _ host, tt)))),
      ),
    )
route_words-AreWords none device u v =
    let (_, _, _, _, link, default, dev, scope, _) = names in
    (
      IsWord-name _ _ default,
      (IsWord-name _ _ dev, (v, (IsWord-name _ _ scope, (IsWord-name _ _ link, tt)))),
    )

second_false : (l x d : Bool) → ((l && true) && (x || ((d && false) || false))) ≡ (l && x)
second_false false x d = refl
second_false true true d = refl
second_false true false true = refl
second_false true false false = refl

typed_line :
    (type device : Str)
    → IsWord type
    → IsWord device
    → route_line (words_text (route_words (some type) device))
      ≡ (str_eq type (codes "local") && str_eq device (codes "lo"))
unfolding route_line str_eq
typed_line type device u v =
    let ws = route_words-AreWords (some type) device u v in
    rw (trim_space-words_text _ _ ws, fields-words_text _ ws, route_line)
      (second_false (str_eq type (codes "local")) (str_eq device (codes "lo"))
        (str_eq device (codes "dev")))

untyped_line :
    (device : Str) → IsWord device → route_line (words_text (route_words none device)) ≡ false
unfolding route_line str_eq
untyped_line device v =
    let ws = route_words-AreWords none device tt v in
    rw (trim_space-words_text _ _ ws, fields-words_text _ ws, route_line) refl

route_line-route_text :
    (r : KernelRoute)
    → IsShownRoute r
    → route_line (route_text r) ≡ (is_local r.type && str_eq r.device (codes "lo"))
route_line-route_text r v = of_type r.type v.0
  where
    of_type :
        (type : Option Str)
        → IsType type
        → route_line (words_text (route_words type r.device))
          ≡ (is_local type && str_eq r.device (codes "lo"))
    of_type (some type) u = typed_line type r.device u v.1
    of_type none u = untyped_line r.device v.1

abbrev AllWithout : List Str → Type 0
AllWithout [] = Unit
AllWithout (line ∷ lines) = Without 10 line × AllWithout lines

-- A text of lines is taken apart into the lines and an empty one.
any_line-shown :
    (p : Str → Bool) (lines : List Str)
    → p [] ≡ false
    → AllWithout lines
    → any_line p (split 10 (shown_lines lines)) ≡ exists p lines
unfolding split
any_line-shown p [] last v = rw last refl
any_line-shown p (line ∷ lines) last v =
    rw (split-append 10 line (shown_lines lines) v.0)
      (ap (λ b. p line || b) (any_line-shown p lines last v.1))

no_rule : (want : ℕ) (table : Str) → rule_line want table [] ≡ false
unfolding rule_line trim_space trim_left trim_right cut fields fields_func
no_rule want table = refl

no_route : route_line [] ≡ false
unfolding route_line trim_space trim_left trim_right fields fields_func
no_route = refl

module _ (mark_text : ℕ → Str) where
  rule_text-Without : (r : KernelRule) → IsShown mark_text r → Without 10 (rule_text mark_text r)
  rule_text-Without r v =
      let digits = itoa r.preference in
      Without-append 10 (digits ++ (b':' ∷ 9 ∷ []))
        (words_text (mark_words mark_text r.mark r.table))
        (Without-append 10 digits (b':' ∷ 9 ∷ [])
          (digits-Without 10 digits (inl (omega arith)) (itoa-AreDigits r.preference).0)
          (refl, (refl, tt)))
        (words_text-Without (mark_words mark_text r.mark r.table)
          (mark_words-AreWords mark_text r.mark r.table v.0 v.1))

  rule_lines-AllWithout :
      (rs : List KernelRule) → Each (IsShown mark_text) rs → AllWithout (rule_lines mark_text rs)
  rule_lines-AllWithout [] v = tt
  rule_lines-AllWithout (r ∷ rs) v = (rule_text-Without r v.0, rule_lines-AllWithout rs v.1)

  exists-rule_lines :
      (want : ℕ) (table : Str) (rs : List KernelRule)
      → Each (IsShown mark_text) rs
      → exists (rule_line want table) (rule_lines mark_text rs) ≡ exists (is_rule want table) rs
  exists-rule_lines want table [] v = refl
  exists-rule_lines want table (r ∷ rs) v =
      ap (λ b. b || exists (rule_line want table) (rule_lines mark_text rs))
        (rule_line-rule_text mark_text want table r v.0)
      ∙ ap (λ b. is_rule want table r || b) (exists-rule_lines want table rs v.1)

  -- `RulePresent` finds the rule exactly if the kernel has it.
  pub rule_present-shown :
      (cfg : TproxyConfig) (n : ℕ) (rs : List KernelRule)
      → parse_uint32 cfg.mark ≡ some n
      → Each (IsShown mark_text) rs
      → rule_present (shown_lines (rule_lines mark_text rs)) cfg
        ≡ exists (is_rule n (table_string cfg)) rs
  unfolding rule_present
  rule_present-shown cfg n rs read v =
      let lines = rule_lines mark_text rs in
      rw (read, rule_present)
        (any_line-shown (rule_line n (table_string cfg)) lines (no_rule n (table_string cfg))
            (rule_lines-AllWithout rs v)
          ∙ exists-rule_lines n (table_string cfg) rs v)

route_lines-AllWithout :
    (table : Str) (rs : List KernelRoute) → Each IsShownRoute rs → AllWithout (route_lines table rs)
route_lines-AllWithout table [] v = tt
route_lines-AllWithout table (r ∷ rs) v = elim (Bool-cases (str_eq r.table table)) [
  | inl here ↦ rw here (
    words_text-Without (route_words r.type r.device)
        (route_words-AreWords r.type r.device v.0.0 v.0.1),
    route_lines-AllWithout table rs v.1,
  )
  | inr elsewhere ↦ rw elsewhere (route_lines-AllWithout table rs v.1)
]

exists-route_lines :
    (table : Str) (rs : List KernelRoute)
    → Each IsShownRoute rs
    → exists route_line (route_lines table rs) ≡ exists (is_route table) rs
exists-route_lines table [] v = refl
exists-route_lines table (r ∷ rs) v = elim (Bool-cases (str_eq r.table table)) [
  | inl here ↦ rw here (
      ap (λ b. b || exists route_line (route_lines table rs)) (route_line-route_text r v.0)
      ∙ ap (λ b. (is_local r.type && str_eq r.device (codes "lo")) || b)
          (exists-route_lines table rs v.1))
  | inr elsewhere ↦ rw elsewhere (exists-route_lines table rs v.1)
]

-- `RoutePresent` finds the route in the text for a table exactly if the table has it.
pub route_present-shown :
    (table : Str) (rs : List KernelRoute)
    → Each IsShownRoute rs
    → route_present (shown_lines (route_lines table rs)) ≡ exists (is_route table) rs
unfolding route_present
route_present-shown table rs v =
    any_line-shown route_line (route_lines table rs) no_route (route_lines-AllWithout table rs v)
    ∙ exists-route_lines table rs v
