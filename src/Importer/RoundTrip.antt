-- ===== src/Importer/RoundTrip.antt =====
-- What the configuration reads from the sections that `formatOutbound` writes.
use zakop.Prelude.{
  zero, suc, ◌≡◌, inl, inr, refl, sym, ap, ◌∙◌, Bool, true, false, not, ◌&&◌, List, [], ◌∷◌, ◌++◌,
  append_assoc, none, some, arith, ltb, if◌then◌else◌, Bool-cases,
}
use zakop.Prelude.Int.{ℤ, pos, negsuc}
use zakop.Text.{Str, codes, str_eq, split, trim_space, trim_left, trim_right}
use zakop.Text.Match.{str_eq_refl}
use zakop.Text.Number.{itoa}
use zakop.Dict.{put}
use zakop.Config.Access.{is_blank}
use zakop.Config.Types.{Outbound}
use zakop.Config.Uci.{
  Section, Parsing, parse_fields, open_section, add_option, parse_line, parse_lines, parse_trimmed,
  parse_sections, strip_comment, uncomment_from,
}
use zakop.Importer.Format.{
  quote, write_option, write_bool, write_list, write_positive, Write, option, flag, many, positive,
  write, write_all, ApplyOptions, outbound_writes, format_outbound,
}
use zakop.Importer.Quote.{IsWord, flat}
use zakop.Importer.Breaks.{NoBreak, split-line, NoBreak-append, NoBreak-name, NoBreak-quote}
use zakop.Importer.Line.{IsName, parse_line-body, parse_line-tab}

-- The value of an option that is written, and the options read when it is written behind others.
abbrev pub read_option : Str → Str → List (Str × Str) → List (Str × Str)
read_option name value m = if is_blank value then m else put name (flat value) m

abbrev pub read_many : Str → List Str → List (Str × Str) → List (Str × Str)
read_many name [] m = m
read_many name (value ∷ values) m = read_many name values (read_option name value m)

abbrev pub read_positive : Str → ℤ → List (Str × Str) → List (Str × Str)
read_positive name (pos zero) m = m
read_positive name (pos (suc n)) m = read_option name (itoa (suc n)) m
read_positive name (negsuc n) m = m

abbrev pub read_write : Write → List (Str × Str) → List (Str × Str)
read_write (option name value) m = read_option name value m
read_write (flag name value) m = if value then read_option name (codes "1") m else m
read_write (many name values) m = read_many name values m
read_write (positive name n) m = read_positive name n m

abbrev pub read_all : List Write → List (Str × Str) → List (Str × Str)
read_all [] m = m
read_all (w ∷ ws) m = read_all ws (read_write w m)

abbrev pub name_of : Write → Str
name_of (option name value) = name
name_of (flag name value) = name
name_of (many name values) = name
name_of (positive name n) = name

abbrev pub AreWrites : List Write → Type 0
AreWrites [] = Unit
AreWrites (w ∷ ws) = IsName (name_of w) × AreWrites ws

module _ (closed : List Section) (type name : Str) where
  abbrev at : List (Str × Str) → Parsing
  at m = record {
    closed = closed;
    cur = some (record { type = type; name = name; options = m; lists = [] });
  }

  parse_fields-option :
      (key value : Str) (m : List (Str × Str))
      → parse_fields (at m) (codes "option" ∷ key ∷ value ∷ []) ≡ some (at (put key value m))
  unfolding parse_fields add_option str_eq
  parse_fields-option key value m = refl

  parse_lines-next :
      (p next : Parsing) (line : Str) (lines : List Str)
      → parse_line p line ≡ some next
      → parse_lines p (line ∷ lines) ≡ parse_lines next lines
  unfolding parse_lines
  parse_lines-next p next line lines e = rw (e, parse_lines)

  module _ (key value : Str) where
    line : Str
    line = 9 ∷ (codes "option" ++ (b' ' ∷ (key ++ (b' ' ∷ quote value))))

    line-regroup :
        (rest : Str)
        → (9 ∷ (codes "option " ++ (key ++ (b' ' ∷ (quote value ++ (10 ∷ [])))))) ++ rest
          ≡ line ++ (10 ∷ rest)
    unfolding line
    line-regroup rest =
        ap (λ (x : Str). 9 ∷ (codes "option " ++ x))
          (append_assoc key (b' ' ∷ (quote value ++ (10 ∷ []))) rest
            ∙ ap (λ (x : Str). key ++ (b' ' ∷ x)) (append_assoc (quote value) (10 ∷ []) rest)
            ∙ sym (append_assoc key (b' ' ∷ quote value) (10 ∷ rest)))

    line-NoBreak : IsName key → NoBreak line
    unfolding line
    line-NoBreak v =
        NoBreak-append (9 ∷ codes "option ") (key ++ (b' ' ∷ quote value)) (ground arith) (
          NoBreak-append key (b' ' ∷ quote value) (NoBreak-name key v)
            ((λ e. absurd (omega arith)), NoBreak-quote value))

    line-parse :
        (m : List (Str × Str))
        → IsName key
        → parse_line (at m) line ≡ some (at (put key (flat value) m))
    unfolding line
    line-parse m v =
        parse_line-tab (at m) (codes "option" ++ (b' ' ∷ (key ++ (b' ' ∷ quote value))))
        ∙ parse_line-body (at m) (codes "option") key value (ground arith) v
        ∙ parse_fields-option key (flat value) m

  parse_lines-option :
      (key value rest : Str) (m : List (Str × Str))
      → IsName key
      → parse_lines (at m) (split 10 (write_option key value ++ rest))
        ≡ parse_lines (at (read_option key value m)) (split 10 rest)
  unfolding write_option
  parse_lines-option key value rest m v = elim (Bool-cases (is_blank value)) [
    | inl blank ↦ rw blank
    | inr written ↦ rw written (
        ap (λ t. parse_lines (at m) (split 10 t)) (line-regroup key value rest)
        ∙ ap (λ t. parse_lines (at m) t)
            (split-line (line key value) rest (line-NoBreak key value v))
        ∙ parse_lines-next (at m) (at (put key (flat value) m)) (line key value) (split 10 rest)
            (line-parse key value m v))
  ]

  parse_lines-many :
      (key : Str) (values : List Str) (rest : Str) (m : List (Str × Str))
      → IsName key
      → parse_lines (at m) (split 10 (write_list key values ++ rest))
        ≡ parse_lines (at (read_many key values m)) (split 10 rest)
  unfolding write_list
  parse_lines-many key [] rest m v = refl
  parse_lines-many key (value ∷ values) rest m v =
      ap (λ t. parse_lines (at m) (split 10 t))
        (append_assoc (write_option key value) (write_list key values) rest)
      ∙ parse_lines-option key value (write_list key values ++ rest) m v
      ∙ parse_lines-many key values rest (read_option key value m) v

  parse_lines-write :
      (w : Write) (rest : Str) (m : List (Str × Str))
      → IsName (name_of w)
      → parse_lines (at m) (split 10 (write w ++ rest))
        ≡ parse_lines (at (read_write w m)) (split 10 rest)
  unfolding write_bool write_positive
  parse_lines-write (option key value) rest m v = parse_lines-option key value rest m v
  parse_lines-write (flag key true) rest m v = parse_lines-option key (codes "1") rest m v
  parse_lines-write (flag key false) rest m v = refl
  parse_lines-write (many key values) rest m v = parse_lines-many key values rest m v
  parse_lines-write (positive key (pos zero)) rest m v = refl
  parse_lines-write (positive key (pos (suc n))) rest m v =
      parse_lines-option key (itoa (suc n)) rest m v
  parse_lines-write (positive key (negsuc n)) rest m v = refl

  parse_lines-empty : (m : List (Str × Str)) → parse_lines (at m) (split 10 []) ≡ some (at m)
  unfolding parse_lines split parse_line strip_comment uncomment_from trim_space trim_left
      trim_right parse_trimmed
  parse_lines-empty m = refl

  parse_lines-writes :
      (ws : List Write) (m : List (Str × Str))
      → AreWrites ws
      → parse_lines (at m) (split 10 (write_all ws)) ≡ some (at (read_all ws m))
  parse_lines-writes [] m v = parse_lines-empty m
  parse_lines-writes (w ∷ ws) m v =
      parse_lines-write w (write_all ws) m v.0 ∙ parse_lines-writes ws (read_write w m) v.1

-- The first line of a section.
header-NoBreak :
    (value : Str) → NoBreak (codes "config" ++ (b' ' ∷ (codes "outbound" ++ (b' ' ∷ quote value))))
header-NoBreak value =
    NoBreak-append (codes "config outbound ") (quote value) (ground arith) (NoBreak-quote value)

abbrev nothing : Parsing
nothing = record { closed = []; cur = none }

header-parse :
    (value : Str)
    → parse_line nothing (codes "config" ++ (b' ' ∷ (codes "outbound" ++ (b' ' ∷ quote value))))
      ≡ some (at [] (codes "outbound") (flat value) [])
unfolding parse_fields open_section str_eq
header-parse value =
    parse_line-body nothing (codes "config") (codes "outbound") value (ground arith) (ground arith)

abbrev word_test : Str → Bool
word_test [] = true
word_test (c ∷ w) = ltb b'\'' c && (ltb c 0x80 && word_test w)

abbrev names_test : List Write → Bool
names_test [] = true
names_test (w ∷ ws) = (not (str_eq (name_of w) []) && word_test (name_of w)) && names_test ws

word_test-IsWord : (w : Str) → word_test w ≡ true → IsWord w
word_test-IsWord [] e = tt
word_test-IsWord (c ∷ w) e = ground (arith, word_test-IsWord w)

names_test-AreWrites : (ws : List Write) → names_test ws ≡ true → AreWrites ws
names_test-AreWrites [] e = tt
names_test-AreWrites (w ∷ ws) e =
    (name (name_of w) (ground arith), names_test-AreWrites ws (ground arith))
  where
    name : (n : Str) → (not (str_eq n []) && word_test n) ≡ true → IsName n
    name [] e = absurd (ground (arith, str_eq_refl []))
    name (c ∷ n) e = word_test-IsWord (c ∷ n) (ground arith)

outbound_writes-names :
    (out : Outbound) (opts : ApplyOptions) → names_test (outbound_writes out opts) ≡ true
unfolding outbound_writes str_eq
outbound_writes-names out opts = names opts.source opts.subscription
  where
    names :
        (s : Str) (b : Bool)
        → names_test (outbound_writes out (record { source = s; subscription = b })) ≡ true
    names s true = refl
    names [] false = refl
    names (c ∷ s) false = refl

-- The text that `formatOutbound` writes is read as one section of type "outbound": its name is the
-- tag, and its options are the ones written that are not blank, a later one in front of an earlier
-- one with the same name, each value with its line breaks made spaces.
pub parse_sections-format_outbound :
    (out : Outbound) (opts : ApplyOptions)
    → parse_sections (format_outbound out opts)
      ≡ some (
          record {
            type = codes "outbound";
            name = flat out.tag;
            options = read_all (outbound_writes out opts) [];
            lists = [];
          }
          ∷ [])
unfolding parse_sections format_outbound
parse_sections-format_outbound out opts =
    let lines = write_all (outbound_writes out opts) in
    let header = codes "config" ++ (b' ' ∷ (codes "outbound" ++ (b' ' ∷ quote out.tag))) in
    let parsed : parse_lines nothing (split 10 (header ++ (10 ∷ lines)))
        ≡ some (at [] (codes "outbound") (flat out.tag) (read_all (outbound_writes out opts) [])) =
      ap (λ t. parse_lines nothing t) (split-line header lines (header-NoBreak out.tag))
      ∙ parse_lines-next [] [] [] nothing (at [] (codes "outbound") (flat out.tag) []) header
          (split 10 lines) (header-parse out.tag)
      ∙ parse_lines-writes [] (codes "outbound") (flat out.tag) (outbound_writes out opts) []
          (names_test-AreWrites _ (outbound_writes-names out opts)) in
    rw (parsed, parse_sections)
