-- ===== src/Importer/Breaks.antt =====
-- Lines and the text split into them: what is written of an option has no line break inside.
use zakop.Prelude.{ℕ, ◌≡◌, ◌≢◌, refl, [], ◌∷◌, ◌++◌, arith}
use zakop.Text.{Str, split}
use zakop.Importer.Format.{quote}
use zakop.Importer.Quote.{IsWord, escape, escape_rune, quoted_text-escape}
use zakop.Importer.Line.{IsName}

abbrev pub NoBreak : Str → Type 0
NoBreak [] = Unit
NoBreak (c ∷ s) = (c ≢ 10) × NoBreak s

pub split-line :
    (line rest : Str) → NoBreak line → split 10 (line ++ (10 ∷ rest)) ≡ line ∷ split 10 rest
unfolding split
split-line [] rest v = refl
split-line (c ∷ line) rest v = ground (arith, split-line line rest v.1)

pub NoBreak-append : (a b : Str) → NoBreak a → NoBreak b → NoBreak (a ++ b)
NoBreak-append [] b v w = w
NoBreak-append (c ∷ a) b v w = (v.0, NoBreak-append a b v.1 w)

pub NoBreak-word : (w : Str) → IsWord w → NoBreak w
NoBreak-word [] v = tt
NoBreak-word (c ∷ w) v = ((λ e. absurd (omega arith)), NoBreak-word w v.2)

pub NoBreak-name : (w : Str) → IsName w → NoBreak w
NoBreak-name [] v = tt
NoBreak-name (c ∷ w) v = NoBreak-word (c ∷ w) v

pub NoBreak-escape : (s : Str) → NoBreak (escape s)
NoBreak-escape [] = tt
NoBreak-escape (c ∷ s) = NoBreak-append (escape_rune c) (escape s) (one c) (NoBreak-escape s)
  where
    one : (d : ℕ) → NoBreak (escape_rune d)
    one d = ground arith

pub NoBreak-quote : (value : Str) → NoBreak (quote value)
NoBreak-quote value = rw (quoted_text-escape value) (
  (λ e. absurd (omega arith)),
  NoBreak-append (escape value) (b'"' ∷ []) (NoBreak-escape value)
      ((λ e. absurd (omega arith)), tt),
)
