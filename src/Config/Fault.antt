-- ===== src/Config/Fault.antt =====
-- internal/config/config.go: the errors of `Validate`, and the checks that return them.
use Prim.Native.String.{String}
use zakop.Prelude.{
  ◌≡◌, refl, Bool, true, false, not, List, [], ◌∷◌, Option, none, some, if◌then◌else◌, arith,
}
use zakop.Text.{Str, codes}
use zakop.Dict.{contains_text}

-- An error that `fmt.Errorf` makes: its format, and the text among the arguments that names what is
-- wrong, which is empty where there is none.
pub record Fault : Type 0 where
  pub message : Str
  pub subject : Str

unfoldable pub fault : String → Str → Fault
fault message subject = record { message = codes message; subject = subject }

-- `if bad { return fmt.Errorf(...) }`; no error is `none`.
unfoldable pub fail_if : Bool → Fault → Option Fault
fail_if true error = some error
fail_if false error = none

-- The checks on the right run where those on the left return no error.
infixr 30 ◌<|>◌
abbrev pub ◌<|>◌ : Option Fault → Option Fault → Option Fault
none <|> later = later
some error <|> later = some error

-- A `switch` whose cases are these texts.
unfoldable pub one_of : List Str → Str → Bool
unfolding contains_text
one_of cases value = contains_text cases value

module _ {A : Type 0} (check_one : A → Option Fault) where
  -- A loop of checks that keeps no state.
  unfoldable pub check_each : List A → Option Fault
  check_each [] = none
  check_each (x ∷ xs) = check_one x <|> check_each xs

pub <|>_none : (a b : Option Fault) → (a <|> b) ≡ none → (a ≡ none) × (b ≡ none)
<|>_none none b e = (refl, e)
<|>_none (some error) b e = absurd (ground arith)

pub fail_if-false : (bad : Bool) (error : Fault) → fail_if bad error ≡ none → bad ≡ false
unfolding fail_if
fail_if-false true error e = absurd (ground arith)
fail_if-false false error e = refl

-- What a check that finds no error tells, in front of others.
pub passed :
    {bad : Bool} (error : Fault) {later : Option Fault}
    → (fail_if bad error <|> later) ≡ none
    → (bad ≡ false) × (later ≡ none)
passed {bad} error {later} e =
    let (first, rest) = <|>_none (fail_if bad error) later e in
    (fail_if-false bad error first, rest)

-- Behind an early return that is not taken.
pub not_skipped :
    (go_on : Bool) (later : Option Fault)
    → go_on ≡ true
    → (if not go_on then none else later) ≡ none
    → later ≡ none
not_skipped true later e f = f
not_skipped false later e f = absurd (ground arith)
