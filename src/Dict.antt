-- ===== src/Dict.antt =====
-- A Go map with string keys as a list of pairs: the pair in front is the last one written.
use zakop.Prelude.{Bool, false, ◌||◌, List, [], ◌∷◌, Option, none, some, if◌then◌else◌}
use zakop.Text.{Str, str_eq}

module _ {ℓ} {V : Type ℓ} where
  -- `m[k]`, with `none` where the key is missing.
  unfoldable pub lookup : Str → List (Str × V) → Option V
  lookup k [] = none
  lookup k ((j, v) ∷ m) = if str_eq j k then some v else lookup k m

  -- `m[k] = v`.
  abbrev pub put : Str → V → List (Str × V) → List (Str × V)
  put k v m = (k, v) ∷ m

-- `_, ok := m[k]` of a `map[string]struct{}` with these keys.
unfoldable pub contains_text : List Str → Str → Bool
contains_text [] s = false
contains_text (x ∷ xs) s = str_eq x s || contains_text xs s
