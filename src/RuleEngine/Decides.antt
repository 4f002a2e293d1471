-- ===== src/RuleEngine/Decides.antt =====
-- `DomainDecision` takes the first rule that matches, and what its answer can be.
use zakop.Prelude.{◌≡◌, ◌⊎◌, true, false, List, [], ◌∷◌, ◌++◌}
use zakop.Text.{Str}
use zakop.Config.Types.{Rule}
use zakop.RuleEngine.{Decision, match_domain, direct_decision, decision_of}

abbrev pub NoneMatches : List Rule → Str → Type 0
NoneMatches [] name = Unit
NoneMatches (r ∷ rs) name = (match_domain r name ≡ false) × NoneMatches rs name

-- The rules split at the first one that matches, or none does.
abbrev pub FirstMatch : List Rule → Str → Decision → Type 0
FirstMatch rules name d =
    (NoneMatches rules name × (d ≡ direct_decision))
    ⊎ ((before : List Rule) × (r : Rule) × (after : List Rule) × (rules ≡ before ++ (r ∷ after))
        × NoneMatches before name
        × (match_domain r name ≡ true)
        × (d ≡ decision_of r))
