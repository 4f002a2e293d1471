-- ===== src/Config/Validate.antt =====
-- internal/config/config.go: `Validate` and `Parse` as a whole.
pub mod Main
pub mod Targets
pub mod Rules
pub mod Fresh
pub mod Loops
pub mod Sound
use zakop.Prelude.{Bool, not, List, [], ◌∷◌, Option, none, some, ltb, length, if◌then◌else◌}
use zakop.Text.{Str}
use zakop.Config.Types.{Config}
use zakop.Config.Uci.{Section, parse_sections}
use zakop.Config.Parse.{config_of}
use zakop.Config.Fault.{Fault, ◌<|>◌}
use Main.{check_main}
use Targets.{check_targets, seen_tags}
use Rules.{check_lists}

-- `Validate`; no error is `none`.
unfoldable pub validate : Config → Option Fault
validate c =
    if not c.main.enabled
    then none
    else (check_main c.main (ltb 0 (length c.outbound_pools))
        <|> check_targets c
        <|> check_lists (seen_tags c) c)

-- The results of `Parse`: a line that `parseSections` refuses, an error of `Validate`, or a
-- configuration.
pub data Parsed : Type 0 where
  bad_line : Parsed
  refused : Fault → Parsed
  parsed : Config → Parsed

-- The end of `Parse`.
unfoldable pub checked : Config → Parsed
checked c = elim (validate c) [ none ↦ parsed c | some error ↦ refused error ]

-- `Parse`.
unfoldable pub parse : Str → Parsed
parse data' = elim (parse_sections data') [
  | none ↦ bad_line
  | some sections ↦ checked (config_of sections)
]
