-- ===== src/TProxy.antt =====
-- internal/tproxy/tproxy.go: the policy rule and the local route of TProxy.
pub mod Kernel
pub mod Shown
pub mod Plan
use zakop.Prelude.{
  ℕ, zero, suc, ◌+◌, ◌-◌, ◌^◌, Bool, true, false, not, ◌&&◌, ◌||◌, List, [], ◌∷◌, ◌++◌, Option,
  none, some, ltb, leb, ◌==◌, if◌then◌else◌, length, get_or,
}
use zakop.Prelude.Int.{ℤ, pos, negsuc}
use zakop.Text.{Str, codes, str_eq, to_lower, trim_space, contains, cut, split, fields}
use zakop.Text.Number.{itoa, parse_uint32}

pub record TproxyConfig : Type 0 where
  pub mark : Str
  pub table : ℤ

pub record Command : Type 0 where
  pub name : Str
  pub args : List Str

pub record State : Type 0 where
  pub rule_present : Bool
  pub route_present : Bool

abbrev pub table_string : TproxyConfig → Str
table_string cfg = elim cfg.table [ pos n ↦ itoa n | negsuc n ↦ b'-' ∷ itoa (suc n) ]

abbrev ip_command : List Str → Command
ip_command args = record { name = codes "ip"; args = codes "-4" ∷ args }

unfoldable pub rule_add_command : TproxyConfig → Command
rule_add_command cfg =
    ip_command (
      codes "rule"
      ∷ codes "add"
      ∷ codes "fwmark"
      ∷ cfg.mark
      ∷ codes "table"
      ∷ table_string cfg
      ∷ [])

unfoldable pub rule_del_command : TproxyConfig → Command
rule_del_command cfg =
    ip_command (
      codes "rule"
      ∷ codes "del"
      ∷ codes "fwmark"
      ∷ cfg.mark
      ∷ codes "table"
      ∷ table_string cfg
      ∷ [])

abbrev route_args : Str → TproxyConfig → List Str
route_args verb cfg =
    codes "route"
    ∷ verb
    ∷ codes "local"
    ∷ codes "default"
    ∷ codes "dev"
    ∷ codes "lo"
    ∷ codes "table"
    ∷ table_string cfg
    ∷ []

unfoldable pub route_add_command : TproxyConfig → Command
route_add_command cfg = ip_command (route_args (codes "add") cfg)

unfoldable pub route_del_command : TproxyConfig → Command
route_del_command cfg = ip_command (route_args (codes "del") cfg)

-- The shape of the fields of an unconditional rule.
abbrev field : List Str → ℕ → Str
field fs i = get_or fs i []

abbrev pub is_source_rule : List Str → Bool
is_source_rule fs =
    leb 6 (length fs)
    && str_eq (field fs 0) (codes "from")
    && str_eq (field fs 1) (codes "all")
    && str_eq (field fs 2) (codes "fwmark")
    && (str_eq (field fs 4) (codes "lookup") || str_eq (field fs 4) (codes "table"))
    && (length fs == 6
        || (length fs == 8
            && (str_eq (field fs 6) (codes "proto") || str_eq (field fs 6) (codes "protocol"))))

-- The case "fwmark": the value, and a mask that is full where one is given.
abbrev is_some_of : ℕ → Option ℕ → Bool
is_some_of want none = false
is_some_of want (some n) = n == want

abbrev mark_ok : ℕ → List Str → Bool
mark_ok want (value ∷ []) = is_some_of want (parse_uint32 value)
mark_ok want (value ∷ mask ∷ []) =
    is_some_of want (parse_uint32 value) && is_some_of 0xffff_ffff (parse_uint32 mask)
mark_ok want _ = false

-- The inner loop over the pairs of neighbours: `markOK` and `tableOK`.
unfoldable pub scan_pairs : ℕ → Str → List Str → Bool × Bool → Bool × Bool
scan_pairs want table [] ok = ok
scan_pairs want table (a ∷ []) ok = ok
scan_pairs want table (a ∷ b ∷ fs) (mark, tabled) =
    let next : Bool × Bool =
      if str_eq a (codes "fwmark")
      then (mark_ok want (split b'/' b), tabled)
      else if str_eq a (codes "lookup") || str_eq a (codes "table")
      then (mark, str_eq b table)
      else (mark, tabled) in
    scan_pairs want table (b ∷ fs) next

abbrev pub both : Bool × Bool → Bool
both (a, b) = a && b

-- The fields of a line, behind the preference and its colon.
abbrev pub behind_colon : Str → Str
behind_colon line = elim (cut b':' line) [ none ↦ line | some (_, rest) ↦ trim_space rest ]

unfoldable pub rule_line : ℕ → Str → Str → Bool
rule_line want table raw =
    let fs = fields (behind_colon (trim_space raw)) in
    is_source_rule fs && both (scan_pairs want table fs (false, false))

abbrev pub any_line : (Str → Bool) → List Str → Bool
any_line p [] = false
any_line p (l ∷ ls) = p l || any_line p ls

-- `RulePresent`.
unfoldable pub rule_present : Str → TproxyConfig → Bool
rule_present rule_show cfg = elim (parse_uint32 cfg.mark) [
  | none ↦ false
  | some want ↦ any_line (rule_line want (table_string cfg)) (split 10 rule_show)
]

abbrev dev_lo : List Str → Bool
dev_lo [] = false
dev_lo (a ∷ []) = false
dev_lo (a ∷ b ∷ fs) = (str_eq a (codes "dev") && str_eq b (codes "lo")) || dev_lo (b ∷ fs)

abbrev from_third : List Str → List Str
from_third (a ∷ b ∷ fs) = fs
from_third _ = []

unfoldable pub route_line : Str → Bool
route_line raw =
    let fs = fields (trim_space raw) in
    leb 4 (length fs)
    && str_eq (field fs 0) (codes "local")
    && (str_eq (field fs 1) (codes "default") || str_eq (field fs 1) (codes "0.0.0.0/0"))
    && dev_lo (from_third fs)

-- `RoutePresent`.
unfoldable pub route_present : Str → Bool
route_present route_show = any_line route_line (split 10 route_show)

-- `Inspect`, `PlanEnsure` and `PlanCleanup`.
unfoldable pub inspect : Str → Str → TproxyConfig → State
inspect rule_show route_show cfg = record {
  rule_present = rule_present rule_show cfg;
  route_present = route_present route_show;
}

abbrev only_if : Bool → Command → List Command
only_if b c = if b then c ∷ [] else []

unfoldable pub plan_ensure : Str → Str → TproxyConfig → List Command
plan_ensure rule_show route_show cfg =
    let state = inspect rule_show route_show cfg in
    only_if (not state.rule_present) (rule_add_command cfg)
    ++ only_if (not state.route_present) (route_add_command cfg)

unfoldable pub plan_cleanup : Str → Str → TproxyConfig → List Command
plan_cleanup rule_show route_show cfg =
    let state = inspect rule_show route_show cfg in
    only_if state.rule_present (rule_del_command cfg)
    ++ only_if state.route_present (route_del_command cfg)

-- `RouteTableMissing`.
unfoldable pub route_table_missing : Str → ℤ → Bool
route_table_missing output (pos n) =
    if n == 2
    then true
    else contains (to_lower output) (codes "fib table does not exist")
      || contains (to_lower output) (codes "cannot find device")
      || contains (to_lower output) (codes "no such file or directory")
route_table_missing output (negsuc n) =
    contains (to_lower output) (codes "fib table does not exist")
    || contains (to_lower output) (codes "cannot find device")
    || contains (to_lower output) (codes "no such file or directory")
