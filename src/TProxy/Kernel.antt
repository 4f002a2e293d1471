-- ===== src/TProxy/Kernel.antt =====
-- The rules and routes of the kernel, what `ip` does to them, and how `ip rule show` and
-- `ip route show` print them. The notation of a mark is an argument.
use zakop.Prelude.{
  ℕ, ◌≡◌, Bool, false, ◌&&◌, ◌||◌, List, [], ◌∷◌, ◌++◌, Option, none, some, ◌==◌, if◌then◌else◌,
}
use zakop.Text.{Str, codes, str_eq}
use zakop.Text.Number.{itoa, parse_uint32}
use zakop.Text.Fields.{IsWord, words_text}
use zakop.Net.Parse.Printed.{Without}

-- A rule for all packets, or for those with a mark. A table is the text of its number.
pub record KernelRule : Type 0 where
  pub preference : ℕ
  pub mark : Option ℕ
  pub table : Str

-- A default route of a table. Its type is printed, as "local" or "unreachable", or it is none, for
-- a route to other hosts.
pub record KernelRoute : Type 0 where
  pub table : Str
  pub type : Option Str
  pub device : Str

pub record Kernel : Type 0 where
  pub rules : List KernelRule
  pub routes : List KernelRoute

abbrev pub same_mark : ℕ → Option ℕ → Bool
same_mark n none = false
same_mark n (some m) = m == n

abbrev pub is_rule : ℕ → Str → KernelRule → Bool
is_rule n table r = same_mark n r.mark && str_eq r.table table

abbrev pub is_local : Option Str → Bool
is_local none = false
is_local (some type) = str_eq type (codes "local")

abbrev pub is_route : Str → KernelRoute → Bool
is_route table r = str_eq r.table table && (is_local r.type && str_eq r.device (codes "lo"))

module _ {A : Type 0} (p : A → Bool) where
  abbrev pub exists : List A → Bool
  exists [] = false
  exists (x ∷ xs) = p x || exists xs

  -- Without the first such element.
  abbrev pub without_first : List A → List A
  without_first [] = []
  without_first (x ∷ xs) = let rest = without_first xs in if p x then xs else x ∷ rest

-- `ip -4 rule` and `ip -4 route` with a default route: adding what is there and deleting what is not
-- there is an error, and so is any other command.
abbrev pub rule_for : ℕ → ℕ → Str → KernelRule
rule_for preference n table = record { preference = preference; mark = some n; table = table }

abbrev pub local_route : Str → KernelRoute
local_route table = record { table = table; type = some (codes "local"); device = codes "lo" }

abbrev change : {A : Type 0} → Str → (A → Bool) → A → List A → Option (List A)
change verb p x xs =
    if str_eq verb (codes "add")
    then if exists p xs then none else some (x ∷ xs)
    else if str_eq verb (codes "del")
    then if exists p xs then some (without_first p xs) else none
    else none

abbrev with_rules : Kernel → Option (List KernelRule) → Option Kernel
with_rules k none = none
with_rules k (some rules) = some (record k { rules = rules })

abbrev with_routes : Kernel → Option (List KernelRoute) → Option Kernel
with_routes k none = none
with_routes k (some routes) = some (record k { routes = routes })

abbrev ip_rule : ℕ → Str → List Str → Kernel → Option Kernel
ip_rule preference verb (selector ∷ mark ∷ target ∷ table ∷ []) k =
    if str_eq selector (codes "fwmark") && str_eq target (codes "table")
    then elim (parse_uint32 mark) [
      | none ↦ none
      | some n ↦ with_rules k (change verb (is_rule n table) (rule_for preference n table) k.rules)
    ]
    else none
ip_rule preference verb _ k = none

abbrev ip_route : Str → List Str → Kernel → Option Kernel
ip_route verb (type ∷ prefix ∷ dev ∷ device ∷ target ∷ table ∷ []) k =
    if str_eq type (codes "local")
      && str_eq prefix (codes "default")
      && str_eq dev (codes "dev")
      && str_eq device (codes "lo")
      && str_eq target (codes "table")
    then with_routes k (change verb (is_route table) (local_route table) k.routes)
    else none
ip_route verb _ k = none

-- The arguments of `ip`. The preference is the one that the kernel gives to a new rule.
abbrev pub run_ip : ℕ → List Str → Kernel → Option Kernel
run_ip preference (family ∷ object ∷ verb ∷ rest) k =
    if str_eq family (codes "-4")
    then if str_eq object (codes "rule")
      then ip_rule preference verb rest k
      else if str_eq object (codes "route")
      then ip_route verb rest k
      else none
    else none
run_ip preference _ k = none

-- The texts of `ip -4 rule show` and `ip -4 route show table`.
abbrev pub shown_lines : List Str → Str
shown_lines [] = []
shown_lines (line ∷ lines) = line ++ (10 ∷ shown_lines lines)

module _ (mark_text : ℕ → Str) where
  abbrev pub mark_words : Option ℕ → Str → List Str
  mark_words none table = codes "from" ∷ codes "all" ∷ codes "lookup" ∷ table ∷ []
  mark_words (some n) table =
      codes "from" ∷ codes "all" ∷ codes "fwmark" ∷ mark_text n ∷ codes "lookup" ∷ table ∷ []

  abbrev pub rule_text : KernelRule → Str
  rule_text r = (itoa r.preference ++ (b':' ∷ 9 ∷ [])) ++ words_text (mark_words r.mark r.table)

  abbrev pub rule_lines : List KernelRule → List Str
  rule_lines [] = []
  rule_lines (r ∷ rs) = rule_text r ∷ rule_lines rs

  -- Marks are printed as a word that `strconv.ParseUint` reads back, and without a mask.
  abbrev pub IsMark : Option ℕ → Type 0
  IsMark none = Unit
  IsMark (some n) =
      IsWord (mark_text n) × Without b'/' (mark_text n) × (parse_uint32 (mark_text n) ≡ some n)

  abbrev pub IsShown : KernelRule → Type 0
  IsShown r = IsMark r.mark × IsWord r.table

abbrev pub route_words : Option Str → Str → List Str
route_words none device = codes "default" ∷ codes "dev" ∷ device ∷ codes "scope" ∷ codes "link" ∷ []
route_words (some type) device =
    type ∷ codes "default" ∷ codes "dev" ∷ device ∷ codes "scope" ∷ codes "host" ∷ []

-- The type and the device are words.
abbrev pub IsType : Option Str → Type 0
IsType none = Unit
IsType (some type) = IsWord type

abbrev pub IsShownRoute : KernelRoute → Type 0
IsShownRoute r = IsType r.type × IsWord r.device

abbrev pub route_text : KernelRoute → Str
route_text r = words_text (route_words r.type r.device)

abbrev pub route_lines : Str → List KernelRoute → List Str
route_lines table [] = []
route_lines table (r ∷ rs) =
    let rest = route_lines table rs in if str_eq r.table table then route_text r ∷ rest else rest
