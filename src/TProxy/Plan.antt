-- ===== src/TProxy/Plan.antt =====
-- What the plans of TProxy do to the kernel's rules and routes.
use zakop.Prelude.{ℕ, List, [], ◌∷◌, Option, none, some, if◌then◌else◌}
use zakop.Text.{Str, codes, str_eq}
use zakop.TProxy.{Command}
use zakop.TProxy.Kernel.{
  Kernel, is_rule, is_route, exists, without_first, rule_for, local_route, run_ip,
}

-- The commands one after the other, each by `ip`; an error ends them.
abbrev pub run_all : ℕ → List Command → Kernel → Option Kernel
run_all preference [] k = some k
run_all preference (c ∷ cs) k =
    if str_eq c.name (codes "ip")
    then elim (run_ip preference c.args k) [ none ↦ none | some t ↦ run_all preference cs t ]
    else none

-- The kernel with the rule and the route.
abbrev pub ensured : ℕ → ℕ → Str → Kernel → Kernel
ensured preference n table k = record {
  rules =
      if exists (is_rule n table) k.rules then k.rules else rule_for preference n table ∷ k.rules;
  routes = if exists (is_route table) k.routes then k.routes else local_route table ∷ k.routes;
}

-- The kernel without the first such rule and the first such route.
abbrev pub cleaned : ℕ → Str → Kernel → Kernel
cleaned n table k = record {
  rules =
      if exists (is_rule n table) k.rules then without_first (is_rule n table) k.rules else k.rules;
  routes =
      if exists (is_route table) k.routes
      then without_first (is_route table) k.routes
      else k.routes;
}
