-- ===== src/Examples/Routes.antt =====
-- internal/proxyroute/proxyroute.go and internal/tproxy/tproxy.go on concrete values.
use zakop.Prelude.{ℕ, ◌≡◌, ◌⊎◌, refl, length, true, false, [], ◌∷◌, none, some}
use zakop.Prelude.Int.{pos}
use zakop.Text.{
  Str, join, codes, str_eq, trim_space, trim_left, trim_right, is_space, split, cut, fields,
  fields_func,
}
use zakop.Text.Number.{itoa, digits_onto, parse_uint32, number}
use zakop.Config.Types.{Config}
use zakop.Config.Access.{proxy_target_tags}
use zakop.Config.Parse.{defaults}
use zakop.ProxyRoute.{Target, targets, find}
use zakop.ProxyRoute.Find.{FirstAt, IsTarget, find-targets}
use zakop.TProxy.{
  TproxyConfig, table_string, rule_present, rule_line, scan_pairs, route_present, route_line,
}
use zakop.TProxy.Kernel.{Kernel, local_route, shown_lines, rule_lines}
use zakop.TProxy.Plan.{ensured, cleaned}

abbrev cfg : Config
cfg = record defaults {
  outbound_pools =
      record {
        tag = codes "fast";
        label = [];
        outbounds = [];
        check_url = [];
        check_interval = pos 60;
      }
      ∷ [];
}

find-targets_example :
    ((find (targets cfg) (codes " fast ") ≡ none)
      × (¬ ((k : ℕ) × FirstAt (trim_space (codes " fast ")) 0 (proxy_target_tags cfg) k)))
    ⊎ ((k : ℕ) × FirstAt (trim_space (codes " fast ")) 0 (proxy_target_tags cfg) k
        × (t : Target) × (find (targets cfg) (codes " fast ") ≡ some t)
        × IsTarget cfg k (trim_space (codes " fast ")) t)
find-targets_example = find-targets cfg (codes " fast ")

abbrev marked : TproxyConfig
marked = record { mark = codes "0x101"; table = pos 101 }

rule_runs :
    (rule_present (codes "32765:\tfrom all fwmark 0x101 lookup 101") marked ≡ true)
    × (rule_present (codes "32765:\tfrom all fwmark 0x101/0xff lookup 101") marked ≡ false)
    × (route_present (codes "local default dev lo scope host") ≡ true)
unfolding rule_present rule_line scan_pairs route_present route_line split cut trim_space trim_left
    trim_right is_space fields fields_func str_eq parse_uint32 number itoa
rule_runs = (refl, refl, refl)

-- A kernel with the rule of another mark, the route of the table, and a default route of another.
abbrev kernel : Kernel
kernel = record {
  rules =
      record { preference = 0; mark = none; table = codes "255" }
      ∷ record { preference = 32764; mark = some 0x102; table = codes "102" }
      ∷ [];
  routes =
      local_route (codes "101")
      ∷ record { table = codes "254"; type = none; device = codes "eth0" }
      ∷ [];
}

abbrev hexadecimal : ℕ → Str
hexadecimal n = codes "0x102"

rules_shown :
    shown_lines (rule_lines hexadecimal kernel.rules)
    ≡ codes "0:\tfrom all lookup 255\n32764:\tfrom all fwmark 0x102 lookup 102\n"
unfolding itoa digits_onto join
rules_shown = refl

-- What is left: the new rule in front and the route as it was, or the rules as they were and the
-- route of the other table.
ends :
    (length (ensured 32763 0x101 (table_string marked) kernel).rules ≡ 3)
    × (length (ensured 32763 0x101 (table_string marked) kernel).routes ≡ 2)
    × (length (cleaned 0x101 (table_string marked) kernel).rules ≡ 2)
    × (length (cleaned 0x101 (table_string marked) kernel).routes ≡ 1)
unfolding itoa digits_onto str_eq
ends = (refl, refl, refl, refl)
