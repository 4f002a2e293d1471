-- ===== src/Examples/Config.antt =====
-- internal/config/config.go on concrete values.
use zakop.Prelude.{◌≡◌, refl, List, [], ◌∷◌, none, some}
use zakop.Prelude.Int.{ℤ, pos}
use zakop.Text.{Str, codes, str_eq, trim_space, trim_left, trim_right, is_space, split}
use zakop.Text.Number.{atoi, number}
use zakop.Dict.{contains_text}
use zakop.Config.Uci.{Section}
use zakop.Config.Lists.{clean_list, clean_from, parse_rule_port_range, parse_rule_port}
use zakop.Config.Dns.{dns_upstream}
use zakop.Config.Complete.{IsComplete, dns_upstream-IsComplete}
use zakop.Config.Parse.{config_of, defaults, add_sections, assign_first_custom_outbound}
use zakop.Config.Priority.{Rising, with_priority, config_of-Rising}

abbrev values : List Str
values = codes " b" ∷ codes "" ∷ codes "a" ∷ codes "b " ∷ []

values-clean : clean_list values ≡ codes "b" ∷ codes "a" ∷ []
unfolding clean_list clean_from contains_text trim_space trim_left trim_right is_space str_eq
values-clean = refl

ports :
    (parse_rule_port_range (codes "80 - 443") ≡ some (pos 80, pos 443))
    × (parse_rule_port_range (codes "443-80") ≡ none)
    × (parse_rule_port_range (codes "0") ≡ none)
unfolding parse_rule_port_range parse_rule_port trim_space trim_left trim_right is_space split atoi
    number
ports = (refl, refl, refl)

dns_upstream-IsComplete_example : IsComplete (dns_upstream defaults.main)
dns_upstream-IsComplete_example = dns_upstream-IsComplete defaults.main

abbrev two_rules : List Section
two_rules =
    record { type = codes "rule"; name = codes "late"; options = []; lists = [] }
    ∷ record {
      type = codes "rule";
      name = codes "early";
      options = (codes "priority", codes "5") ∷ [];
      lists = [];
    }
    ∷ []

config_of-Rising_example :
    Rising (config_of two_rules).rules
    × ((n : ℤ)
        → with_priority n (config_of two_rules).rules
          ≡ with_priority n (assign_first_custom_outbound (add_sections defaults two_rules)).rules)
config_of-Rising_example = config_of-Rising two_rules
