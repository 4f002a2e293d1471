-- ===== src/Examples/OutboundPool.antt =====
-- internal/outboundpool/manager.go with a controller that has one pool.
use zakop.Prelude.{◌≡◌, ◌≢◌, ◌⊎◌, inl, refl, Bool, true, not, [], ◌∷◌, some, arith, if◌then◌else◌}
use zakop.Prelude.Int.{pos}
use zakop.Text.{Str, codes, str_eq}
use zakop.Text.Match.{str_eq_iff, str_eq_refl}
use zakop.Config.Types.{OutboundPool}
use zakop.OutboundPool.{
  Api, healthy, read_failed, none_healthy, run_start, run_round, run_rounds, check, check_from,
}
use zakop.OutboundPool.Check.{Controller, FirstHealthy, NoneHealthy, Selects, check_lem}
use zakop.OutboundPool.Backoff.{run_round_backoff}

-- The selections of all pools; only the outbound "down" fails its probe.
abbrev passes : Str → Bool
passes o = not (str_eq o (codes "down"))

abbrev chosen : Str → Str → (Str → Str) → Str → Str
chosen tag o s other = if str_eq other tag then o else s other

abbrev memory : Api (Str → Str)
memory = record {
  delay = λ o url s. (passes o, s);
  selected = λ tag s. (some (s tag), s);
  select = λ tag o s. (true, chosen tag o s);
}

memory-Controller : Controller memory
memory-Controller = record {
  health = passes;
  current = λ s tag. s tag;
  probes = λ o url s. refl;
  reads = λ tag s. refl;
  selects =
      λ tag o s. (chosen tag o s, refl, rw (str_eq_refl tag) refl, λ other d. kept tag o s other d);
}
  where
    kept :
        (tag o : Str) (s : Str → Str) (other : Str) → other ≢ tag → chosen tag o s other ≡ s other
    kept tag o s other d = ground (arith, str_eq_iff other tag)

abbrev pool : OutboundPool
pool = record {
  tag = codes "fast";
  label = [];
  outbounds = codes "down" ∷ codes "up" ∷ [];
  check_url = codes "http://x/";
  check_interval = pos 60;
}

abbrev first_state : Str → Str
first_state tag = codes "down"

pool-check : (check memory pool first_state).0 ≡ healthy (codes "up")
unfolding check check_from str_eq
pool-check = refl

check_lem_example :
    ((o : Str) × FirstHealthy memory-Controller.health o pool.outbounds
      × Selects memory memory-Controller pool.tag o first_state (check memory pool first_state))
    ⊎ (NoneHealthy memory-Controller.health pool.outbounds
        × (check memory pool first_state ≡ (none_healthy pool.outbounds, first_state)))
check_lem_example = check_lem memory memory-Controller pool first_state

run_round_backoff_example :
    (run_round
      (pos 60)
      read_failed
      (run_rounds (pos 60) (read_failed ∷ none_healthy [] ∷ []) run_start)).0
    ≡ pos 4
run_round_backoff_example =
    run_round_backoff (pos 60) run_start (read_failed ∷ none_healthy [] ∷ []) read_failed (inl refl)
      (tt, (tt, tt)) tt
