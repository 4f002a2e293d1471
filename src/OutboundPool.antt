-- ===== src/OutboundPool.antt =====
-- internal/outboundpool/manager.go: the health checks of a pool and the rounds of its loop. The
-- controller of sing-box is a parameter: its three calls on a state of their own.
pub mod Check
pub mod Backoff
use zakop.Prelude.{
  ℕ, ◌*◌, Bool, true, false, not, List, [], ◌∷◌, ◌++◌, Option, none, some, ltb, if◌then◌else◌,
}
use zakop.Prelude.Int.{ℤ, pos}
use zakop.Text.{Str, str_eq}
use zakop.Dict.{lookup, put}
use zakop.Config.Types.{OutboundPool}

-- `API`: whether the probe of an outbound by an address passes, the selection of a pool, where `none`
-- is an error, and whether a selection is made.
pub record Api (σ : Type 0) : Type 0 where
  pub delay : Str → Str → σ → Bool × σ
  pub selected : Str → σ → Option Str × σ
  pub select : Str → Str → σ → Bool × σ

-- The result of `Check`: the outbound, or one of its errors.
pub data CheckResult : Type 0 where
  healthy : Str → CheckResult
  read_failed : CheckResult
  select_failed : Str → CheckResult
  none_healthy : List Str → CheckResult

module _ {σ : Type 0} (api : Api σ) where
  abbrev after_select : Str → Bool × σ → CheckResult × σ
  after_select outbound (true, s) = (healthy outbound, s)
  after_select outbound (false, s) = (select_failed outbound, s)

  abbrev after_selected : Str → Str → Option Str × σ → CheckResult × σ
  after_selected tag outbound (none, s) = (read_failed, s)
  after_selected tag outbound (some current, s) =
      if not (str_eq current outbound)
      then after_select outbound (api.select tag outbound s)
      else (healthy outbound, s)

  -- The loop of `Check`, with the outbounds that failed so far.
  unfoldable pub check_from : Str → Str → List Str → List Str → σ → CheckResult × σ
  check_from tag url [] failures s = (none_healthy failures, s)
  check_from tag url (outbound ∷ outbounds) failures s =
      let probe = api.delay outbound url s in
      let rest = check_from tag url outbounds (failures ++ (outbound ∷ [])) probe.1 in
      if not probe.0 then rest else after_selected tag outbound (api.selected tag probe.1)

  -- `Check`.
  unfoldable pub check : OutboundPool → σ → CheckResult × σ
  check pool s = check_from pool.tag pool.check_url pool.outbounds [] s

-- What the loop logs.
pub data Event : Type 0 where
  failing : CheckResult → Event
  recovered : Event
  selected : Str → Event

-- The variables of `runPool`, in seconds, the entry of the pool in `active` and the log.
pub record PoolRun : Type 0 where
  pub retry : ℕ
  pub failed : Bool
  pub active : Option Str
  pub log : List Event

abbrev pub run_start : PoolRun
run_start = record { retry = 1; failed = false; active = none; log = [] }

abbrev active_text : Option Str → Str
active_text none = []
active_text (some s) = s

-- `noteSelection`.
unfoldable pub note_selection : Str → PoolRun → PoolRun
note_selection outbound r =
    if not (str_eq (active_text r.active) outbound)
    then record r { active = some outbound; log = r.log ++ (selected outbound ∷ []) }
    else record r { active = some outbound }

abbrev on_success : Str → PoolRun → PoolRun
on_success outbound r =
    let logged = if r.failed then r.log ++ (recovered ∷ []) else r.log in
    note_selection outbound (record r { failed = false; retry = 1; log = logged })

abbrev on_error : CheckResult → PoolRun → PoolRun
on_error e r = record r {
  failed = true;
  retry = if ltb 10 (r.retry * 2) then 10 else r.retry * 2;
  log = if r.failed then r.log else r.log ++ (failing e ∷ []);
}

-- One round of `runPool` behind `Check`: the delay before the next one, and the variables.
unfoldable pub run_round : ℤ → CheckResult → PoolRun → ℤ × PoolRun
run_round interval (healthy outbound) r = (interval, on_success outbound r)
run_round interval e r = (pos r.retry, on_error e r)

-- Rounds with these results.
unfoldable pub run_rounds : ℤ → List CheckResult → PoolRun → PoolRun
run_rounds interval [] r = r
run_rounds interval (e ∷ es) r = run_rounds interval es (run_round interval e r).1
