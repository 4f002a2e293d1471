-- ===== src/OutboundPool/Backoff.antt =====
-- How long the loop of a pool waits.
use zakop.Prelude.{
  ℕ, suc, ◌+◌, ◌*◌, ◌^◌, ◌≡◌, ◌⊎◌, inl, inr, refl, ap, ◌∙◌, List, [], ◌∷◌, arith, ltb,
  if◌then◌else◌, length,
}
use zakop.Prelude.Int.{ℤ, pos}
use zakop.Text.{Str}
use zakop.OutboundPool.{
  CheckResult, healthy, read_failed, select_failed, none_healthy, PoolRun, run_start,
  note_selection, run_round, run_rounds,
}

abbrev pub IsError : CheckResult → Type 0
IsError (healthy o) = ⊥
IsError read_failed = Unit
IsError (select_failed o) = Unit
IsError (none_healthy os) = Unit

abbrev pub AreErrors : List CheckResult → Type 0
AreErrors [] = Unit
AreErrors (e ∷ es) = IsError e × AreErrors es

abbrev next_retry : ℕ → ℕ
next_retry n = if ltb 10 (n * 2) then 10 else n * 2

error-round :
    (interval : ℤ) (e : CheckResult) (r : PoolRun)
    → IsError e
    → ((run_round interval e r).0 ≡ pos r.retry)
      × ((run_round interval e r).1.retry ≡ next_retry r.retry)
unfolding run_round
error-round interval (healthy o) r v = absurd v
error-round interval read_failed r v = (refl, refl)
error-round interval (select_failed o) r v = (refl, refl)
error-round interval (none_healthy os) r v = (refl, refl)

success-retry :
    (interval : ℤ) (o : Str) (r : PoolRun) → (run_round interval (healthy o) r).1.retry ≡ 1
unfolding run_round note_selection
success-retry interval o r = ground arith

-- At most ten seconds.
abbrev pub capped : ℕ → ℕ
capped n = if ltb 10 n then 10 else n

next_retry-capped : (n : ℕ) → next_retry (capped n) ≡ capped (2 * n)
next_retry-capped n = ground arith

error-rounds :
    (interval : ℤ) (es : List CheckResult) (k : ℕ) (r : PoolRun)
    → AreErrors es
    → r.retry ≡ capped (2 ^ k)
    → (run_rounds interval es r).retry ≡ capped (2 ^ (k + length es))
unfolding run_rounds
error-rounds interval [] k r v e = e ∙ ap (λ n. capped (2 ^ n)) (omega arith)
error-rounds interval (x ∷ es) k r v e =
    let one = (error-round interval x r v.0).1 in
    let double : 2 * 2 ^ k ≡ 2 ^ suc k = omega arith in
    error-rounds interval es (suc k) (run_round interval x r).1 v.1
      (one ∙ ap next_retry e ∙ next_retry-capped (2 ^ k) ∙ ap capped double)
    ∙ ap (λ n. capped (2 ^ n)) (omega arith)

-- The loop has just started, or its last check has passed.
abbrev pub Fresh : ℤ → PoolRun → Type 0
Fresh interval r =
    (r ≡ run_start) ⊎ ((o : Str) × (q : PoolRun) × (r ≡ (run_round interval (healthy o) q).1))

-- After a start or a check that passed, the wait behind the check that fails after n others that
-- failed is 2 ^ n seconds, and at most ten.
pub run_round_backoff :
    (interval : ℤ) (r : PoolRun) (es : List CheckResult) (e : CheckResult)
    → Fresh interval r
    → AreErrors es
    → IsError e
    → (run_round interval e (run_rounds interval es r)).0 ≡ pos (capped (2 ^ length es))
run_round_backoff interval r es e fresh errors error =
    let one : r.retry ≡ capped (2 ^ 0) = elim fresh [
      | inl begun ↦ ap (λ (x : PoolRun). x.retry) begun
      | inr (o, q, passed) ↦ ap (λ (x : PoolRun). x.retry) passed ∙ success-retry interval o q
    ] in
    let same : 0 + length es ≡ length es = omega arith in
    (error-round interval e (run_rounds interval es r) error).0
    ∙ ap (λ n. pos n) (error-rounds interval es 0 r errors one)
    ∙ ap (λ n. pos (capped (2 ^ n))) same
