-- ===== src/Collectors/Lifecycle/Backoff.antt =====
-- app/collectors/base.py, `_ws_loop`: the waits before a new connection, against the rule that the wait
-- doubles with each failure in a row.
use funding_radar.Base.{ℕ, zero, suc, ◌*◌, ◌≤◌, min, ◌≡◌, refl, true, false, List, [], ◌∷◌, arith}
use funding_radar.Collectors.Lifecycle.{Outcome, returned, raised, ws_loop}

-- A wait doubled as often as said.
abbrev pub doubled : ℕ → ℕ → ℕ
doubled zero wait = wait
doubled (suc n) wait = doubled n wait * 2

-- The waits by rule, after so many failures in a row.
abbrev pub backoff : ℕ → ℕ → ℕ → List Outcome → List ℕ
backoff delay_min delay_max failures [] = []
backoff delay_min delay_max failures (returned ∷ outcomes) = backoff delay_min delay_max 0 outcomes
backoff delay_min delay_max failures (raised true ∷ outcomes) =
    min (doubled failures delay_min) delay_max ∷ backoff delay_min delay_max (suc failures) outcomes
backoff delay_min delay_max failures (raised false ∷ outcomes) = []

ws_loop-backoff_from :
    (delay_min delay_max failures : ℕ) (outcomes : List Outcome)
    → delay_min ≤ delay_max
    → ws_loop delay_min delay_max (min (doubled failures delay_min) delay_max) outcomes
      ≡ backoff delay_min delay_max failures outcomes
unfolding ws_loop
ws_loop-backoff_from delay_min delay_max failures [] h = refl
ws_loop-backoff_from delay_min delay_max failures (returned ∷ outcomes) h =
    let first : min delay_min delay_max ≡ delay_min = omega arith in
    let ih = ws_loop-backoff_from delay_min delay_max 0 outcomes h in rw first at ih
ws_loop-backoff_from delay_min delay_max failures (raised true ∷ outcomes) h =
    let next : min (min (doubled failures delay_min) delay_max * 2) delay_max
        ≡ min (doubled (suc failures) delay_min) delay_max =
      omega arith in
    let ih = ws_loop-backoff_from delay_min delay_max (suc failures) outcomes h in
    rw (next, ih) refl
ws_loop-backoff_from delay_min delay_max failures (raised false ∷ outcomes) h = refl

-- The waits before a new connection are those of the rule that the wait is the least one,
-- doubled for each failure in a row since the last connection that ended well, but no longer
-- than the most, if the least wait is no longer than the most.
pub ws_loop-backoff :
    (delay_min delay_max : ℕ) (outcomes : List Outcome)
    → delay_min ≤ delay_max
    → ws_loop delay_min delay_max delay_min outcomes ≡ backoff delay_min delay_max 0 outcomes
ws_loop-backoff delay_min delay_max outcomes h =
    let first : min delay_min delay_max ≡ delay_min = omega arith in
    let rule = ws_loop-backoff_from delay_min delay_max 0 outcomes h in rw first at rule
