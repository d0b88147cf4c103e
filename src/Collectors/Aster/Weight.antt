-- ===== src/Collectors/Aster/Weight.antt =====
-- app/collectors/aster.py: the weight that the exchange counts against the limit of a minute.
use funding_radar.Base.{ℕ, ◌+◌, ◌-◌, ◌*◌, Option, none, some, if◌then◌else◌, leb}
use funding_radar.Snapshot.{ticks_per_second}

-- The least whole number that is 0.80 of the limit of 1200.
abbrev pub threshold : ℕ
threshold = 960

pub record Weight : Type 0 where
  pub current : ℕ
  pub window_start : ℕ

-- The header of an answer; one that is no number is passed over.
unfoldable pub note_weight : Option ℕ → Weight → Weight
note_weight none w = w
note_weight (some used) w = record w { current = used }

-- `_mbx_weight_check`, entered at `now`; `woken` is the time after the sleep, if it sleeps. With the
-- state it returns for how long it slept.
unfoldable pub weight_check : ℕ → ℕ → Weight → Weight × ℕ
weight_check now woken w =
    if leb (60 * ticks_per_second) (now - w.window_start)
    then (record { current = 0; window_start = now }, 0)
    else if leb threshold w.current
    then (
      record { current = 0; window_start = woken },
      60 * ticks_per_second - (now - w.window_start) + 500_000_000,
    )
    else (w, 0)
