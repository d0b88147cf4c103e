-- ===== src/Collectors/Lifecycle.antt =====
-- app/collectors/base.py: starting and stopping a collector, its poll loop, and the reconnecting loop of
-- its socket.
pub mod Backoff
use funding_radar.Base.{
  ℕ, zero, suc, ◌+◌, ◌-◌, ◌*◌, ◌/◌, min, String, ◌≡◌, refl, Bool, true, false, not, Option, none,
  some, List, [], ◌∷◌, ◌++◌, Result, ok, raise, if◌then◌else◌, length, All, arith, ◌&&◌, by_text,
  by_parts, inl, inr, Bool-cases,
}
use funding_radar.Base.Float.{Floats}
use funding_radar.Redis.{Keys, set_ex}
use funding_radar.Snapshot.{ticks_per_second}
use funding_radar.Collectors.Contract.{NormalizedFundingData}
use funding_radar.Collectors.Figures.{CollectorConfig}

pub data Kind : Type 0 where
  rest_poll websocket history : Kind

-- A task of the event loop, and whether it is done.
pub record Task : Type 0 where
  pub kind : Kind
  pub done : Bool

pub record Lifecycle : Type 0 where
  pub running : Bool
  pub tasks : List Task
  pub session_open : Bool

abbrev pub idle : Lifecycle
idle = record { running = false; tasks = []; session_open = false }

abbrev pub launched : List Task
launched =
    record { kind = rest_poll; done = false }
    ∷ record { kind = websocket; done = false }
    ∷ record { kind = history; done = false }
    ∷ []

unfoldable pub start : Lifecycle → Lifecycle
start c =
    if c.running
    then c
    else record { running = true; tasks = c.tasks ++ launched; session_open = true }

unfoldable pub stop : Lifecycle → Lifecycle
stop c = if c.running then idle else c

-- `_ws_loop`: the outcomes of `_run_ws` in turn, whether the collector still runs when it raised, and
-- how long the loop sleeps before it connects again.
pub data Outcome : Type 0 where
  returned : Outcome
  raised : Bool → Outcome

unfoldable pub ws_loop : ℕ → ℕ → ℕ → List Outcome → List ℕ
ws_loop delay_min delay_max delay [] = []
ws_loop delay_min delay_max delay (returned ∷ outcomes) =
    ws_loop delay_min delay_max delay_min outcomes
ws_loop delay_min delay_max delay (raised still ∷ outcomes) =
    let more = ws_loop delay_min delay_max (min (delay * 2) delay_max) outcomes in
    if still then delay ∷ more else []

module _ (F : Floats) where
  -- What is on Redis: the messages of funding:updates, newest last, and the cache
  -- funding:latest:{exchange}:{token}.
  pub record Published : Type 0 where
    pub updates : List (NormalizedFundingData F)
    pub latest : Keys (String × String) (NormalizedFundingData F)

  -- `int(self._config.rest_poll_interval * 3)` seconds
  abbrev pub latest_ttl : CollectorConfig F → ℕ
  latest_ttl config = config.rest_poll_interval * 3 / ticks_per_second * ticks_per_second

  -- `_publish_batch`, where Redis takes the pipeline; else it is only logged.
  unfoldable pub publish_batch :
      CollectorConfig F → ℕ → List (NormalizedFundingData F) → Published → Published
  publish_batch config now [] p = p
  publish_batch config now (d ∷ ds) p = publish_batch config now ds (record {
    updates = p.updates ++ d ∷ [];
    latest = set_ex now (d.exchange, d.token) d (latest_ttl config) p.latest;
  })

  -- One round of `_poll_loop` with what `_poll_rest` returned: what is published, and how long it sleeps.
  unfoldable pub poll_round :
      CollectorConfig F
      → ℕ
      → ℕ
      → Result (List (NormalizedFundingData F))
      → Published
      → Published × ℕ
  poll_round config started ended (raise e) p = (p, config.rest_poll_interval - (ended - started))
  poll_round config started ended (ok items) p =
      (publish_batch config ended items p, config.rest_poll_interval - (ended - started))
