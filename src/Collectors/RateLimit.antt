-- ===== src/Collectors/RateLimit.antt =====
-- app/collectors/base.py: `_rate_limit`, the sliding window before each request to an exchange. A call
-- enters, sleeps, and then notes the time; other calls may run in between.
pub mod Pacing
use funding_radar.Base.{
  ℕ, ◌+◌, ◌-◌, ◌*◌, Bool, true, false, Option, none, some, List, [], ◌∷◌, ◌++◌, if◌then◌else◌, ltb,
  leb, length, keep,
}
use funding_radar.Snapshot.{ticks_per_second}

abbrev pub window : ℕ
window = 60 * ticks_per_second

-- The 0.05 s on top.
abbrev pub margin : ℕ
margin = 50_000_000

abbrev pub recent : ℕ → List ℕ → List ℕ
recent now times = keep (λ t. ltb (now - t) window) times

-- What a call finds: the times it keeps, and when its sleep is over. Where the limit is 0 and nothing is
-- kept, `self._request_times[0]` raises IndexError.
unfoldable pub wake : ℕ → ℕ → List ℕ → Option ℕ
wake limit now [] = if leb limit 0 then none else some now
wake limit now (t ∷ rest) =
    if leb limit (length (t ∷ rest)) then some (now + (window - (now - t) + margin)) else some now

-- A call of `_rate_limit` that enters at a time and is run again some time after its sleep is over: the
-- request times then, and the last of them.
unfoldable pub rate_limit : ℕ → ℕ → ℕ → List ℕ → Option (List ℕ × ℕ)
rate_limit limit now delay times = elim (wake limit now (recent now times)) [
  | none ↦ none
  | some woken ↦ some (recent now times ++ (woken + delay) ∷ [], woken + delay)
]
