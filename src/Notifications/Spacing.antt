-- ===== src/Notifications/Spacing.antt =====
-- app/services/notification_service.py: the alerts of any number of passes.
use funding_radar.Base.{
  ℕ, ◌+◌, ◌≤◌, String, List, [], ◌∷◌, ◌++◌, arith, by_text, by_value, by_parts, List-cases, inl,
  inr, All-imp,
}
use funding_radar.Base.Float.{Floats}
use funding_radar.Arbitrage.{ArbitrageResult}
use funding_radar.Accounts.{Users}
use funding_radar.Notifications.{
  Attempt, Throttle, throttle_ttl, Delivery, NotificationRule, Rule, process_rules, tasks,
  opp_by_token, check_and_notify, Service, get_rules_cached,
}
use funding_radar.Notifications.Throttling.{
  After, IsSpaced, Blocked, Passed, After-append, IsSpaced-append, alert_all_lem,
}

module _ (F : Floats) where
  -- One call of `check_and_notify`, and what it meets.
  pub record Pass : Type 0 where
    pub now : ℕ
    pub attempt : Rule F → ArbitrageResult F → Attempt
    pub table : List (NotificationRule F)
    pub users : Users
    pub opportunities : List (ArbitrageResult F)

  unfoldable pub perform : Pass → Service F → Service F × List Delivery
  perform p s = check_and_notify F p.now p.attempt p.table p.users p.opportunities s

  -- The alerts that the passes send, in order.
  unfoldable pub deliveries : List Pass → Service F → List Delivery
  deliveries [] s = []
  deliveries (p ∷ ps) s = (perform p s).1 ++ deliveries ps (perform p s).0

  -- The clock does not run backwards.
  abbrev pub IsInOrder : ℕ → List Pass → Type 0
  IsInOrder clock [] = Unit
  IsInOrder clock (p ∷ ps) = (clock ≤ p.now) × IsInOrder p.now ps

  perform_lem :
      (p : Pass) (s : Service F)
      → Passed p.now s.throttle ((perform p s).0.throttle, (perform p s).1)
  unfolding perform check_and_notify process_rules
  perform_lem p s = elim (List-cases p.opportunities) [
    | inl q ↦ rw (q, check_and_notify) (tt, tt, λ u t at b. (tt, b))
    | inr (o, os, q) ↦
        rw (q, check_and_notify)
          (alert_all_lem F p.now p.attempt
            (tasks F (get_rules_cached F p.now p.table p.users s.rules_cache).1
              (opp_by_token F (o ∷ os)))
            s.throttle)
  ]

  later :
      (u : ℕ) (t : String) (at clock now : ℕ) (throttle : Throttle)
      → clock ≤ now
      → Blocked u t at clock throttle
      → Blocked u t at now throttle
  later u t at clock now throttle le (inl p) = inl (omega arith)
  later u t at clock now throttle le (inr h) = inr h

  deliveries-After :
      (clock : ℕ) (ps : List Pass) (s : Service F) (u : ℕ) (t : String) (at : ℕ)
      → IsInOrder clock ps
      → Blocked u t at clock s.throttle
      → After u t at (deliveries ps s)
  unfolding deliveries
  deliveries-After clock [] s u t at h b = tt
  deliveries-After clock (p ∷ ps) s u t at h b =
      let (spaced, held, keeps) = perform_lem p s in
      let (after, b') = keeps u t at (later u t at clock p.now s.throttle h.0 b) in
      After-append u t at (perform p s).1 (deliveries ps (perform p s).0) after
        (deliveries-After p.now ps (perform p s).0 u t at h.1 b')

  -- However often the service runs and whatever becomes of its messages, if the clock does not run
  -- backwards, two alerts on one token to one user are sent half an hour or more apart.
  pub deliveries-IsSpaced :
      (clock : ℕ) (ps : List Pass) (s : Service F) → IsInOrder clock ps → IsSpaced (deliveries ps s)
  unfolding deliveries
  deliveries-IsSpaced clock [] s h = tt
  deliveries-IsSpaced clock (p ∷ ps) s h =
      let (spaced, held, keeps) = perform_lem p s in
      let s' = (perform p s).0 in
      IsSpaced-append (perform p s).1 (deliveries ps s') spaced
        (deliveries-IsSpaced p.now ps s' h.1)
        (All-imp
          (λ (d : Delivery). Blocked d.user_id d.token (d.at + throttle_ttl) p.now s'.throttle)
          (λ (d : Delivery). After d.user_id d.token (d.at + throttle_ttl) (deliveries ps s'))
          (λ d b. deliveries-After p.now ps s' d.user_id d.token (d.at + throttle_ttl) h.1 b)
          (perform p s).1 held)
