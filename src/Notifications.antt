-- ===== src/Notifications.antt =====
-- app/services/notification_service.py with NotificationRule of app/models/db/user.py: which rules are
-- matched by the opportunities of the moment, and which alerts are sent. What is read from
-- "arbitrage:current" is what the arbitrage calculator wrote there. The alerts of a pass, which are
-- gathered, are run one after the other, all at the pass's time.
pub mod Matching
pub mod Throttling
pub mod Spacing
pub mod Rules
use funding_radar.Base.{
  ℕ, ◌+◌, ◌*◌, String, Bool, true, false, not, Option, none, some, List, [], ◌∷◌, ◌++◌,
  if◌then◌else◌, ◌==◌, ◌&&◌, ltb, by_text, by_value, by_parts, map, keep,
}
use funding_radar.Base.Dict.{Dict, lookup, insert}
use funding_radar.Base.Text.{lower}
use funding_radar.Base.Float.{Floats, lt}
use funding_radar.Redis.{Keys, get, set_nx, set_ex, delete}
use funding_radar.Snapshot.{ticks_per_second}
use funding_radar.Arbitrage.{ArbitrageResult}
use funding_radar.Accounts.{User, Users, is_pro}

abbrev pub throttle_ttl : ℕ
throttle_ttl = 1800 * ticks_per_second

abbrev pub rule_cache_ttl : ℕ
rule_cache_ttl = 300 * ticks_per_second

-- What becomes of an alert once it may be sent: the sender's True or False, or an exception from the
-- look-up of the windows, which `gather` swallows.
pub data Attempt : Type 0 where
  sent failed raised : Attempt

-- The keys notif:throttle:{user_id}:{token}, which hold "1".
abbrev pub Throttle : Type 0
Throttle = Keys (ℕ × String) String

-- An alert that was sent.
pub record Delivery : Type 0 where
  pub at : ℕ
  pub user_id : ℕ
  pub token : String

module _ (F : Floats) where
  open F use {Num}

  pub record NotificationRule : Type 0 where
    pub id : ℕ
    pub user_id : ℕ
    pub token_symbol : String
    pub min_apr : Num
    pub exchanges : List String
    pub is_active : Bool

  -- A rule as the service keeps it.
  pub record Rule : Type 0 where
    pub rule_id : ℕ
    pub user_id : ℕ
    pub token : String
    pub min_apr : Num
    pub exchanges : List String
    pub chat_id : String

  abbrev pub row : NotificationRule → String → Rule
  row r chat = record {
    rule_id = r.id;
    user_id = r.user_id;
    token = r.token_symbol;
    min_apr = r.min_apr;
    exchanges = r.exchanges;
    chat_id = chat;
  }

  -- The row that a rule makes with a user, if any.
  unfoldable pub joined : NotificationRule → ℕ × User → List Rule
  joined r (i, u) = elim u.telegram_chat_id [
    | none ↦ []
    | some chat ↦
        if (r.user_id == i) && r.is_active && u.is_active && is_pro u.tier
        then row r chat ∷ []
        else []
  ]

  unfoldable pub with_users : NotificationRule → Users → List Rule
  with_users r [] = []
  with_users r (e ∷ rest) = joined r e ++ with_users r rest

  unfoldable pub load_rules_from_db : List NotificationRule → Users → List Rule
  load_rules_from_db [] users = []
  load_rules_from_db (r ∷ rest) users = with_users r users ++ load_rules_from_db rest users

  -- "notif:rules_cache" in Redis: the rules and the time they expire.
  abbrev pub RulesCache : Type 0
  RulesCache = Option (List Rule × ℕ)

  abbrev pub live : ℕ → RulesCache → Option (List Rule)
  live now none = none
  live now (some (rules, expiry)) = if ltb now expiry then some rules else none

  abbrev pub cache_rules : ℕ → List Rule → RulesCache → RulesCache
  cache_rules now [] cache = cache
  cache_rules now (r ∷ rest) cache = some (r ∷ rest, now + rule_cache_ttl)

  unfoldable pub get_rules_cached :
      ℕ → List NotificationRule → Users → RulesCache → RulesCache × List Rule
  unfolding load_rules_from_db
  get_rules_cached now table users cache = elim (live now cache) [
    | some rules ↦ (cache, rules)
    | none ↦ let rules = load_rules_from_db table users in (cache_rules now rules cache, rules)
  ]

  unfoldable pub index_opps :
      List (ArbitrageResult F) → Dict String (ArbitrageResult F) → Dict String (ArbitrageResult F)
  index_opps [] d = d
  index_opps (o ∷ rest) d = index_opps rest (insert o.token o d)

  abbrev pub opp_by_token : List (ArbitrageResult F) → Dict String (ArbitrageResult F)
  opp_by_token opportunities = index_opps opportunities []

  -- `involved.intersection({e.lower() for e in rule["exchanges"]})` is not empty.
  abbrev pub involves : ArbitrageResult F → List String → Bool
  involves o [] = false
  involves o (e ∷ rest) =
      if o.long_leg.exchange == lower e
      then true
      else if o.short_leg.exchange == lower e
      then true
      else involves o rest

  abbrev pub passes_filter : ArbitrageResult F → List String → Bool
  passes_filter o [] = true
  passes_filter o (e ∷ rest) = involves o (e ∷ rest)

  abbrev pub wants : Rule → ArbitrageResult F → Bool
  wants r o = not (lt F o.net_apr_taker r.min_apr) && passes_filter o r.exchanges

  -- The rules for which `_process_rules` makes a task, with the opportunity.
  unfoldable pub tasks :
      List Rule → Dict String (ArbitrageResult F) → List (Rule × ArbitrageResult F)
  tasks [] opps = []
  tasks (r ∷ rest) opps = elim (lookup r.token opps) [
    | none ↦ tasks rest opps
    | some o ↦ if wants r o then (r, o) ∷ tasks rest opps else tasks rest opps
  ]

  abbrev pub delivery : ℕ → Rule → Delivery
  delivery now r = record { at = now; user_id = r.user_id; token = r.token }

  -- `_maybe_alert` after the SET, which gave the keys and whether this one was set.
  unfoldable pub send_alert : ℕ → Rule → Attempt → Throttle × Bool → Throttle × List Delivery
  send_alert now r attempt (taken, false) = (taken, [])
  send_alert now r sent (taken, true) = (taken, delivery now r ∷ [])
  send_alert now r failed (taken, true) = (delete (r.user_id, r.token) taken, [])
  send_alert now r raised (taken, true) = (taken, [])

  -- `_maybe_alert`, and the alert that was sent, if any.
  unfoldable pub maybe_alert : ℕ → Rule → Attempt → Throttle → Throttle × List Delivery
  maybe_alert now r attempt throttle =
      send_alert now r attempt (set_nx now (r.user_id, r.token) "1" throttle_ttl throttle)

  unfoldable pub alert_all :
      ℕ
      → (Rule → ArbitrageResult F → Attempt)
      → List (Rule × ArbitrageResult F)
      → Throttle
      → Throttle × List Delivery
  alert_all now attempt [] throttle = (throttle, [])
  alert_all now attempt ((r, o) ∷ rest) throttle =
      let (throttle', made) = maybe_alert now r (attempt r o) throttle in
      let (throttle'', more) = alert_all now attempt rest throttle' in (throttle'', made ++ more)

  unfoldable pub process_rules :
      ℕ
      → (Rule → ArbitrageResult F → Attempt)
      → List Rule
      → List (ArbitrageResult F)
      → Throttle
      → Throttle × List Delivery
  unfolding alert_all
  process_rules now attempt rules opportunities throttle =
      alert_all now attempt (tasks rules (opp_by_token opportunities)) throttle

  pub record Service : Type 0 where
    pub rules_cache : RulesCache
    pub throttle : Throttle

  unfoldable pub check_and_notify :
      ℕ
      → (Rule → ArbitrageResult F → Attempt)
      → List NotificationRule
      → Users
      → List (ArbitrageResult F)
      → Service
      → Service × List Delivery
  unfolding process_rules
  check_and_notify now attempt table users [] s = (s, [])
  check_and_notify now attempt table users (o ∷ os) s =
      let (cache, rules) = get_rules_cached now table users s.rules_cache in
      let (throttle, made) = process_rules now attempt rules (o ∷ os) s.throttle in
      (record { rules_cache = cache; throttle = throttle }, made)

  unfoldable pub invalidate_rules_cache : Service → Service
  invalidate_rules_cache s = record s { rules_cache = none }
