-- ===== src/Tests/Alerts.antt =====
-- One rule on one opportunity, and the bot's commands, on integers for floats.
use funding_radar.Base.{
  ℕ, String, ◌≡◌, ◌⊎◌, ◌↔◌, refl, sym, true, false, Option, none, some, List, [], ◌∷◌, arith, inl,
  inr, Among,
}
use funding_radar.Base.Int.{ℤ, pos}
use funding_radar.Base.Float.{integers, lt}
use funding_radar.Arbitrage.{ArbitrageLeg, ArbitrageResult, long}
use funding_radar.Accounts.{User, Users, pro}
use funding_radar.Notifications.{
  NotificationRule, Rule, Service, sent, tasks, opp_by_token, load_rules_from_db,
}
use funding_radar.Notifications.Rules.{IsLoaded, load_rules_from_db_lem}
use funding_radar.Notifications.Matching.{last_for, Involves, tasks_lem}
use funding_radar.Notifications.Throttling.{IsSpaced}
use funding_radar.Notifications.Spacing.{Pass, deliveries, deliveries-IsSpaced}
use funding_radar.Bot.{State, cmd_removealert, is_own, is_linked}
use funding_radar.Bot.Limit.{Command, setalert, perform_all, IsLimited, perform_all-IsLimited}
use funding_radar.Bot.Ownership.{cmd_removealert-Among}

abbrev carl : User
carl = record {
  email = "carl@example.org";
  hashed_password = none;
  telegram_chat_id = some "77";
  tier = pro;
  api_key = "key1";
  stripe_customer_id = none;
  is_active = true;
}

abbrev subscribers : Users
subscribers = (1, carl) ∷ []

abbrev on_btc : NotificationRule integers
on_btc = record {
  id = 1;
  user_id = 1;
  token_symbol = "BTC";
  min_apr = pos 20;
  exchanges = [];
  is_active = true;
}

abbrev loaded : Rule integers
loaded = record {
  rule_id = 1;
  user_id = 1;
  token = "BTC";
  min_apr = pos 20;
  exchanges = [];
  chat_id = "77";
}

abbrev leg : String → ArbitrageLeg integers
leg exchange = record {
  exchange = exchange;
  token = "BTC";
  side = long;
  funding_rate = pos 1;
  funding_rate_8h = pos 1;
  funding_apr = pos 1;
  mark_price = pos 100;
  index_price = pos 100;
  open_interest_usd = pos 1000;
  maker_fee = pos 0;
  taker_fee = pos 0;
  is_stale = false;
}

abbrev wide : ArbitrageResult integers
wide = record {
  token = "BTC";
  long_leg = leg "aster";
  short_leg = leg "hyperliquid";
  funding_delta_apr = pos 30;
  price_spread_pct = pos 0;
  net_apr_maker = pos 30;
  net_apr_taker = pos 30;
  entry_fee_pct_taker = pos 0;
  breakeven_hours_taker = none;
  detected_at = 0;
}

abbrev idle : Service integers
idle = record { rules_cache = none; throttle = [] }

abbrev pass : ℕ → Pass integers
pass now = record {
  now = now;
  attempt = λ r o. sent;
  table = on_btc ∷ [];
  users = subscribers;
  opportunities = wide ∷ [];
}

deliveries-IsSpaced_example :
    IsSpaced (deliveries integers (pass 1 ∷ pass 30_000_000_001 ∷ []) idle)
deliveries-IsSpaced_example =
    deliveries-IsSpaced integers 0 (pass 1 ∷ pass 30_000_000_001 ∷ []) idle
      (omega arith, (omega arith, tt))

load_rules_from_db_lem_example :
    Among loaded (load_rules_from_db integers (on_btc ∷ []) subscribers) ↔ (
      (n : NotificationRule integers) × (i : ℕ) × (u : User) × Among n (on_btc ∷ [])
      × Among (i, u) subscribers
      × IsLoaded integers n i u loaded)
load_rules_from_db_lem_example = load_rules_from_db_lem integers (on_btc ∷ []) subscribers loaded

tasks_lem_example :
    Among (loaded, wide) (tasks integers (loaded ∷ []) (opp_by_token integers (wide ∷ []))) ↔ (
      Among loaded (loaded ∷ [])
      × (last_for integers "BTC" (wide ∷ []) ≡ some wide)
      × (lt integers (pos 30) (pos 20) ≡ false)
      × ((◌≡◌ {A = List String} [] []) ⊎ Involves integers wide []))
tasks_lem_example = tasks_lem integers (loaded ∷ []) (wide ∷ []) loaded wide

abbrev bot : State integers
bot = record { users = subscribers; rules = on_btc ∷ []; next_id = 2; service = idle }

abbrev float : String → Option ℤ
float text = some (pos 20)

abbrev commands : List Command
commands = setalert "77" ("eth" ∷ "20" ∷ []) ∷ []

perform_all-IsLimited_example : IsLimited integers (perform_all integers float commands bot)
perform_all-IsLimited_example =
    perform_all-IsLimited integers float commands bot (λ user_id. ground arith)

not_own : is_own integers "88" subscribers on_btc ≡ false
unfolding is_linked
not_own = refl

cmd_removealert-Among_example : Among on_btc (cmd_removealert integers "88" ("#1" ∷ []) bot).0.rules
cmd_removealert-Among_example =
    cmd_removealert-Among integers "88" ("#1" ∷ []) bot on_btc (inl refl) only not_own
  where
    only : (q : NotificationRule integers) → Among q (on_btc ∷ []) → q.id ≡ 1 → q ≡ on_btc
    only q (inl h) e = sym h
    only q (inr h) e = elim h [ ]
