-- ===== src/Tests/Customers.antt =====
-- Two users, one of whom upgrades.
use funding_radar.Base.{
  ◌==◌, by_text, ℕ, String, ◌≡◌, ◌≢◌, ◌⊎◌, refl, Bool, true, false, Option, none, some, [], ◌∷◌,
  arith, by_value,
}
use text.Mathlib.TextEquality.{eq_iff}
use funding_radar.Base.Dict.{lookup}
use funding_radar.Base.Text.{int, lower, strip, drop}
use funding_radar.Redis.{get}
use funding_radar.Accounts.{
  free, pro, User, Users, Store, is_pro, scalar, has_key, tier_of_key, resolve_user_from_api_key,
  granted, denied, invalid_api_key, regenerate_api_key, Decoded, payload, get_current_user,
  require_pro, user_of_header, user_of_key, resolve_user_from_jwt, user_of_decoded,
}
use funding_radar.Accounts.Caching.{regenerate_api_key_lem}
use funding_radar.Accounts.Login.{register, login, bad_credentials, login-register}
use funding_radar.Accounts.Access.{IsRow, IsByToken, require_pro_lem}
use funding_radar.Payments.{
  Event, checkout_completed, truthy, handle_stripe_webhook, returned, upgrade_user, set_pro,
  is_taken,
}
use funding_radar.Payments.Events.{IsSameAccount, meant_tier, is_refused, handle_stripe_webhook_lem}
use funding_radar.Payments.Freshness.{upgrade_user_seen, upgrade_user_unseen}

abbrev ann : User
ann = record {
  email = "ann@example.org";
  hashed_password = some "h";
  telegram_chat_id = none;
  tier = free;
  api_key = "key1";
  stripe_customer_id = none;
  is_active = true;
}

abbrev bob : User
bob = record {
  email = "bob@example.org";
  hashed_password = some "h";
  telegram_chat_id = some "77";
  tier = pro;
  api_key = "key2";
  stripe_customer_id = some "cus_2";
  is_active = true;
}

abbrev people : Users
people = (1, ann) ∷ (2, bob) ∷ []

abbrev fresh : Store
fresh = record { users = people; tiers = []; user_api_keys = [] }

abbrev verify : String → String → String → Option Event
verify body signature secret = some (checkout_completed (some "1") (some "cus_1"))

abbrev decode : String → Decoded
decode token = payload (some "2")

int_120 : int "120" ≡ some 120
unfolding int
int_120 = refl

lower-btc : lower "BtC" ≡ "btc"
unfolding lower
lower-btc = refl

strip-key : strip (drop 7 "Bearer  t ") ≡ "t"
unfolding strip drop
strip-key = refl

not_refused : is_refused (checkout_completed (some "1") (some "cus_1")) fresh ≡ false
unfolding is_refused int is_taken scalar
not_refused = refl

handle_stripe_webhook_lem_example :
    let (s', result) = handle_stripe_webhook verify (some "secret") false 5 "body" "sig" fresh in
    (result ≡ returned "checkout.session.completed")
    × ((w : User) × (lookup 1 s'.users ≡ some w)
        × (w.tier ≡ meant_tier (checkout_completed (some "1") (some "cus_1")) 1 ann)
        × IsSameAccount ann w)
unfolding lookup
handle_stripe_webhook_lem_example =
    handle_stripe_webhook_lem verify "secret" false 5 "body" "sig" fresh
      (checkout_completed (some "1") (some "cus_1")) 1 ann refl not_refused refl

not_taken : is_taken 1 (truthy (some "cus_1")) people ≡ false
unfolding is_taken scalar
not_taken = refl

filled : ◌≢◌ {A = String} "key1" ""
filled h = let q : ◌≡◌ {A = Bool} false true = (eq_iff "key1" "").1 h in cc

first_other : ◌≢◌ {A = String} "key1" "key3"
first_other h = let q : ◌≡◌ {A = Bool} false true = (eq_iff "key1" "key3").1 h in cc

second_other : ◌≢◌ {A = String} "key2" "key3"
second_other h = let q : ◌≡◌ {A = Bool} false true = (eq_iff "key2" "key3").1 h in cc

only_ann : ◌≡◌ {A = String} "key2" "key1" → ◌≡◌ {A = ℕ} 2 1
only_ann h = let q : ◌≡◌ {A = Bool} false true = (eq_iff "key2" "key1").1 h in cc

upgrade_user_seen_example :
    (tier_of_key 9 "key1"
      (upgrade_user false 7 1 (some "cus_1") (resolve_user_from_api_key 5 "key1" fresh).0)).1
    ≡ granted "pro"
unfolding get lookup scalar
upgrade_user_seen_example =
    upgrade_user_seen 5 7 9 1 "key1" (some "cus_1") fresh ann filled refl refl not_taken
      (omega arith)

upgrade_user_unseen_example :
    let s' = upgrade_user false 7 1 (some "cus_1") (tier_of_key 5 "key1" fresh).0 in
    ((tier_of_key 9 "key1" s').1 ≡ granted "free")
    × (scalar (has_key "key1") s'.users ≡ some (1, set_pro (truthy (some "cus_1")) ann))
unfolding get lookup scalar
upgrade_user_unseen_example =
    upgrade_user_unseen false 5 7 9 1 "key1" (some "cus_1") fresh ann refl refl refl not_taken
      (omega arith)

regenerate_api_key_lem_example :
    let s' = regenerate_api_key 5 "key3" (1, ann) fresh in
    ((tier_of_key 9 "key1" s').1 ≡ denied invalid_api_key)
    × ((tier_of_key 9 "key3" s').1 ≡ granted "free")
unfolding lookup
regenerate_api_key_lem_example =
    regenerate_api_key_lem 5 9 "key3" 1 ann fresh refl refl (first_other, (second_other, tt))
      ((λ h. refl), (only_ann, tt))

paid : require_pro (get_current_user decode 5 (some "Bearer t") none fresh).1 ≡ granted (2, bob)
unfolding require_pro get_current_user user_of_header user_of_key resolve_user_from_jwt
    user_of_decoded scalar lower strip drop int
paid = refl

require_pro_lem_example :
    (is_pro pro ≡ true)
    × (true ≡ true)
    × IsRow 2 bob people
    × (IsByToken decode (some "Bearer t") 2 ⊎ (◌≡◌ {A = Option String} none (some "key2")))
require_pro_lem_example = require_pro_lem decode 5 (some "Bearer t") none fresh 2 bob paid

abbrev hashpw : String → String
hashpw password = "hash of it"

abbrev checkpw : String → String → Bool
checkpw password hashed = password == "good"

hashed_filled : ◌≢◌ {A = String} "hash of it" ""
hashed_filled h = let q : ◌≡◌ {A = Bool} false true = (eq_iff "hash of it" "").1 h in cc

login-register_example :
    login checkpw "dan@example.org" "bad"
      (register hashpw "dan@example.org" "good" "key4" 3 people).0
    ≡ bad_credentials
unfolding scalar
login-register_example =
    login-register hashpw checkpw "dan@example.org" "good" "bad" "key4" 3 people hashed_filled refl
      refl
