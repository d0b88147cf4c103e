-- ===== src/Payments.antt =====
-- app/services/payment_service.py: what the events that Stripe sends do to the users and the caches.
-- `verify` is Stripe's construct_event, which raises on a bad signature; an event holds of its object
-- what the code reads. `down` says that Redis fails. The column stripe_customer_id is unique.
pub mod Events
pub mod Freshness
use funding_radar.Base.{
  ℕ, String, Bool, true, false, not, Option, none, some, List, [], ◌∷◌, if◌then◌else◌, ◌==◌, ◌&&◌,
  by_text, by_value,
}
use funding_radar.Base.Dict.{lookup}
use funding_radar.Base.Text.{int}
use funding_radar.Redis.{get, delete}
use funding_radar.Accounts.{UserTier, free, pro, User, Users, scalar, update_where, Store}

pub data Event : Type 0 where
  -- `metadata.user_id` and `customer` of the session
  checkout_completed : Option String → Option String → Event
  -- `customer` of the subscription
  subscription_deleted : Option String → Event
  subscription_updated : Event
  other : String → Event

abbrev pub event_type : Event → String
event_type (checkout_completed _ _) = "checkout.session.completed"
event_type (subscription_deleted _) = "customer.subscription.deleted"
event_type subscription_updated = "customer.subscription.updated"
event_type (other name) = name

-- `if x:` on an optional string
abbrev pub truthy : Option String → Option String
truthy none = none
truthy (some x) = if x == "" then none else some x

unfoldable pub bust_user_tier_cache : Bool → ℕ → ℕ → Store → Store
bust_user_tier_cache true now user_id s = s
bust_user_tier_cache false now user_id s = elim (truthy (get now user_id s.user_api_keys)) [
  | none ↦ s
  | some key ↦ record s { tiers = delete key s.tiers }
]

abbrev pub set_pro : Option String → User → User
set_pro none u = record u { tier = pro }
set_pro (some customer) u = record u { tier = pro; stripe_customer_id = some customer }

abbrev pub set_free : User → User
set_free u = record u { tier = free }

abbrev pub is_user : ℕ → ℕ → User → Bool
is_user user_id i u = i == user_id

abbrev pub is_customer : String → ℕ → User → Bool
is_customer customer i u = elim u.stripe_customer_id [ none ↦ false | some c ↦ c == customer ]

abbrev pub is_other_customer : ℕ → String → ℕ → User → Bool
is_other_customer user_id customer i u = not (i == user_id) && is_customer customer i u

abbrev pub found : Option (ℕ × User) → Bool
found none = false
found (some _) = true

-- Whether the update of `_upgrade_user` breaks the uniqueness of stripe_customer_id.
unfoldable pub is_taken : ℕ → Option String → Users → Bool
is_taken user_id none users = false
is_taken user_id (some customer) users =
    found (scalar (is_user user_id) users)
    && found (scalar (is_other_customer user_id customer) users)

-- The database refuses an update that breaks the uniqueness, and nothing more is run.
unfoldable pub upgrade_user : Bool → ℕ → ℕ → Option String → Store → Store
unfolding is_taken
upgrade_user down now user_id customer s =
    if is_taken user_id (truthy customer) s.users
    then s
    else bust_user_tier_cache down now user_id
        (record s { users = update_where (is_user user_id) (set_pro (truthy customer)) s.users })

unfoldable pub downgrade_user_by_customer : Bool → ℕ → String → Store → Store
downgrade_user_by_customer down now customer s = elim (scalar (is_customer customer) s.users) [
  | none ↦ s
  | some (user_id, u) ↦
      bust_user_tier_cache down now user_id
        (record s { users = update_where (is_customer customer) set_free s.users })
]

-- The handlers catch what is raised below them, `int`'s ValueError included.
unfoldable pub handle_checkout_completed : Bool → ℕ → Option String → Option String → Store → Store
handle_checkout_completed down now none customer s = s
handle_checkout_completed down now (some user_id_str) customer s = elim (int user_id_str) [
  | none ↦ s
  | some user_id ↦ upgrade_user down now user_id customer s
]

unfoldable pub handle_subscription_deleted : Bool → ℕ → Option String → Store → Store
handle_subscription_deleted down now customer s = elim (truthy customer) [
  | none ↦ s
  | some c ↦ downgrade_user_by_customer down now c s
]

unfoldable pub dispatch : Bool → ℕ → Event → Store → Store
unfolding handle_checkout_completed handle_subscription_deleted
dispatch down now (checkout_completed user_id customer) s =
    handle_checkout_completed down now (truthy user_id) customer s
dispatch down now (subscription_deleted customer) s =
    handle_subscription_deleted down now customer s
dispatch down now subscription_updated s = s
dispatch down now (other name) s = s

pub data WebhookResult : Type 0 where
  returned : String → WebhookResult
  not_configured bad_signature : WebhookResult

unfoldable pub handle_stripe_webhook :
    (String → String → String → Option Event)
    → Option String
    → Bool
    → ℕ
    → String
    → String
    → Store
    → Store × WebhookResult
unfolding dispatch
handle_stripe_webhook verify none down now payload signature s = (s, not_configured)
handle_stripe_webhook verify (some secret) down now payload signature s =
    elim (verify payload signature secret) [
      | none ↦ (s, bad_signature)
      | some event ↦ (dispatch down now event s, returned (event_type event))
    ]
