-- ===== src/Payments/Events.antt =====
-- app/services/payment_service.py: what an event leaves of the table of users.
use funding_radar.Base.{
  ℕ, String, ◌≡◌, refl, Bool, true, false, Option, none, some, [], ◌∷◌, arith, if◌then◌else◌, ◌==◌,
  by_text, by_value, Bool-cases, Option-cases, inl, inr, nat_beq_iff,
}
use funding_radar.Base.Dict.{lookup}
use funding_radar.Base.Text.{int}
use funding_radar.Accounts.{UserTier, free, pro, User, Users, scalar, update_where, Store}
use funding_radar.Payments.{
  Event, checkout_completed, subscription_deleted, subscription_updated, other, truthy,
  bust_user_tier_cache, set_pro, set_free, is_customer, is_taken, upgrade_user,
  downgrade_user_by_customer, handle_checkout_completed, handle_subscription_deleted, dispatch,
  handle_stripe_webhook, event_type, returned,
}

pub bust_user_tier_cache-users :
    (down : Bool) (now user_id : ℕ) (s : Store)
    → (bust_user_tier_cache down now user_id s).users ≡ s.users
unfolding bust_user_tier_cache
bust_user_tier_cache-users true now user_id s = refl
bust_user_tier_cache-users false now user_id s = ground arith

lookup-update_where :
    (i : ℕ) (p : ℕ → User → Bool) (f : User → User) (users : Users)
    → lookup i (update_where p f users)
      ≡ elim (lookup i users) [ none ↦ none | some u ↦ some (if p i u then f u else u) ]
unfolding lookup update_where
lookup-update_where i p f [] = refl
lookup-update_where i p f ((j, u) ∷ rest) =
    ground (arith, nat_beq_iff j i, lookup-update_where i p f rest)

scalar-none :
    (i : ℕ) (p : ℕ → User → Bool) (users : Users) {u : User}
    → scalar p users ≡ none
    → lookup i users ≡ some u
    → p i u ≡ false
unfolding lookup scalar
scalar-none i p [] h f = cc
scalar-none i p ((j, w) ∷ rest) {u} h f = elim (Bool-cases (p j w)) [
  | inl hit ↦ let h' : ◌≡◌ {A = Option (ℕ × User)} (some (j, w)) none = rw hit at h in cc
  | inr miss ↦
      let h' : scalar p rest ≡ none = rw miss at h in
      elim (Bool-cases (j == i)) [
        | inl q ↦
            let f' : some w ≡ some u = rw q at f in let here : j ≡ i = (nat_beq_iff j i).0 q in cc
        | inr q ↦ scalar-none i p rest h' (rw q at f)
      ]
]

-- The same user but for the tier and the id at Stripe.
abbrev pub IsSameAccount : User → User → Type 0
IsSameAccount u w =
    (w.email ≡ u.email)
    × (w.hashed_password ≡ u.hashed_password)
    × (w.telegram_chat_id ≡ u.telegram_chat_id)
    × (w.api_key ≡ u.api_key)
    × (w.is_active ≡ u.is_active)

-- The tier that an event means a user to have.
unfoldable pub meant_tier : Event → ℕ → User → UserTier
meant_tier (checkout_completed user_id customer) i u = elim (truthy user_id) [
  | none ↦ u.tier
  | some text ↦ elim (int text) [ none ↦ u.tier | some n ↦ if i == n then pro else u.tier ]
]
meant_tier (subscription_deleted customer) i u = elim (truthy customer) [
  | none ↦ u.tier
  | some c ↦ if is_customer c i u then free else u.tier
]
meant_tier subscription_updated i u = u.tier
meant_tier (other name) i u = u.tier

-- Whether the database refuses what an event asks for.
unfoldable pub is_refused : Event → Store → Bool
is_refused (checkout_completed user_id customer) s = elim (truthy user_id) [
  | none ↦ false
  | some text ↦ elim (int text) [ none ↦ false | some n ↦ is_taken n (truthy customer) s.users ]
]
is_refused (subscription_deleted customer) s = false
is_refused subscription_updated s = false
is_refused (other name) s = false

abbrev Becomes : ℕ → User → UserTier → Store → Type 0
Becomes i u tier s = (w : User) × (lookup i s.users ≡ some w) × (w.tier ≡ tier) × IsSameAccount u w

same_account : (u : User) → IsSameAccount u u
same_account u = (refl, refl, refl, refl, refl)

stays : (i : ℕ) (u : User) (s : Store) → lookup i s.users ≡ some u → Becomes i u u.tier s
stays i u s h = (u, h, refl, same_account u)

set_pro-same : (customer : Option String) (u : User) → IsSameAccount u (set_pro customer u)
set_pro-same none u = (refl, refl, refl, refl, refl)
set_pro-same (some c) u = (refl, refl, refl, refl, refl)

pub set_pro-tier : (customer : Option String) (u : User) → (set_pro customer u).tier ≡ pro
set_pro-tier none u = refl
set_pro-tier (some c) u = refl

-- An update of some rows, after which nothing more is done to the table.
updated :
    (i : ℕ) (u : User) (b : Bool) (f : User → User) (tier : UserTier) (s : Store)
    → lookup i s.users ≡ some (if b then f u else u)
    → (f u).tier ≡ tier
    → IsSameAccount u (f u)
    → Becomes i u (if b then tier else u.tier) s
updated i u true f tier s h t a = (f u, h, t, a)
updated i u false f tier s h t a = stays i u s h

upgrade_user-tier :
    (down : Bool) (now user_id : ℕ) (customer : Option String) (s : Store) (i : ℕ) (u : User)
    → lookup i s.users ≡ some u
    → is_taken user_id (truthy customer) s.users ≡ false
    → Becomes i u (if i == user_id then pro else u.tier) (upgrade_user down now user_id customer s)
unfolding upgrade_user
upgrade_user-tier down now user_id customer s i u h taken =
    updated i u (i == user_id) (set_pro (truthy customer)) pro
      (upgrade_user down now user_id customer s)
      (rw (taken, upgrade_user) (rw bust_user_tier_cache-users (rw (lookup-update_where, h) refl)))
      (set_pro-tier (truthy customer) u) (set_pro-same (truthy customer) u)

downgrade-tier :
    (down : Bool) (now : ℕ) (customer : String) (s : Store) (i : ℕ) (u : User)
    → lookup i s.users ≡ some u
    → Becomes i u
        (if is_customer customer i u then free else u.tier)
        (downgrade_user_by_customer down now customer s)
unfolding downgrade_user_by_customer
downgrade-tier down now customer s i u h =
    elim (Option-cases (scalar (is_customer customer) s.users)) [
      | inl nobody ↦ rw (scalar-none i (is_customer customer) s.users nobody h) (
          stays i u (downgrade_user_by_customer down now customer s)
            (rw (nobody, downgrade_user_by_customer) h))
      | inr ((j, w), somebody) ↦
          updated i u (is_customer customer i u) set_free free
            (downgrade_user_by_customer down now customer s)
            (rw (somebody, downgrade_user_by_customer)
              (rw bust_user_tier_cache-users (rw (lookup-update_where, h) refl)))
            refl (refl, refl, refl, refl, refl)
    ]

dispatch-tier :
    (down : Bool) (now : ℕ) (e : Event) (s : Store) (i : ℕ) (u : User)
    → lookup i s.users ≡ some u
    → is_refused e s ≡ false
    → Becomes i u (meant_tier e i u) (dispatch down now e s)
unfolding dispatch handle_checkout_completed handle_subscription_deleted meant_tier is_refused
dispatch-tier down now (checkout_completed user_id customer) s i u h r =
    elim (Option-cases (truthy user_id)) [
      | inl q ↦ rw (q, meant_tier) (stays i u s h)
      | inr (text, q) ↦ elim (Option-cases (int text)) [
        | inl q' ↦ rw (q, q', meant_tier, handle_checkout_completed) (stays i u s h)
        | inr (n, q') ↦
            rw (q, q', meant_tier, handle_checkout_completed)
              (upgrade_user-tier down now n customer s i u h (rw (q, q', is_refused) at r))
      ]
    ]
dispatch-tier down now (subscription_deleted customer) s i u h r =
    elim (Option-cases (truthy customer)) [
      | inl q ↦ rw (q, meant_tier, handle_subscription_deleted) (stays i u s h)
      | inr (c, q) ↦
          rw (q, meant_tier, handle_subscription_deleted) (downgrade-tier down now c s i u h)
    ]
dispatch-tier down now subscription_updated s i u h r = stays i u s h
dispatch-tier down now (other name) s i u h r = stays i u s h

-- Where the signature of an event holds and the database does not refuse it, each user's row is after
-- the webhook what it was but for the tier, which is the one the event means, and the id at Stripe;
-- and the event's type is returned.
pub handle_stripe_webhook_lem :
    (verify : String → String → String → Option Event) (secret : String) (down : Bool) (now : ℕ)
    (payload signature : String) (s : Store) (e : Event) (i : ℕ) (u : User)
    → verify payload signature secret ≡ some e
    → is_refused e s ≡ false
    → lookup i s.users ≡ some u
    → let (s', result) = handle_stripe_webhook verify (some secret) down now payload signature s in
      (result ≡ returned (event_type e))
      × ((w : User) × (lookup i s'.users ≡ some w)
          × (w.tier ≡ meant_tier e i u)
          × IsSameAccount u w)
unfolding handle_stripe_webhook
handle_stripe_webhook_lem verify secret down now payload signature s e i u v r h =
    rw (v, handle_stripe_webhook) (refl, dispatch-tier down now e s i u h r)
