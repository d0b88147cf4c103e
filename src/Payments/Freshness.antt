-- ===== src/Payments/Freshness.antt =====
-- app/services/payment_service.py with app/api/deps.py and app/dependencies.py: when a change of tier is
-- seen by a request that carries the user's key.
use funding_radar.Base.{
  ℕ, ◌+◌, ◌<◌, String, ◌≡◌, ◌≢◌, refl, Bool, true, false, Option, none, some, arith, ◌==◌, by_text,
  by_value, ap, ◌∙◌, lt→ltb, same_refl,
}
use text.Mathlib.TextEquality.{eq_iff}
use funding_radar.Redis.{get, set_ex, get-set_ex, get-delete}
use funding_radar.Accounts.{
  User, value, scalar, update_where, Store, granted, lifetime, has_key, tier_of_key,
  resolve_user_from_api_key,
}
use funding_radar.Accounts.Caching.{
  scalar-update_where, tier_of_key-cached, tier_of_key-known, resolve-known,
}
use funding_radar.Payments.{truthy, bust_user_tier_cache, set_pro, is_user, is_taken, upgrade_user}
use funding_radar.Payments.Events.{bust_user_tier_cache-users, set_pro-tier}

has_key-set_pro :
    (key : String) (customer : Option String) (i : ℕ) (u : User)
    → has_key key i (set_pro customer u) ≡ has_key key i u
has_key-set_pro key none i u = refl
has_key-set_pro key (some c) i u = refl

-- What `upgrade_user` does to the row that a key finds.
scalar-upgrade_user :
    (down : Bool) (now i : ℕ) (customer : Option String) (key : String) (s : Store) {u : User}
    → scalar (has_key key) s.users ≡ some (i, u)
    → is_taken i (truthy customer) s.users ≡ false
    → scalar (has_key key) (upgrade_user down now i customer s).users
      ≡ some (i, set_pro (truthy customer) u)
unfolding upgrade_user
scalar-upgrade_user down now i customer key s f t =
    rw (t, upgrade_user)
      (rw bust_user_tier_cache-users (
        rw
          (scalar-update_where (has_key key) (is_user i) (set_pro (truthy customer)) s.users
            (has_key-set_pro key (truthy customer)))
          (rw f (rw same_refl refl))))

-- The user's key in Redis leads to the cached tier, which goes.
bust_user_tier_cache-get :
    (now then_at i : ℕ) (key : String) (s : Store)
    → key ≢ ""
    → get now i s.user_api_keys ≡ some key
    → get then_at key (bust_user_tier_cache false now i s).tiers ≡ none
unfolding bust_user_tier_cache
bust_user_tier_cache-get now then_at i key s n h =
    let full : (key == "") ≡ false = ground (arith, eq_iff key "") in
    rw (h, full, bust_user_tier_cache) (rw get-delete (rw same_refl refl))

-- Without that key, nothing goes.
bust_user_tier_cache-none :
    (down : Bool) (now i : ℕ) (s : Store)
    → get now i s.user_api_keys ≡ none
    → bust_user_tier_cache down now i s ≡ s
unfolding bust_user_tier_cache
bust_user_tier_cache-none true now i s h = refl
bust_user_tier_cache-none false now i s h = rw (h, bust_user_tier_cache) refl

upgrade_user-clears :
    (now then_at i : ℕ) (key : String) (customer : Option String) (s : Store)
    → key ≢ ""
    → get now i s.user_api_keys ≡ some key
    → is_taken i (truthy customer) s.users ≡ false
    → get then_at key (upgrade_user false now i customer s).tiers ≡ none
unfolding upgrade_user
upgrade_user-clears now then_at i key customer s n h t =
    let s' : Store = record s {
      users = update_where (is_user i) (set_pro (truthy customer)) s.users;
    } in
    rw (t, upgrade_user) (bust_user_tier_cache-get now then_at i key s' n h)

upgrade_user-keeps :
    (down : Bool) (now i : ℕ) (customer : Option String) (s : Store)
    → get now i s.user_api_keys ≡ none
    → is_taken i (truthy customer) s.users ≡ false
    → (upgrade_user down now i customer s).tiers ≡ s.tiers
unfolding upgrade_user
upgrade_user-keeps down now i customer s h t =
    let s' : Store = record s {
      users = update_where (is_user i) (set_pro (truthy customer)) s.users;
    } in
    rw (t, upgrade_user) (rw (bust_user_tier_cache-none down now i s' h) refl)

-- While Redis answers and nothing is cached under a user's key, which is not empty: an authenticated
-- request by that key, an upgrade of the user that the database takes and during which Redis does not
-- fail, within the life of the cache, and then a request for the tier by the key. Its answer is "pro", at
-- any time.
pub upgrade_user_seen :
    (now upgraded_at then_at i : ℕ) (key : String) (customer : Option String) (s : Store) (u : User)
    → key ≢ ""
    → get now key s.tiers ≡ none
    → scalar (has_key key) s.users ≡ some (i, u)
    → is_taken i (truthy customer) s.users ≡ false
    → upgraded_at < now + lifetime
    → (tier_of_key then_at key
        (upgrade_user false upgraded_at i customer (resolve_user_from_api_key now key s).0)).1
      ≡ granted "pro"
upgrade_user_seen now upgraded_at then_at i key customer s u n miss f t alive =
    let s1 : Store = record s {
      tiers = set_ex now key u.tier lifetime s.tiers;
      user_api_keys = set_ex now i key lifetime s.user_api_keys;
    } in
    let mine : get upgraded_at i s1.user_api_keys ≡ some key =
      rw get-set_ex (rw (same_refl, lt→ltb upgraded_at (now + lifetime) alive) refl) in
    rw (resolve-known now key s miss f) (
      (tier_of_key-known then_at key (upgrade_user false upgraded_at i customer s1)
        (upgrade_user-clears upgraded_at then_at i key customer s1 n mine t)
        (scalar-upgrade_user false upgraded_at i customer key s1 f t)).0
      ∙ ap (λ x. granted (value x)) (set_pro-tier (truthy customer) u))

-- Where nothing is cached under a user's key and the user's own key is not in Redis, a request for the tier by
-- the key, and an upgrade of the user that the database takes: until the cache's life is over, a request by
-- the key is told the tier from before, though the user's row has the tier pro.
pub upgrade_user_unseen :
    (down : Bool) (now upgraded_at then_at i : ℕ) (key : String) (customer : Option String)
    (s : Store) (u : User)
    → get now key s.tiers ≡ none
    → get upgraded_at i s.user_api_keys ≡ none
    → scalar (has_key key) s.users ≡ some (i, u)
    → is_taken i (truthy customer) s.users ≡ false
    → then_at < now + lifetime
    → let s' = upgrade_user down upgraded_at i customer (tier_of_key now key s).0 in
      ((tier_of_key then_at key s').1 ≡ granted (value u.tier))
      × (scalar (has_key key) s'.users ≡ some (i, set_pro (truthy customer) u))
upgrade_user_unseen down now upgraded_at then_at i key customer s u miss gone f t alive =
    let s1 : Store = record s { tiers = set_ex now key u.tier lifetime s.tiers } in
    let kept : get then_at key s1.tiers ≡ some u.tier =
      rw get-set_ex (rw (same_refl, lt→ltb then_at (now + lifetime) alive) refl) in
    rw ((tier_of_key-known now key s miss f).1) (
      tier_of_key-cached then_at key (upgrade_user down upgraded_at i customer s1)
          (rw (upgrade_user-keeps down upgraded_at i customer s1 gone t) kept),
      scalar-upgrade_user down upgraded_at i customer key s1 f t,
    )
