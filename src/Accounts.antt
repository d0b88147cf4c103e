-- ===== src/Accounts.antt =====
-- app/models/db/user.py, app/dependencies.py, app/api/deps.py and app/api/v1/auth.py: the users, and who
-- a request comes from. The table of users is a dict by the primary key; a statement runs over it in
-- one step. Redis holds two families of keys: auth:tier:{api_key}, here `tiers`, and
-- auth:user_api_key:{user_id}, here `user_api_keys`; both live for 300 s. `decode` is jose's.
pub mod Caching
pub mod Access
pub mod Login
use funding_radar.Base.{
  ℕ, ◌*◌, String, Bool, true, false, not, Option, none, some, List, [], ◌∷◌, if◌then◌else◌, ◌==◌,
  ◌&&◌, ◌||◌, by_text, by_value, map,
}
use text.Mathlib.Text.{starts_with}
use funding_radar.Base.Dict.{Dict}
use funding_radar.Base.Text.{lower, strip, drop, int}
use funding_radar.Redis.{Keys, get, set_ex, delete}
use funding_radar.Snapshot.{ticks_per_second}

pub data UserTier : Type 0 where
  free pro custom : UserTier

-- `UserTier.value`
abbrev pub value : UserTier → String
value free = "free"
value pro = "pro"
value custom = "custom"

-- `tier in (UserTier.PRO, UserTier.CUSTOM)`
abbrev pub is_pro : UserTier → Bool
is_pro free = false
is_pro pro = true
is_pro custom = true

pub record User : Type 0 where
  pub email : String
  pub hashed_password : Option String
  pub telegram_chat_id : Option String
  pub tier : UserTier
  pub api_key : String
  pub stripe_customer_id : Option String
  pub is_active : Bool

abbrev pub Users : Type 0
Users = Dict ℕ User

-- `session.scalar(select(User).where(…))`: the first row that satisfies the condition.
unfoldable pub scalar : (ℕ → User → Bool) → Users → Option (ℕ × User)
scalar p [] = none
scalar p ((i, u) ∷ rest) = if p i u then some (i, u) else scalar p rest

-- `update(User).where(…).values(…)`
unfoldable pub update_where : (ℕ → User → Bool) → (User → User) → Users → Users
update_where p f [] = []
update_where p f ((i, u) ∷ rest) = (i, if p i u then f u else u) ∷ update_where p f rest

-- The database and Redis.
pub record Store : Type 0 where
  pub users : Users
  pub tiers : Keys String UserTier
  pub user_api_keys : Keys ℕ String

pub data Denial : Type 0 where
  token_expired not_authenticated invalid_api_key pro_required server_error : Denial

pub data Answer {ℓ} (A : Type ℓ) : Type ℓ where
  granted : A → Answer A
  denied : Denial → Answer A

abbrev pub lifetime : ℕ
lifetime = 300 * ticks_per_second

abbrev pub has_key : String → ℕ → User → Bool
has_key key i u = (u.api_key == key) && u.is_active

-- `get_current_user_tier` on a key.
unfoldable pub tier_of_key : ℕ → String → Store → Store × Answer String
tier_of_key now key s = elim (get now key s.tiers) [
  | some cached ↦ (s, granted (value cached))
  | none ↦ elim (scalar (has_key key) s.users) [
    | none ↦ (s, denied invalid_api_key)
    | some (i, u) ↦
        (record s { tiers = set_ex now key u.tier lifetime s.tiers }, granted (value u.tier))
  ]
]

unfoldable pub get_current_user_tier : ℕ → Option String → Store → Store × Answer String
unfolding tier_of_key
get_current_user_tier now none s = (s, granted "anonymous")
get_current_user_tier now (some key) s = tier_of_key now key s

unfoldable pub resolve_user_from_api_key : ℕ → String → Store → Store × Option (ℕ × User)
resolve_user_from_api_key now key s = elim (scalar (has_key key) s.users) [
  | none ↦ (s, none)
  | some (i, u) ↦ elim (get now key s.tiers) [
    | some cached ↦ (s, some (i, u))
    | none ↦ (
      record s {
        tiers = set_ex now key u.tier lifetime s.tiers;
        user_api_keys = set_ex now i key lifetime s.user_api_keys;
      },
      some (i, u),
    )
  ]
]

-- What `decode_token` does: it raises one of two exceptions, or gives the token's `sub`.
pub data Decoded : Type 0 where
  expired invalid : Decoded
  payload : Option String → Decoded

abbrev pub has_user_id : ℕ → ℕ → User → Bool
has_user_id n i u = (i == n) && u.is_active

-- `int(user_id_str)` raises where there is no number.
abbrev pub user_of_sub : String → Users → Answer (Option (ℕ × User))
user_of_sub sub users = elim (int sub) [
  | none ↦ denied server_error
  | some n ↦ granted (scalar (has_user_id n) users)
]

unfoldable pub user_of_decoded : Decoded → Users → Answer (Option (ℕ × User))
user_of_decoded expired users = denied token_expired
user_of_decoded invalid users = granted none
user_of_decoded (payload none) users = granted none
user_of_decoded (payload (some sub)) users =
    if sub == "" then granted none else user_of_sub sub users

unfoldable pub resolve_user_from_jwt :
    (String → Decoded) → String → Users → Answer (Option (ℕ × User))
resolve_user_from_jwt decode token users = user_of_decoded (decode token) users

-- The first step of `get_current_user`.
unfoldable pub user_of_header :
    (String → Decoded) → Option String → Users → Answer (Option (ℕ × User))
user_of_header decode none users = granted none
user_of_header decode (some authorization) users =
    if starts_with (lower authorization) "bearer "
    then resolve_user_from_jwt decode (strip (drop 7 authorization)) users
    else granted none

abbrev pub or_denied : Option (ℕ × User) → Answer (ℕ × User)
or_denied none = denied not_authenticated
or_denied (some u) = granted u

-- The second step of `get_current_user`, on what the first found.
unfoldable pub user_of_key :
    ℕ → Option String → Store → Answer (Option (ℕ × User)) → Store × Answer (ℕ × User)
user_of_key now key s (denied d) = (s, denied d)
user_of_key now key s (granted (some u)) = (s, granted u)
user_of_key now none s (granted none) = (s, denied not_authenticated)
user_of_key now (some key) s (granted none) =
    let (s', found) = resolve_user_from_api_key now key s in
    if key == "" then (s, denied not_authenticated) else (s', or_denied found)

unfoldable pub get_current_user :
    (String → Decoded) → ℕ → Option String → Option String → Store → Store × Answer (ℕ × User)
unfolding user_of_key
get_current_user decode now authorization key s =
    user_of_key now key s (user_of_header decode authorization s.users)

-- `get_optional_user`, which catches HTTPException alone.
abbrev pub optional : Answer (ℕ × User) → Answer (Option (ℕ × User))
optional (granted u) = granted (some u)
optional (denied server_error) = denied server_error
optional (denied token_expired) = granted none
optional (denied not_authenticated) = granted none
optional (denied invalid_api_key) = granted none
optional (denied pro_required) = granted none

unfoldable pub require_pro : Answer (ℕ × User) → Answer (ℕ × User)
require_pro (denied d) = denied d
require_pro (granted (i, u)) = if is_pro u.tier then granted (i, u) else denied pro_required

-- `regenerate_api_key` for the user that the request came from.
unfoldable pub regenerate_api_key : ℕ → String → ℕ × User → Store → Store
regenerate_api_key now new_key (i, u) s = record s {
  users = update_where (λ j w. j == i) (λ w. record w { api_key = new_key }) s.users;
  tiers = set_ex now new_key u.tier lifetime (delete u.api_key s.tiers);
  user_api_keys = set_ex now i new_key lifetime s.user_api_keys;
}
