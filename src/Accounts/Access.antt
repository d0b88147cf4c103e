-- ===== src/Accounts/Access.antt =====
-- app/dependencies.py: who gets past `require_pro`.
use funding_radar.Base.{
  ℕ, String, ◌≡◌, ◌⊎◌, refl, sym, ap, ◌∙◌, Bool, true, Option, none, some, [], ◌∷◌, arith, by_text,
  by_value, Bool-cases, Option-cases, inl, inr, nat_beq_iff,
}
use text.Mathlib.Text.{starts_with}
use text.Mathlib.TextEquality.{eq_iff}
use funding_radar.Base.Text.{lower, strip, drop, int}
use funding_radar.Accounts.{
  is_pro, User, Users, scalar, Store, Answer, granted, denied, Decoded, expired, invalid, payload,
  has_user_id, has_key, user_of_decoded, resolve_user_from_jwt, user_of_header, user_of_key,
  resolve_user_from_api_key, get_current_user, require_pro,
}

-- The table has the row.
abbrev pub IsRow : ℕ → User → Users → Type 0
IsRow i u [] = ⊥
IsRow i u ((j, w) ∷ rest) = ((j ≡ i) × (w ≡ u)) ⊎ IsRow i u rest

scalar_lem :
    (p : ℕ → User → Bool) (users : Users) {i : ℕ} {u : User}
    → scalar p users ≡ some (i, u)
    → (p i u ≡ true) × IsRow i u users
unfolding scalar
scalar_lem p [] h = cc
scalar_lem p ((j, w) ∷ rest) {i} {u} h = elim (Bool-cases (p j w)) [
  | inl q ↦
      let h' : ◌≡◌ {A = Option (ℕ × User)} (some (j, w)) (some (i, u)) = rw q at h in
      let row : j ≡ i = cc in let row' : w ≡ u = cc in (rw (sym row, sym row') q, inl (row, row'))
  | inr q ↦ let (holds, there) = scalar_lem p rest (rw q at h) in (holds, inr there)
]

scalar-has_user_id :
    (n : ℕ) (users : Users) {i : ℕ} {u : User}
    → scalar (has_user_id n) users ≡ some (i, u)
    → (i ≡ n) × (u.is_active ≡ true) × IsRow i u users
scalar-has_user_id n users {i} {u} h =
    let (holds, there) = scalar_lem (has_user_id n) users h in
    (ground (arith, nat_beq_iff i n), ground arith, there)

-- The header bears a token whose `sub` is the user's id.
abbrev pub IsByToken : (String → Decoded) → Option String → ℕ → Type 0
IsByToken decode authorization i =
    (header sub : String) × (authorization ≡ some header)
    × (decode (strip (drop 7 header)) ≡ payload (some sub))
    × (int sub ≡ some i)

user_of_decoded_lem :
    (d : Decoded) (users : Users) {i : ℕ} {u : User}
    → user_of_decoded d users ≡ granted (some (i, u))
    → ((sub : String) × (d ≡ payload (some sub)) × (int sub ≡ some i))
      × (u.is_active ≡ true)
      × IsRow i u users
unfolding user_of_decoded
user_of_decoded_lem expired users h = cc
user_of_decoded_lem invalid users h = cc
user_of_decoded_lem (payload none) users h = cc
user_of_decoded_lem (payload (some sub)) users {i} {u} h = elim (Option-cases (int sub)) [
  | inl q ↦ ground arith
  | inr (n, q) ↦
      let found : scalar (has_user_id n) users ≡ some (i, u) = ground arith in
      let (same, active, row) = scalar-has_user_id n users found in
      ((sub, refl, rw same q), active, row)
]

header_lem :
    (decode : String → Decoded) (authorization : Option String) (users : Users) {i : ℕ} {u : User}
    → user_of_header decode authorization users ≡ granted (some (i, u))
    → IsByToken decode authorization i × (u.is_active ≡ true) × IsRow i u users
unfolding user_of_header resolve_user_from_jwt
header_lem decode none users h = cc
header_lem decode (some a) users {i} {u} h = elim (Bool-cases (starts_with (lower a) "bearer ")) [
  | inl q ↦
      let ((sub, decoded, number), active, row) =
        user_of_decoded_lem (decode (strip (drop 7 a))) users (rw q at h) in
      ((a, sub, refl, decoded, number), active, row)
  | inr q ↦
      let h' : ◌≡◌ {A = Answer (Option (ℕ × User))} (granted none) (granted (some (i, u))) =
        rw q at h in
      cc
]

key_lem :
    (now : ℕ) (key : String) (s : Store) {i : ℕ} {u : User}
    → (resolve_user_from_api_key now key s).1 ≡ some (i, u)
    → (u.api_key ≡ key) × (u.is_active ≡ true) × IsRow i u s.users
unfolding resolve_user_from_api_key
key_lem now key s {i} {u} h = elim (Option-cases (scalar (has_key key) s.users)) [
  | inl q ↦
      let h' : ◌≡◌ {A = Option (ℕ × User)} none (some (i, u)) =
        rw (q, resolve_user_from_api_key) at h in
      cc
  | inr ((j, w), q) ↦
      let h' : ◌≡◌ {A = Option (ℕ × User)} (some (j, w)) (some (i, u)) = ground arith in
      let found : scalar (has_key key) s.users ≡ some (i, u) = q ∙ h' in
      let (holds, there) = scalar_lem (has_key key) s.users found in
      (ground (arith, eq_iff u.api_key key), ground arith, there)
]

user_of_key_lem :
    (now : ℕ) (key : Option String) (s : Store) (r : Answer (Option (ℕ × User))) {i : ℕ} {u : User}
    → (user_of_key now key s r).1 ≡ granted (i, u)
    → (r ≡ granted (some (i, u)))
      ⊎ ((key ≡ some u.api_key) × (u.is_active ≡ true) × IsRow i u s.users)
unfolding user_of_key
user_of_key_lem now key s (denied d) h = cc
user_of_key_lem now key s (granted (some w)) h = inl (ground arith)
user_of_key_lem now none s (granted none) h = cc
user_of_key_lem now (some key) s (granted none) {i} {u} h =
    elim (Option-cases (resolve_user_from_api_key now key s).1) [
      | inl q ↦ ground arith
      | inr (w, q) ↦
          let found : (resolve_user_from_api_key now key s).1 ≡ some (i, u) = ground arith in
          let (same, active, row) = key_lem now key s found in inr (ap some (sym same), active, row)
    ]

require_pro-granted :
    (a : Answer (ℕ × User)) {i : ℕ} {u : User}
    → require_pro a ≡ granted (i, u)
    → (is_pro u.tier ≡ true) × (a ≡ granted (i, u))
unfolding require_pro
require_pro-granted (denied d) h = cc
require_pro-granted (granted (j, w)) {i} {u} h = ground arith

-- A user that gets past `require_pro` is an active one of the table, on the tier pro or custom, and the
-- request bore a token for that user's id or that user's own API key.
pub require_pro_lem :
    (decode : String → Decoded) (now : ℕ) (authorization key : Option String) (s : Store) (i : ℕ)
    (u : User)
    → require_pro (get_current_user decode now authorization key s).1 ≡ granted (i, u)
    → (is_pro u.tier ≡ true)
      × (u.is_active ≡ true)
      × IsRow i u s.users
      × (IsByToken decode authorization i ⊎ (key ≡ some u.api_key))
unfolding get_current_user
require_pro_lem decode now authorization key s i u h =
    let (is_paid, who) =
      require_pro-granted (get_current_user decode now authorization key s).1 h in
    elim (user_of_key_lem now key s (user_of_header decode authorization s.users) who) [
      | inl by_token ↦
          let (token, active, row) = header_lem decode authorization s.users by_token in
          (is_paid, active, row, inl token)
      | inr (same, active, row) ↦ (is_paid, active, row, inr same)
    ]
