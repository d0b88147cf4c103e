-- ===== src/Accounts/Caching.antt =====
-- app/api/deps.py, app/dependencies.py and app/api/v1/auth.py: what the two keys in Redis hold after the
-- operations, and what a request by key is told.
use funding_radar.Base.{
  ℕ, ◌+◌, String, ◌≡◌, ◌≢◌, refl, Bool, true, false, none, some, [], ◌∷◌, arith, if◌then◌else◌,
  ◌==◌, by_text, by_value, Bool-cases, inl, inr, ltb, same_refl, nat_beq_iff, All,
}
use text.Mathlib.TextEquality.{eq_iff}
use funding_radar.Base.Dict.{lookup}
use funding_radar.Redis.{get, set_ex, get-set_ex, get-delete}
use funding_radar.Accounts.{
  UserTier, User, Users, value, scalar, update_where, Store, granted, denied, invalid_api_key,
  lifetime, has_key, tier_of_key, resolve_user_from_api_key, regenerate_api_key,
}

-- An update that the condition does not see changes the row that is found and no other.
pub scalar-update_where :
    (p q : ℕ → User → Bool) (f : User → User) (users : Users)
    → ((i : ℕ) (u : User) → p i (f u) ≡ p i u)
    → scalar p (update_where q f users)
      ≡ elim (scalar p users) [ none ↦ none | some (i, u) ↦ some (i, if q i u then f u else u) ]
unfolding scalar update_where
scalar-update_where p q f [] h = refl
scalar-update_where p q f ((i, u) ∷ rest) h =
    ground (arith, h i u, scalar-update_where p q f rest h)

pub tier_of_key-cached :
    (now : ℕ) (key : String) (s : Store) {t : UserTier}
    → get now key s.tiers ≡ some t
    → (tier_of_key now key s).1 ≡ granted (value t)
unfolding tier_of_key
tier_of_key-cached now key s h = rw (h, tier_of_key) refl

pub tier_of_key-known :
    (now : ℕ) (key : String) (s : Store) {i : ℕ} {u : User}
    → get now key s.tiers ≡ none
    → scalar (has_key key) s.users ≡ some (i, u)
    → ((tier_of_key now key s).1 ≡ granted (value u.tier))
      × ((tier_of_key now key s).0 ≡ record s { tiers = set_ex now key u.tier lifetime s.tiers })
unfolding tier_of_key
tier_of_key-known now key s h f = rw (h, f, tier_of_key) (refl, refl)

tier_of_key-unknown :
    (now : ℕ) (key : String) (s : Store)
    → get now key s.tiers ≡ none
    → scalar (has_key key) s.users ≡ none
    → (tier_of_key now key s).1 ≡ denied invalid_api_key
unfolding tier_of_key
tier_of_key-unknown now key s h f = rw (h, f, tier_of_key) refl

pub resolve-known :
    (now : ℕ) (key : String) (s : Store) {i : ℕ} {u : User}
    → get now key s.tiers ≡ none
    → scalar (has_key key) s.users ≡ some (i, u)
    → (resolve_user_from_api_key now key s).0 ≡ record s {
      tiers = set_ex now key u.tier lifetime s.tiers;
      user_api_keys = set_ex now i key lifetime s.user_api_keys;
    }
unfolding resolve_user_from_api_key
resolve-known now key s h f = rw (f, h, resolve_user_from_api_key) refl

-- No row holds the key.
abbrev pub NoneHas : String → Users → Type 0
NoneHas key users = All (λ (e : ℕ × User). e.1.api_key ≢ key) users

scalar-NoneHas :
    (key : String) (users : Users) → NoneHas key users → scalar (has_key key) users ≡ none
unfolding scalar
scalar-NoneHas key [] h = refl
scalar-NoneHas key ((i, u) ∷ rest) h =
    ground (arith, eq_iff u.api_key key, h.0, scalar-NoneHas key rest h.1)

-- No row but that of one user holds the key.
abbrev pub OnlyHas : ℕ → String → Users → Type 0
OnlyHas i key users = All (λ (e : ℕ × User). e.1.api_key ≡ key → e.0 ≡ i) users

abbrev with_key : String → User → User
with_key key u = record u { api_key = key }

abbrev is_row : ℕ → ℕ → User → Bool
is_row i j u = j == i

update_where-NoneHas :
    (i : ℕ) (key new_key : String) (users : Users)
    → new_key ≢ key
    → OnlyHas i key users
    → NoneHas key (update_where (is_row i) (with_key new_key) users)
unfolding update_where
update_where-NoneHas i key new_key [] n h = tt
update_where-NoneHas i key new_key ((j, u) ∷ rest) n h = (
  elim (Bool-cases (j == i)) [
    | inl q ↦ rw q n
    | inr q ↦ rw q (λ same. let q' : (j == i) ≡ true = (nat_beq_iff j i).1 (h.0 same) in cc)
  ],
  update_where-NoneHas i key new_key rest n h.1,
)

scalar-new_key :
    (i : ℕ) (key : String) (users : Users) {u : User}
    → lookup i users ≡ some u
    → u.is_active ≡ true
    → NoneHas key users
    → (j : ℕ) × (scalar (has_key key) (update_where (is_row i) (with_key key) users)
        ≡ some (j, with_key key u))
unfolding lookup scalar update_where
scalar-new_key i key [] f a n = cc
scalar-new_key i key ((j, w) ∷ rest) {u} f a n = elim (Bool-cases (j == i)) [
  | inl q ↦
      let same : some w ≡ some u = rw q at f in
      let same' : w ≡ u = cc in (j, ground (arith, eq_iff key key))
  | inr q ↦
      let (k, found) = scalar-new_key i key rest (rw q at f) a n.1 in
      (k, ground (arith, eq_iff w.api_key key, n.0))
]

NoneHas-lookup :
    (i : ℕ) (key : String) (users : Users) {u : User}
    → lookup i users ≡ some u
    → NoneHas key users
    → (u.api_key == key) ≡ false
unfolding lookup
NoneHas-lookup i key [] f n = cc
NoneHas-lookup i key ((j, w) ∷ rest) {u} f n =
    ground (arith, eq_iff w.api_key key, n.0, NoneHas-lookup i key rest {u = u})

-- After an active user has a new key that no row had, the old key, which no other user has, is refused,
-- and the new one answers the user's tier, at any time.
pub regenerate_api_key_lem :
    (now then_at : ℕ) (new_key : String) (i : ℕ) (u : User) (s : Store)
    → lookup i s.users ≡ some u
    → u.is_active ≡ true
    → NoneHas new_key s.users
    → OnlyHas i u.api_key s.users
    → let s' = regenerate_api_key now new_key (i, u) s in
      ((tier_of_key then_at u.api_key s').1 ≡ denied invalid_api_key)
      × ((tier_of_key then_at new_key s').1 ≡ granted (value u.tier))
unfolding regenerate_api_key
regenerate_api_key_lem now then_at new_key i u s f a n o =
    let s' = regenerate_api_key now new_key (i, u) s in
    let other = NoneHas-lookup i new_key s.users f n in
    let other' : (new_key == u.api_key) ≡ false =
      ground (arith, eq_iff new_key u.api_key, eq_iff u.api_key new_key) in
    let ne : new_key ≢ u.api_key = ground (arith, eq_iff new_key u.api_key) in
    let old_gone : get then_at u.api_key s'.tiers ≡ none =
      rw (get-set_ex, other') (rw (get-delete, same_refl) refl) in
    let (j, found) = scalar-new_key i new_key s.users f a n in
    let new_there : get then_at new_key s'.tiers
        ≡ (if ltb then_at (now + lifetime) then some u.tier else none) =
      rw get-set_ex (rw same_refl refl) in
    (
      tier_of_key-unknown then_at u.api_key s' old_gone (
          scalar-NoneHas u.api_key s'.users
            (update_where-NoneHas i u.api_key new_key s.users ne o)),
      elim (Bool-cases (ltb then_at (now + lifetime))) [
        | inl q ↦ tier_of_key-cached then_at new_key s' (rw q at new_there)
        | inr q ↦ (tier_of_key-known then_at new_key s' (rw q at new_there) found).0
      ],
    )
