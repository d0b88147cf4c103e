-- ===== src/Accounts/Login.antt =====
-- app/api/v1/auth.py, `register` and `login`, with hash_password and verify_password of
-- app/services/auth_service.py. `hashpw` and `checkpw` are bcrypt's, the latter false where it raises; the
-- new API key is handed in. Of a token its subject and tier are kept.
use Prim.Native.String.{len}
use funding_radar.Base.{
  ℕ, String, ◌≡◌, ◌≢◌, refl, Bool, true, false, Option, none, some, [], ◌∷◌, ◌++◌, arith,
  if◌then◌else◌, ◌==◌, ◌&&◌, ltb, by_text, by_value, same_refl,
}
use text.Mathlib.TextEquality.{eq_iff}
use funding_radar.Accounts.{free, User, Users, UserTier, value, scalar}

pub record Tokens : Type 0 where
  pub subject : ℕ
  pub tier : String

pub data Reply : Type 0 where
  tokens : Tokens → Reply
  email_taken password_too_long bad_credentials : Reply

abbrev pub has_email : String → ℕ → User → Bool
has_email email i u = u.email == email

abbrev pub is_login : String → ℕ → User → Bool
is_login email i u = (u.email == email) && u.is_active

-- `hash_password`, none for its ValueError
unfoldable pub hash_password : (String → String) → String → Option String
hash_password hashpw plain = if ltb 72 (len plain) then none else some (hashpw plain)

abbrev pub tokens_for : ℕ → UserTier → Reply
tokens_for id tier = tokens (record { subject = id; tier = value tier })

abbrev pub new_user : String → String → String → User
new_user email hashed key = record {
  email = email;
  hashed_password = some hashed;
  telegram_chat_id = none;
  tier = free;
  api_key = key;
  stripe_customer_id = none;
  is_active = true;
}

-- `register`, with the id that the database gives.
unfoldable pub register : (String → String) → String → String → String → ℕ → Users → Users × Reply
register hashpw email password key id users = elim (scalar (has_email email) users) [
  | some existing ↦ (users, email_taken)
  | none ↦ elim (hash_password hashpw password) [
    | none ↦ (users, password_too_long)
    | some hashed ↦ (users ++ (id, new_user email hashed key) ∷ [], tokens_for id free)
  ]
]

-- `login` on the user that was found.
unfoldable pub check_password : (String → String → Bool) → String → Option (ℕ × User) → Reply
check_password checkpw password none = bad_credentials
check_password checkpw password (some (i, u)) = elim u.hashed_password [
  | none ↦ bad_credentials
  | some hashed ↦
      if hashed == ""
      then bad_credentials
      else if checkpw password hashed
      then tokens_for i u.tier
      else bad_credentials
]

unfoldable pub login : (String → String → Bool) → String → String → Users → Reply
login checkpw email password users = check_password checkpw password (scalar (is_login email) users)

scalar-new :
    (email : String) (id : ℕ) (u : User) (users : Users)
    → scalar (has_email email) users ≡ none
    → is_login email id u ≡ true
    → scalar (is_login email) (users ++ (id, u) ∷ []) ≡ some (id, u)
unfolding scalar
scalar-new email id u [] h k = rw k refl
scalar-new email id u ((j, w) ∷ rest) h k = ground (arith, scalar-new email id u rest)

-- After a registration with an address that no user has and a password that is not too long, a log-in with
-- that address and any password gets tokens of the new user on the tier free exactly if bcrypt accepts the
-- password for the hash, and is refused else, provided that bcrypt's hash is not empty.
pub login-register :
    (hashpw : String → String) (checkpw : String → String → Bool)
    (email password attempt key : String) (id : ℕ) (users : Users)
    → hashpw password ≢ ""
    → scalar (has_email email) users ≡ none
    → ltb 72 (len password) ≡ false
    → login checkpw email attempt (register hashpw email password key id users).0
      ≡ (if checkpw attempt (hashpw password) then tokens_for id free else bad_credentials)
unfolding login register hash_password check_password
login-register hashpw checkpw email password attempt key id users n new short =
    let full : (hashpw password == "") ≡ false = ground (arith, eq_iff (hashpw password) "") in
    let mine : is_login email id (new_user email (hashpw password) key) ≡ true =
      rw same_refl refl in
    rw (new, short, register, hash_password)
      (rw (scalar-new email id (new_user email (hashpw password) key) users new mine, login)
        (rw (full, check_password) refl))
