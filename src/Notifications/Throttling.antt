-- ===== src/Notifications/Throttling.antt =====
-- app/services/notification_service.py: what the alerts of one pass send and leave blocked, by the
-- throttle of `_maybe_alert`.
use funding_radar.Base.{
  ℕ, ◌+◌, ◌≤◌, String, ◌≡◌, refl, true, false, none, some, List, [], ◌∷◌, ◌++◌, arith, ◌==◌, ◌&&◌,
  by_text, by_value, by_parts, Bool-cases, Option-cases, inl, inr, ◌⊎◌, All, pair_same_iff, All-imp,
  All-append,
}
use funding_radar.Base.Dict.{lookup, insert, lookup-insert, lookup-insert_self, lookup-erase}
use funding_radar.Base.Float.{Floats}
use funding_radar.Redis.{get, set_nx, set_ex, delete}
use funding_radar.Arbitrage.{ArbitrageResult}
use funding_radar.Notifications.{
  Attempt, sent, failed, raised, Throttle, throttle_ttl, Delivery, Rule, send_alert, maybe_alert,
  alert_all,
}

-- Every delivery on the token to the user is at a time or later.
abbrev pub After : ℕ → String → ℕ → List Delivery → Type 0
After user_id token at =
    All (λ (d : Delivery). ((d.user_id == user_id) && (d.token == token)) ≡ true → at ≤ d.at)

-- Between two deliveries on one token to one user the throttle's time has passed.
abbrev pub IsSpaced : List Delivery → Type 0
IsSpaced [] = Unit
IsSpaced (d ∷ rest) = After d.user_id d.token (d.at + throttle_ttl) rest × IsSpaced rest

-- Until a time there is no delivery: the key stays till then, or the clock is there.
abbrev pub Blocked : ℕ → String → ℕ → ℕ → Throttle → Type 0
Blocked user_id token at clock throttle =
    (at ≤ clock)
    ⊎ ((v : String) × (expiry : ℕ) × (lookup (user_id, token) throttle ≡ some (v, expiry))
        × (at ≤ expiry))

set_nx-none :
    (now : ℕ) (k : ℕ × String) (v : String) (ttl : ℕ) (d : Throttle)
    → get now k d ≡ none
    → set_nx now k v ttl d ≡ (insert k (v, now + ttl) d, true)
unfolding set_nx set_ex
set_nx-none now k v ttl d h = rw (h, set_nx) refl

set_nx-some :
    (now : ℕ) (k : ℕ × String) (v : String) (ttl : ℕ) (d : Throttle) {w : String}
    → get now k d ≡ some w
    → set_nx now k v ttl d ≡ (d, false)
unfolding set_nx
set_nx-some now k v ttl d h = rw (h, set_nx) refl

get-none :
    (now user_id at : ℕ) (token : String) (d : Throttle)
    → get now (user_id, token) d ≡ none
    → Blocked user_id token at now d
    → at ≤ now
unfolding get
get-none now user_id at token d h (inl q) = q
get-none now user_id at token d h (inr (v, expiry, q, le)) = let h' = rw q at h in ground arith

abbrev key_of : ℕ → String → ℕ × String
key_of user_id token = (user_id, token)

-- What a pass leaves blocked, and what it sends.
abbrev pub Passed : ℕ → Throttle → Throttle × List Delivery → Type 0
Passed now throttle (throttle', made) =
    IsSpaced made
    × All (λ (d : Delivery). Blocked d.user_id d.token (d.at + throttle_ttl) now throttle') made
    × ((u : ℕ) (t : String) (at : ℕ)
        → Blocked u t at now throttle
        → After u t at made × Blocked u t at now throttle')

pub After-append :
    (u : ℕ) (t : String) (at : ℕ) (ds es : List Delivery)
    → After u t at ds
    → After u t at es
    → After u t at (ds ++ es)
After-append u t at [] es h k = k
After-append u t at (d ∷ ds) es h k = (h.0, After-append u t at ds es h.1 k)

pub IsSpaced-append :
    (ds es : List Delivery)
    → IsSpaced ds
    → IsSpaced es
    → All (λ (d : Delivery). After d.user_id d.token (d.at + throttle_ttl) es) ds
    → IsSpaced (ds ++ es)
IsSpaced-append [] es h k a = k
IsSpaced-append (d ∷ ds) es h k a = (
  After-append d.user_id d.token (d.at + throttle_ttl) ds es h.0 a.0,
  IsSpaced-append ds es h.1 k a.1,
)

module _ (F : Floats) where
  -- What the end of an alert that may be sent does to what is blocked.
  allowed_lem :
      (now : ℕ) (r : Rule F) (attempt : Attempt) (throttle : Throttle) (u : ℕ) (t : String) (at : ℕ)
      → (at ≤ now) ⊎ (((key_of r.user_id r.token) == (key_of u t)) ≡ false)
      → Blocked u t at now throttle
      → let (throttle', made) =
          send_alert F now r attempt
            (insert (r.user_id, r.token) ("1", now + throttle_ttl) throttle, true) in
        After u t at made × Blocked u t at now throttle'
  unfolding send_alert delete
  allowed_lem now r sent throttle u t at (inl p) b = ((λ h. p, tt), inl p)
  allowed_lem now r failed throttle u t at (inl p) b = (tt, inl p)
  allowed_lem now r raised throttle u t at (inl p) b = (tt, inl p)
  allowed_lem now r sent throttle u t at (inr q) (inl p) = ((λ h. p, tt), inl p)
  allowed_lem now r failed throttle u t at (inr q) (inl p) = (tt, inl p)
  allowed_lem now r raised throttle u t at (inr q) (inl p) = (tt, inl p)
  allowed_lem now r sent throttle u t at (inr q) (inr (v, e, l, le)) =
      ((λ h. ground arith, tt), inr (v, e, rw lookup-insert (rw q l), le))
  allowed_lem now r failed throttle u t at (inr q) (inr (v, e, l, le)) =
      (tt, inr (v, e, rw lookup-erase (rw q (rw lookup-insert (rw q l))), le))
  allowed_lem now r raised throttle u t at (inr q) (inr (v, e, l, le)) =
      (tt, inr (v, e, rw lookup-insert (rw q l), le))

  -- What one alert does to what is blocked.
  maybe_alert_lem :
      (now : ℕ) (r : Rule F) (attempt : Attempt) (throttle : Throttle) (u : ℕ) (t : String) (at : ℕ)
      → Blocked u t at now throttle
      → let (throttle', made) = maybe_alert F now r attempt throttle in
        After u t at made × Blocked u t at now throttle'
  unfolding maybe_alert send_alert
  maybe_alert_lem now r attempt throttle u t at b =
      elim (Option-cases (get now (r.user_id, r.token) throttle)) [
        | inr (w, q) ↦ rw (set_nx-some now (r.user_id, r.token) "1" throttle_ttl throttle q) (tt, b)
        | inl q ↦
            let where_to : (at ≤ now) ⊎ (((key_of r.user_id r.token) == (key_of u t)) ≡ false) =
              elim (Bool-cases ((key_of r.user_id r.token) == (key_of u t))) [
                | inl same ↦
                    let same' : key_of r.user_id r.token ≡ key_of u t =
                      (pair_same_iff (r.user_id, r.token) (u, t)).0 same in
                    inl (get-none now u at t throttle (rw same' at q) b)
                | inr other ↦ inr other
              ] in
            rw (set_nx-none now (r.user_id, r.token) "1" throttle_ttl throttle q)
              (allowed_lem now r attempt throttle u t at where_to b)
      ]

  allowed-IsSpaced :
      (now : ℕ) (r : Rule F) (attempt : Attempt) (throttle : Throttle)
      → let (throttle', made) =
          send_alert F now r attempt
            (insert (r.user_id, r.token) ("1", now + throttle_ttl) throttle, true) in
        IsSpaced made
        × All (λ (d : Delivery). Blocked d.user_id d.token (d.at + throttle_ttl) now throttle') made
  unfolding send_alert
  allowed-IsSpaced now r sent throttle =
      let kept = lookup-insert_self (r.user_id, r.token) ("1", now + throttle_ttl) throttle in
      ((tt, tt), (inr ("1", now + throttle_ttl, kept, omega arith), tt))
  allowed-IsSpaced now r failed throttle = (tt, tt)
  allowed-IsSpaced now r raised throttle = (tt, tt)

  maybe_alert-IsSpaced :
      (now : ℕ) (r : Rule F) (attempt : Attempt) (throttle : Throttle)
      → let (throttle', made) = maybe_alert F now r attempt throttle in
        IsSpaced made
        × All (λ (d : Delivery). Blocked d.user_id d.token (d.at + throttle_ttl) now throttle') made
  unfolding maybe_alert send_alert
  maybe_alert-IsSpaced now r attempt throttle =
      elim (Option-cases (get now (r.user_id, r.token) throttle)) [
        | inr (w, q) ↦
            rw (set_nx-some now (r.user_id, r.token) "1" throttle_ttl throttle q) (tt, tt)
        | inl q ↦
            rw (set_nx-none now (r.user_id, r.token) "1" throttle_ttl throttle q)
              (allowed-IsSpaced now r attempt throttle)
      ]

  pub alert_all_lem :
      (now : ℕ) (attempt : Rule F → ArbitrageResult F → Attempt)
      (todo : List (Rule F × ArbitrageResult F)) (throttle : Throttle)
      → Passed now throttle (alert_all F now attempt todo throttle)
  unfolding alert_all
  alert_all_lem now attempt [] throttle = (tt, tt, λ u t at b. (tt, b))
  alert_all_lem now attempt ((r, o) ∷ rest) throttle =
      let throttle' = (maybe_alert F now r (attempt r o) throttle).0 in
      let made = (maybe_alert F now r (attempt r o) throttle).1 in
      let (spaced, held) = maybe_alert-IsSpaced now r (attempt r o) throttle in
      let (spaced', held', keeps) = alert_all_lem now attempt rest throttle' in
      let more = (alert_all F now attempt rest throttle').1 in
      let throttle'' = (alert_all F now attempt rest throttle').0 in
      (
        IsSpaced-append made more spaced spaced' (
            All-imp
              (λ (d : Delivery). Blocked d.user_id d.token (d.at + throttle_ttl) now throttle')
              (λ (d : Delivery). After d.user_id d.token (d.at + throttle_ttl) more)
              (λ d b. (keeps d.user_id d.token (d.at + throttle_ttl) b).0) made held),
        All-append
            (λ (d : Delivery). Blocked d.user_id d.token (d.at + throttle_ttl) now throttle'') made
            more
            (All-imp
              (λ (d : Delivery). Blocked d.user_id d.token (d.at + throttle_ttl) now throttle')
              (λ (d : Delivery). Blocked d.user_id d.token (d.at + throttle_ttl) now throttle'')
              (λ d b. (keeps d.user_id d.token (d.at + throttle_ttl) b).1) made held)
            held',
        λ u t at b.
            let (after, b') = maybe_alert_lem now r (attempt r o) throttle u t at b in
            let (after', b'') = keeps u t at b' in
            (After-append u t at made more after after', b''),
      )
