-- ===== src/Notifications/Rules.antt =====
-- app/services/notification_service.py: which rules are loaded.
use funding_radar.Base.{
  ℕ, String, ◌≡◌, ◌↔◌, refl, true, some, List, [], ◌∷◌, arith, by_text, by_value, Option-cases, inl,
  inr, nat_beq_iff, Among, Among-append_left, Among-append_right, Among-of_append,
}
use funding_radar.Base.Float.{Floats}
use funding_radar.Accounts.{User, Users, is_pro}
use funding_radar.Notifications.{
  NotificationRule, Rule, joined, with_users, row, load_rules_from_db,
}

module _ (F : Floats) where
  -- A rule that is active, of an active user on the tier pro or custom who has linked a chat.
  abbrev pub IsLoaded : NotificationRule F → ℕ → User → Rule F → Type 0
  IsLoaded n i u r =
      (chat : String) × (u.telegram_chat_id ≡ some chat)
      × (n.user_id ≡ i)
      × (n.is_active ≡ true)
      × (u.is_active ≡ true)
      × (is_pro u.tier ≡ true)
      × (row F n chat ≡ r)

  joined-to :
      (n : NotificationRule F) (i : ℕ) (u : User) (r : Rule F)
      → Among r (joined F n (i, u))
      → IsLoaded n i u r
  unfolding joined
  joined-to n i u r h = elim (Option-cases u.telegram_chat_id) [
    | inl q ↦ let h' : ⊥ = rw (q, joined) at h in elim h' [ ]
    | inr (chat, q) ↦ ground (arith, nat_beq_iff n.user_id i)
  ]

  joined-of :
      (n : NotificationRule F) (i : ℕ) (u : User) (r : Rule F)
      → IsLoaded n i u r
      → Among r (joined F n (i, u))
  unfolding joined
  joined-of n i u r (chat, q, own, active, here, paid, same) =
      rw (q, active, here, paid, (nat_beq_iff n.user_id i).1 own) (inl same)

  with_users-to :
      (n : NotificationRule F) (users : Users) (r : Rule F)
      → Among r (with_users F n users)
      → (i : ℕ) × (u : User) × Among (i, u) users × IsLoaded n i u r
  unfolding with_users
  with_users-to n [] r h = elim h [ ]
  with_users-to n ((i, u) ∷ rest) r h =
      elim (Among-of_append r (joined F n (i, u)) (with_users F n rest) h) [
        | inl k ↦ (i, u, inl refl, joined-to n i u r k)
        | inr k ↦ let (j, w, there, q) = with_users-to n rest r k in (j, w, inr there, q)
      ]

  with_users-of :
      (n : NotificationRule F) (users : Users) (r : Rule F) (i : ℕ) (u : User)
      → Among (i, u) users
      → IsLoaded n i u r
      → Among r (with_users F n users)
  unfolding with_users
  with_users-of n [] r i u h q = elim h [ ]
  with_users-of n ((j, w) ∷ rest) r i u (inl same) q =
      let there : Among r (joined F n (j, w)) = rw same (joined-of n i u r q) in
      Among-append_left r (joined F n (j, w)) (with_users F n rest) there
  with_users-of n ((j, w) ∷ rest) r i u (inr h) q =
      Among-append_right r (joined F n (j, w)) (with_users F n rest)
        (with_users-of n rest r i u h q)

  load-to :
      (table : List (NotificationRule F)) (users : Users) (r : Rule F)
      → Among r (load_rules_from_db F table users)
      → (n : NotificationRule F) × (i : ℕ) × (u : User) × Among n table
        × Among (i, u) users
        × IsLoaded n i u r
  unfolding load_rules_from_db
  load-to [] users r h = elim h [ ]
  load-to (n ∷ rest) users r h =
      elim (Among-of_append r (with_users F n users) (load_rules_from_db F rest users) h) [
        | inl k ↦ let (i, u, there, q) = with_users-to n users r k in (n, i, u, inl refl, there, q)
        | inr k ↦
            let (m, i, u, listed, there, q) = load-to rest users r k in
            (m, i, u, inr listed, there, q)
      ]

  load-of :
      (table : List (NotificationRule F)) (users : Users) (r : Rule F) (n : NotificationRule F)
      (i : ℕ) (u : User)
      → Among n table
      → Among (i, u) users
      → IsLoaded n i u r
      → Among r (load_rules_from_db F table users)
  unfolding load_rules_from_db
  load-of [] users r n i u h there q = elim h [ ]
  load-of (m ∷ rest) users r n i u (inl same) there q =
      Among-append_left r (with_users F m users) (load_rules_from_db F rest users)
        (rw same (with_users-of n users r i u there q))
  load-of (m ∷ rest) users r n i u (inr h) there q =
      Among-append_right r (with_users F m users) (load_rules_from_db F rest users)
        (load-of rest users r n i u h there q)

  -- The rules that are loaded are exactly the active ones of the active users on the tier pro or custom
  -- who have linked a chat.
  pub load_rules_from_db_lem :
      (table : List (NotificationRule F)) (users : Users) (r : Rule F)
      → Among r (load_rules_from_db F table users) ↔ (
          (n : NotificationRule F) × (i : ℕ) × (u : User) × Among n table
          × Among (i, u) users
          × IsLoaded n i u r)
  load_rules_from_db_lem table users r =
      (load-to table users r, λ (n, i, u, h, there, q). load-of table users r n i u h there q)
