-- ===== src/Bot/Ownership.antt =====
-- app/bot/telegram_bot.py: whose rules a chat can remove.
use funding_radar.Base.{
  ℕ, String, ◌≡◌, refl, sym, ◌∙◌, Bool, true, false, List, [], ◌∷◌, arith, ◌==◌, ◌&&◌, ap, by_text,
  by_value, Bool-cases, Option-cases, inl, inr, nat_beq_iff, Among,
}
use funding_radar.Base.Text.{int, lstrip_of}
use funding_radar.Base.Float.{Floats}
use funding_radar.Notifications.{NotificationRule}
use funding_radar.Bot.{State, find_rule, is_own, deactivate, remove_rule, cmd_removealert}

module _ (F : Floats) where
  find_rule_lem :
      (p : NotificationRule F → Bool) (rules : List (NotificationRule F))
      → find_rule F p rules ≡ true
      → (q : NotificationRule F) × Among q rules × (p q ≡ true)
  unfolding find_rule
  find_rule_lem p [] h = cc
  find_rule_lem p (r ∷ rest) h = elim (Bool-cases (p r)) [
    | inl q ↦ (r, inl refl, q)
    | inr q ↦ let (w, there, holds) = find_rule_lem p rest (rw q at h) in (w, inr there, holds)
  ]

  deactivate-Among :
      (rule_id : ℕ) (rules : List (NotificationRule F)) (r : NotificationRule F)
      → (r.id == rule_id) ≡ false
      → Among r rules
      → Among r (deactivate F rule_id rules)
  unfolding deactivate
  deactivate-Among rule_id [] r n h = h
  deactivate-Among rule_id (q ∷ rest) r n (inl same) =
      let n' : (q.id == rule_id) ≡ false = rw same n in rw n' (inl same)
  deactivate-Among rule_id (q ∷ rest) r n (inr h) = inr (deactivate-Among rule_id rest r n h)

  -- No other rule has a rule's id.
  abbrev pub IsOnly : NotificationRule F → List (NotificationRule F) → Type 0
  IsOnly r rules = (q : NotificationRule F) → Among q rules → q.id ≡ r.id → q ≡ r

  remove_rule-Among :
      (chat : String) (rule_id : ℕ) (s : State F) (r : NotificationRule F)
      → Among r s.rules
      → IsOnly r s.rules
      → is_own F chat s.users r ≡ false
      → Among r (remove_rule F chat rule_id s).0.rules
  unfolding remove_rule
  remove_rule-Among chat rule_id s r there only foreign =
      elim (Bool-cases (find_rule F (λ q. (q.id == rule_id) && is_own F chat s.users q) s.rules)) [
        | inr h ↦ rw (h, remove_rule) there
        | inl h ↦
            let (q, listed, holds) =
              find_rule_lem (λ q. (q.id == rule_id) && is_own F chat s.users q) s.rules h in
            let own : is_own F chat s.users q ≡ true = ground arith in
            let here : (q.id == rule_id) ≡ true = ground arith in
            let other : (r.id == rule_id) ≡ false = elim (Bool-cases (r.id == rule_id)) [
              | inr n ↦ n
              | inl e ↦
                  let same : q ≡ r =
                    only q listed
                      ((nat_beq_iff q.id rule_id).0 here ∙ sym ((nat_beq_iff r.id rule_id).0 e)) in
                  let clash : true ≡ false =
                    sym own
                    ∙ ap (λ (x : NotificationRule F). is_own F chat s.users x) same
                    ∙ foreign in
                  cc
            ] in
            rw (h, remove_rule) (deactivate-Among rule_id s.rules r other there)
      ]

  -- Whatever a chat sends to remove a rule, a rule that is not an active one of a user who has linked the
  -- chat stays as it is, if no other rule has its id.
  pub cmd_removealert-Among :
      (chat : String) (args : List String) (s : State F) (r : NotificationRule F)
      → Among r s.rules
      → IsOnly r s.rules
      → is_own F chat s.users r ≡ false
      → Among r (cmd_removealert F chat args s).0.rules
  unfolding cmd_removealert
  cmd_removealert-Among chat [] s r there only foreign = there
  cmd_removealert-Among chat (arg ∷ rest) s r there only foreign =
      elim (Option-cases (int (lstrip_of "#" arg))) [
        | inl q ↦ rw (q, cmd_removealert) there
        | inr (rule_id, q) ↦
            rw (q, cmd_removealert) (remove_rule-Among chat rule_id s r there only foreign)
      ]
