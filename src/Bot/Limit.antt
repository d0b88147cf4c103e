-- ===== src/Bot/Limit.antt =====
-- app/bot/telegram_bot.py: the limit on a user's active rules.
use funding_radar.Base.{
  ℕ, ◌+◌, ◌≤◌, ◌<◌, String, ◌≡◌, true, Option, List, [], ◌∷◌, ◌++◌, arith, if◌then◌else◌, ◌==◌,
  ◌&&◌, leb, map, by_text, by_value, Bool-cases, Option-cases, inl, inr, nat_beq_iff,
}
use funding_radar.Base.Text.{lower, upper, int, lstrip_of}
use funding_radar.Base.Float.{Floats, num}
use funding_radar.Accounts.{is_pro, scalar}
use funding_radar.Notifications.{NotificationRule}
use funding_radar.Bot.{
  State, cmd_start, create_rule, add_rule, cmd_setalert, remove_rule, deactivate, cmd_removealert,
  count, is_rule_of, max_rules, owns_chat, find_rule, is_own,
}

pub data Command : Type 0 where
  start setalert removealert : String → List String → Command

module _ (F : Floats) where
  open F use {Num}

  unfoldable pub perform : (String → Option Num) → Command → State F → State F
  perform float (start chat args) s = (cmd_start F chat args s).0
  perform float (setalert chat args) s = (cmd_setalert F float chat args s).0
  perform float (removealert chat args) s = (cmd_removealert F chat args s).0

  unfoldable pub perform_all : (String → Option Num) → List Command → State F → State F
  perform_all float [] s = s
  perform_all float (c ∷ cs) s = perform_all float cs (perform float c s)

  -- No user has more active rules than the limit.
  abbrev pub IsLimited : State F → Type 0
  IsLimited s = (user_id : ℕ) → count F user_id s.rules ≤ max_rules

  count-append :
      (user_id : ℕ) (rules : List (NotificationRule F)) (r : NotificationRule F)
      → count F user_id (rules ++ r ∷ [])
        ≡ count F user_id rules + (if is_rule_of F user_id r then 1 else 0)
  count-append user_id [] r = ground arith
  count-append user_id (q ∷ rest) r = ground (arith, count-append user_id rest r)

  count-deactivate :
      (user_id rule_id : ℕ) (rules : List (NotificationRule F))
      → count F user_id (deactivate F rule_id rules) ≤ count F user_id rules
  unfolding deactivate
  count-deactivate user_id rule_id [] = omega arith
  count-deactivate user_id rule_id (q ∷ rest) =
      ground (arith, count-deactivate user_id rule_id rest)

  cmd_start-IsLimited :
      (chat : String) (args : List String) (s : State F)
      → IsLimited s
      → IsLimited (cmd_start F chat args s).0
  unfolding cmd_start
  cmd_start-IsLimited chat [] s h user_id = h user_id
  cmd_start-IsLimited chat (key ∷ rest) s h user_id = ground (arith, h user_id)

  added-le :
      (user_id i n : ℕ)
      → (i ≡ user_id → n < max_rules)
      → n ≤ max_rules
      → n + (if (i == user_id) && true then 1 else 0) ≤ max_rules
  added-le user_id i n room h = elim (Bool-cases (i == user_id)) [
    | inl q ↦ let r = room ((nat_beq_iff i user_id).0 q) in rw q (omega arith)
    | inr q ↦ rw q (omega arith)
  ]

  create_rule-IsLimited :
      (chat token : String) (min_apr : Num) (exchanges : List String) (s : State F)
      → IsLimited s
      → IsLimited (create_rule F chat token min_apr exchanges s).0
  unfolding create_rule add_rule
  create_rule-IsLimited chat token min_apr exchanges s h user_id =
      elim (Option-cases (scalar (owns_chat chat) s.users)) [
        | inl q ↦ rw (q, create_rule) (h user_id)
        | inr ((i, u), q) ↦ elim (Bool-cases (is_pro u.tier)) [
          | inr q' ↦ rw (q, q', create_rule) (h user_id)
          | inl q' ↦ elim (Bool-cases (leb max_rules (count F i s.rules))) [
            | inl full ↦ rw (q, q', full, create_rule) (h user_id)
            | inr room ↦
                let few : count F i s.rules < max_rules = ground arith in
                rw (q, q', room, create_rule)
                  (rw count-append (
                    added-le user_id i (count F user_id s.rules) (λ same. rw (← same) few)
                      (h user_id)))
          ]
        ]
      ]

  cmd_setalert-IsLimited :
      (float : String → Option Num) (chat : String) (args : List String) (s : State F)
      → IsLimited s
      → IsLimited (cmd_setalert F float chat args s).0
  unfolding cmd_setalert
  cmd_setalert-IsLimited float chat [] s h user_id = h user_id
  cmd_setalert-IsLimited float chat (token ∷ []) s h user_id = h user_id
  cmd_setalert-IsLimited float chat (token ∷ apr ∷ exchanges) s h user_id =
      elim (Option-cases (float apr)) [
        | inl q ↦ rw (q, cmd_setalert) (h user_id)
        | inr (min_apr, q) ↦
            elim (Bool-cases (F.le (num F 0) min_apr && F.le min_apr (num F 1000))) [
              | inl q' ↦
                  rw (q, q', cmd_setalert)
                    (create_rule-IsLimited chat (upper token) min_apr (map lower exchanges) s h
                      user_id)
              | inr q' ↦ rw (q, q', cmd_setalert) (h user_id)
            ]
      ]

  remove_rule-IsLimited :
      (chat : String) (rule_id : ℕ) (s : State F)
      → IsLimited s
      → IsLimited (remove_rule F chat rule_id s).0
  unfolding remove_rule
  remove_rule-IsLimited chat rule_id s h user_id =
      elim (Bool-cases (find_rule F (λ r. (r.id == rule_id) && is_own F chat s.users r) s.rules)) [
        | inl q ↦
            rw (q, remove_rule)
              (let fewer = count-deactivate user_id rule_id s.rules in
                let before = h user_id in omega arith)
        | inr q ↦ rw (q, remove_rule) (h user_id)
      ]

  cmd_removealert-IsLimited :
      (chat : String) (args : List String) (s : State F)
      → IsLimited s
      → IsLimited (cmd_removealert F chat args s).0
  unfolding cmd_removealert
  cmd_removealert-IsLimited chat [] s h user_id = h user_id
  cmd_removealert-IsLimited chat (arg ∷ rest) s h user_id =
      elim (Option-cases (int (lstrip_of "#" arg))) [
        | inl q ↦ rw (q, cmd_removealert) (h user_id)
        | inr (rule_id, q) ↦
            rw (q, cmd_removealert) (remove_rule-IsLimited chat rule_id s h user_id)
      ]

  perform-IsLimited :
      (float : String → Option Num) (c : Command) (s : State F)
      → IsLimited s
      → IsLimited (perform float c s)
  unfolding perform
  perform-IsLimited float (start chat args) s h = cmd_start-IsLimited chat args s h
  perform-IsLimited float (setalert chat args) s h = cmd_setalert-IsLimited float chat args s h
  perform-IsLimited float (removealert chat args) s h = cmd_removealert-IsLimited chat args s h

  -- Whatever commands are sent, in one order, no user comes to have more than twenty active rules.
  pub perform_all-IsLimited :
      (float : String → Option Num) (cs : List Command) (s : State F)
      → IsLimited s
      → IsLimited (perform_all float cs s)
  unfolding perform_all
  perform_all-IsLimited float [] s h = h
  perform_all-IsLimited float (c ∷ cs) s h =
      perform_all-IsLimited float cs (perform float c s) (perform-IsLimited float c s h)
