-- ===== src/Bot.antt =====
-- app/bot/telegram_bot.py: the commands that change the users and their rules, on the tables of the
-- database and the cache of rules. `float` is Python's on a text, none for a ValueError. A reply stands
-- for its text.
pub mod Limit
pub mod Ownership
use funding_radar.Base.{
  ℕ, ◌+◌, String, Bool, true, false, not, Option, none, some, List, [], ◌∷◌, ◌++◌, if◌then◌else◌,
  ◌==◌, ◌&&◌, leb, length, keep, map, by_text, by_value,
}
use funding_radar.Base.Text.{lower, upper, int, lstrip_of}
use funding_radar.Base.Float.{Floats, num}
use funding_radar.Accounts.{UserTier, User, Users, is_pro, scalar, update_where, has_key}
use funding_radar.Notifications.{NotificationRule, Service, invalidate_rules_cache}

pub data Reply : Type 0 where
  welcome invalid_api_key linked : Reply
  usage not_a_number out_of_range not_linked pro_only too_many created : Reply
  not_found removed : Reply
  no_alerts : Reply
  listed : List ℕ → Reply

abbrev pub max_rules : ℕ
max_rules = 20

abbrev pub is_chat : String → User → Bool
is_chat chat u = elim u.telegram_chat_id [ none ↦ false | some c ↦ c == chat ]

abbrev pub owns_chat : String → ℕ → User → Bool
owns_chat chat i u = is_chat chat u && u.is_active

module _ (F : Floats) where
  open F use {Num, le}

  -- The database and the notification service's state; `next_id` is the sequence of the rules' table.
  pub record State : Type 0 where
    pub users : Users
    pub rules : List (NotificationRule F)
    pub next_id : ℕ
    pub service : Service F

  abbrev invalidated : State → State
  invalidated s = record s { service = invalidate_rules_cache F s.service }

  -- `/start`
  unfoldable pub cmd_start : String → List String → State → State × Reply
  cmd_start chat [] s = (s, welcome)
  cmd_start chat (key ∷ rest) s =
      if key == "" then (s, welcome) else elim (scalar (has_key key) s.users) [
        | none ↦ (s, invalid_api_key)
        | some (i, u) ↦ (
          invalidated (record s {
            users =
                update_where (λ j w. j == i) (λ w. record w { telegram_chat_id = some chat })
                  s.users;
          }),
          linked,
        )
      ]

  abbrev pub is_rule_of : ℕ → NotificationRule F → Bool
  is_rule_of user_id r = (r.user_id == user_id) && r.is_active

  -- `select(func.count(…)).where(…)`
  abbrev pub count : ℕ → List (NotificationRule F) → ℕ
  count user_id rules = length (keep (is_rule_of user_id) rules)

  unfoldable pub add_rule : ℕ → String → Num → List String → State → State
  add_rule user_id token min_apr exchanges s = invalidated (record s {
    rules =
        s.rules
        ++ record {
          id = s.next_id;
          user_id = user_id;
          token_symbol = token;
          min_apr = min_apr;
          exchanges = exchanges;
          is_active = true;
        }
          ∷ [];
    next_id = s.next_id + 1;
  })

  -- `/setalert` after its arguments are read.
  unfoldable pub create_rule : String → String → Num → List String → State → State × Reply
  unfolding add_rule
  create_rule chat token min_apr exchanges s = elim (scalar (owns_chat chat) s.users) [
    | none ↦ (s, not_linked)
    | some (i, u) ↦
        if not (is_pro u.tier)
        then (s, pro_only)
        else if leb max_rules (count i s.rules)
        then (s, too_many)
        else (add_rule i token min_apr exchanges s, created)
  ]

  -- `/setalert`
  unfoldable pub cmd_setalert : (String → Option Num) → String → List String → State → State × Reply
  unfolding create_rule
  cmd_setalert float chat [] s = (s, usage)
  cmd_setalert float chat (token ∷ []) s = (s, usage)
  cmd_setalert float chat (token ∷ apr ∷ exchanges) s = elim (float apr) [
    | none ↦ (s, not_a_number)
    | some min_apr ↦
        if le (num F 0) min_apr && le min_apr (num F 1000)
        then create_rule chat (upper token) min_apr (map lower exchanges) s
        else (s, out_of_range)
  ]

  -- Whether the user of a rule has linked the chat.
  unfoldable pub is_linked : String → ℕ → Users → Bool
  is_linked chat user_id [] = false
  is_linked chat user_id ((i, u) ∷ rest) =
      if (i == user_id) && is_chat chat u then true else is_linked chat user_id rest

  -- The rows that `/alerts` lists and among which `/removealert` looks.
  abbrev pub is_own : String → Users → NotificationRule F → Bool
  is_own chat users r = r.is_active && is_linked chat r.user_id users

  unfoldable pub find_rule : (NotificationRule F → Bool) → List (NotificationRule F) → Bool
  find_rule p [] = false
  find_rule p (r ∷ rest) = if p r then true else find_rule p rest

  unfoldable pub deactivate : ℕ → List (NotificationRule F) → List (NotificationRule F)
  deactivate rule_id [] = []
  deactivate rule_id (r ∷ rest) =
      (if r.id == rule_id then record r { is_active = false } else r) ∷ deactivate rule_id rest

  unfoldable pub remove_rule : String → ℕ → State → State × Reply
  unfolding deactivate
  remove_rule chat rule_id s =
      if find_rule (λ r. (r.id == rule_id) && is_own chat s.users r) s.rules
      then (invalidated (record s { rules = deactivate rule_id s.rules }), removed)
      else (s, not_found)

  -- `/removealert`
  unfoldable pub cmd_removealert : String → List String → State → State × Reply
  unfolding remove_rule
  cmd_removealert chat [] s = (s, usage)
  cmd_removealert chat (arg ∷ rest) s = elim (int (lstrip_of "#" arg)) [
    | none ↦ (s, not_a_number)
    | some rule_id ↦ remove_rule chat rule_id s
  ]

  abbrev rule_ids : List (NotificationRule F) → List ℕ
  rule_ids [] = []
  rule_ids (r ∷ rest) = r.id ∷ rule_ids rest

  -- `/alerts`: the rules are listed in the order of the table, which is that of their ids.
  unfoldable pub cmd_alerts : String → State → Reply
  cmd_alerts chat s = elim (keep (is_own chat s.users) s.rules) [
    | [] ↦ no_alerts
    | r ∷ rest ↦ listed (rule_ids (r ∷ rest))
  ]
