-- ===== src/Tests/Sockets.antt =====
-- The WebSocket registry with one client of tier "pro".
use funding_radar.Base.{
  ℕ, ◌-◌, ◌≤◌, String, ◌≡◌, refl, true, false, some, keep, ◌==◌, List, [], ◌∷◌, if◌then◌else◌, ◌&&◌,
  by_text, by_value,
}
use funding_radar.Base.Dict.{Dict, lookup, insert}
use funding_radar.Base.Text.{drop, remove_text}
use funding_radar.WebSockets.{
  WebSocketManager, ConnectionInfo, type_error, subscribe, broadcast, connection_hashable, or_empty,
  throttle_for, is_due, has_id, member, select_due, change_info,
}
use funding_radar.WebSockets.Silence.{
  Call, connected, subscribed, start, perform_all, broadcast_reaches_nobody, subscribe_raises,
}
use funding_radar.WebSockets.Stream.{
  Decoded, payload, malformed, subscribing, pong, connected as greeted, decode_token,
  is_valid_channel, funding_ws,
}
use funding_radar.WebSockets.Stream.Ends.{funding_ws_ends}
use funding_radar.WebSockets.Throttle.{mark_sent, select_due_lem, select_due_spacing}

abbrev client : ConnectionInfo
client = record { tier = "pro"; channels = "funding" ∷ []; last_sent = []; connected_at = 0 }

abbrev clients : Dict ℕ ConnectionInfo
clients = (1, client) ∷ []

abbrev calls : List Call
calls = connected 1 0 "pro" ∷ subscribed 1 ("funding" ∷ []) ∷ []

broadcast_reaches_nobody_example :
    (broadcast connection_hashable
      (λ ws. true)
      20_000_000_000
      "funding"
      (perform_all calls start)).2
    ≡ []
broadcast_reaches_nobody_example =
    broadcast_reaches_nobody calls (λ ws. true) 20_000_000_000 "funding"

subscribe_raises_run :
    ((subscribe connection_hashable 1 ("funding" ∷ []) start).1 ≡ type_error)
    × ((subscribe connection_hashable 1 ("funding" ∷ []) start).0.infos ≡ start.infos)
    × ((c : String)
        → or_empty (lookup c (subscribe connection_hashable 1 ("funding" ∷ []) start).0.channels)
          ≡ or_empty (lookup c start.channels))
subscribe_raises_run = subscribe_raises 1 "funding" [] start

select_due_lem_run :
    let chosen = has_id 1 (1 ∷ []) && is_due 20_000_000_000 "funding" client in
    (has_id 1 (select_due 20_000_000_000 "funding" (1 ∷ []) clients).1 ≡ chosen)
    × (lookup 1 (select_due 20_000_000_000 "funding" (1 ∷ []) clients).0
        ≡ some (if chosen then mark_sent 20_000_000_000 "funding" client else client))
unfolding lookup
select_due_lem_run = select_due_lem 20_000_000_000 "funding" (1 ∷ []) 1 clients client refl

first_sent : has_id 1 (select_due 20_000_000_000 "funding" (1 ∷ []) clients).1 ≡ true
unfolding select_due is_due throttle_for change_info member lookup insert
first_sent = refl

sent_again :
    has_id 1
      (select_due 35_000_000_000 "funding"
        (1 ∷ [])
        (select_due 20_000_000_000 "funding" (1 ∷ []) clients).0).1
    ≡ true
unfolding select_due is_due throttle_for change_info member lookup insert
sent_again = refl

select_due_spacing_run : throttle_for "pro" ≤ 35_000_000_000 - 20_000_000_000
unfolding lookup
select_due_spacing_run =
    select_due_spacing 20_000_000_000 35_000_000_000 "funding" (1 ∷ []) (1 ∷ []) 1 clients client
      refl first_sent sent_again

abbrev decode : String → Decoded
decode raw = if raw == "good" then payload "pro" "7" else malformed

tier_is_known : ((decode_token decode (some "good")).0 == "__expired__") ≡ false
unfolding decode_token
tier_is_known = refl

abbrev wanted : List String
wanted = "funding:BTC" ∷ "nonsense" ∷ []

one_is_valid : keep is_valid_channel wanted ≡ "funding:BTC" ∷ []
unfolding is_valid_channel drop remove_text
one_is_valid = refl

funding_ws_ends_example :
    (m' : WebSocketManager) × (funding_ws connection_hashable decode 5 1
        (some "good")
        (subscribing wanted ∷ pong ∷ [])
        start
      ≡ some (
        m',
        type_error,
        greeted (decode_token decode (some "good")).0 (decode_token decode (some "good")).1 ∷ [],
      ))
funding_ws_ends_example =
    funding_ws_ends decode 5 1 (some "good") wanted (pong ∷ []) start tier_is_known one_is_valid
