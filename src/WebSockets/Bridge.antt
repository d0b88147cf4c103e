-- ===== src/WebSockets/Bridge.antt =====
-- app/core/redis_ws_bridge.py: what a message of Redis makes of the registry. A payload is its channel, its
-- type and its token; `alive` says to which clients a text gets through. An error ends the dispatch.
use funding_radar.Base.{
  ℕ, String, Bool, Option, none, some, List, [], ◌∷◌, if◌then◌else◌, ◌==◌, by_text,
}
use Prim.Native.String.{◌++◌ as join}
use funding_radar.Base.Text.{upper}
use funding_radar.WebSockets.{WebSocketManager, Outcome, done, type_error, broadcast}

-- The clients that a text on a channel was sent to.
pub record Sent : Type 0 where
  pub channel : String
  pub clients : List ℕ

-- `_dispatch_funding_update`; a token that is missing is "".
unfoldable pub dispatch_funding_update :
    Bool → (ℕ → Bool) → ℕ → String → WebSocketManager → WebSocketManager × Outcome × List Sent
dispatch_funding_update hashable alive now token m =
    let (m', outcome, reached) = broadcast hashable alive now "funding" m in
    let general : Sent = record { channel = "funding"; clients = reached } in
    let (m'', outcome', reached') =
      broadcast hashable alive now (join "funding:" (upper token)) m' in
    let own : Sent = record { channel = join "funding:" (upper token); clients = reached' } in
    elim outcome [
      | type_error ↦ (m', type_error, general ∷ [])
      | done ↦ if token == "" then (m', done, general ∷ []) else (m'', outcome', general ∷ own ∷ [])
    ]

unfoldable pub broadcast_on :
    Bool → (ℕ → Bool) → ℕ → String → WebSocketManager → WebSocketManager × Outcome × List Sent
broadcast_on hashable alive now channel m =
    let (m', outcome, reached) = broadcast hashable alive now channel m in
    (m', outcome, record { channel = channel; clients = reached } ∷ [])

-- `_dispatch`: `token` is that of the data, `none` where the text is no JSON.
unfoldable pub dispatch :
    Bool
    → (ℕ → Bool)
    → ℕ
    → String
    → Option String
    → WebSocketManager
    → WebSocketManager × Outcome × List Sent
dispatch hashable alive now redis_channel none m = (m, done, [])
dispatch hashable alive now redis_channel (some token) m =
    if redis_channel == "funding:updates"
    then dispatch_funding_update hashable alive now token m
    else if redis_channel == "arbitrage:updates"
    then broadcast_on hashable alive now "arbitrage" m
    else if redis_channel == "funding:ranked:updates"
    then broadcast_on hashable alive now "funding" m
    else (m, done, [])
