-- ===== src/WebSockets/Silence.antt =====
-- app/core/websocket_manager.py: what the missing hash of ConnectionInfo does.
use funding_radar.Base.{ℕ, String, ◌≡◌, refl, Bool, List, [], ◌∷◌, arith, by_text, by_value}
use text.Mathlib.TextEquality.{eq_iff}
use funding_radar.Base.Dict.{Dict, lookup, lookup-insert, lookup-nil}
use funding_radar.WebSockets.{
  WebSocketManager, type_error, connect, disconnect, subscribe, unsubscribe, broadcast, heartbeat,
  disconnect_all, leave_all, select_due, connection_hashable, or_empty, channels_of,
}

-- Every call that the endpoint, the bridge and the heartbeat can make.
pub data Call : Type 0 where
  connected : ℕ → ℕ → String → Call
  disconnected : ℕ → Call
  subscribed unsubscribed : ℕ → List String → Call
  broadcasted : (ℕ → Bool) → ℕ → String → Call
  pinged : (ℕ → Bool) → Call

abbrev pub start : WebSocketManager
start = record { infos = []; connections = []; channels = [] }

unfoldable pub perform : Call → WebSocketManager → WebSocketManager
perform (connected ws now tier) m = connect now ws tier m
perform (disconnected ws) m = (disconnect connection_hashable ws m).0
perform (subscribed ws chs) m = (subscribe connection_hashable ws chs m).0
perform (unsubscribed ws chs) m = (unsubscribe connection_hashable ws chs m).0
perform (broadcasted alive now ch) m = (broadcast connection_hashable alive now ch m).0
perform (pinged alive) m = (heartbeat connection_hashable alive m).0

unfoldable pub perform_all : List Call → WebSocketManager → WebSocketManager
perform_all [] m = m
perform_all (c ∷ cs) m = perform_all cs (perform c m)

-- No channel has a subscriber.
abbrev IsSilent : WebSocketManager → Type 0
IsSilent m = (ch : String) → or_empty (lookup ch m.channels) ≡ []

leave_all-channels :
    (ws : ℕ) (chs : List String) (channels : Dict String (List ℕ))
    → (leave_all connection_hashable ws chs channels).0 ≡ channels
unfolding leave_all
leave_all-channels ws [] channels = refl
leave_all-channels ws (ch ∷ chs) channels = refl

disconnect-channels :
    (ws : ℕ) (m : WebSocketManager) → (disconnect connection_hashable ws m).0.channels ≡ m.channels
unfolding disconnect
disconnect-channels ws m = leave_all-channels ws (channels_of ws m) m.channels

disconnect_all-channels :
    (dead : List ℕ) (m : WebSocketManager)
    → (disconnect_all connection_hashable dead m).0.channels ≡ m.channels
unfolding disconnect_all
disconnect_all-channels [] m = refl
disconnect_all-channels (ws ∷ rest) m = ground (
  arith,
  disconnect-channels ws m,
  disconnect_all-channels rest (disconnect connection_hashable ws m).0,
)

subscribe-IsSilent :
    (ws : ℕ) (chs : List String) (m : WebSocketManager)
    → IsSilent m
    → IsSilent (subscribe connection_hashable ws chs m).0
unfolding subscribe
subscribe-IsSilent ws [] m h = h
subscribe-IsSilent ws (c ∷ chs) m h = λ ch.
    ground (
      arith,
      eq_iff c ch,
      h c,
      h ch,
      lookup-insert c ch (or_empty (lookup c m.channels)) m.channels,
    )

unsubscribe-channels :
    (ws : ℕ) (chs : List String) (m : WebSocketManager)
    → (unsubscribe connection_hashable ws chs m).0 ≡ m
unfolding unsubscribe
unsubscribe-channels ws [] m = refl
unsubscribe-channels ws (ch ∷ chs) m = refl

perform-IsSilent : (c : Call) (m : WebSocketManager) → IsSilent m → IsSilent (perform c m)
unfolding perform
perform-IsSilent (connected ws now tier) m h = λ ch. unfold connect in h ch
perform-IsSilent (disconnected ws) m h = λ ch. rw disconnect-channels (h ch)
perform-IsSilent (subscribed ws chs) m h = subscribe-IsSilent ws chs m h
perform-IsSilent (unsubscribed ws chs) m h = λ ch. rw unsubscribe-channels (h ch)
perform-IsSilent (broadcasted alive now c) m h =
    λ ch. unfold broadcast in rw disconnect_all-channels (h ch)
perform-IsSilent (pinged alive) m h = λ ch. unfold heartbeat in rw disconnect_all-channels (h ch)

perform_all-IsSilent :
    (cs : List Call) (m : WebSocketManager) → IsSilent m → IsSilent (perform_all cs m)
unfolding perform_all
perform_all-IsSilent [] m h = h
perform_all-IsSilent (c ∷ cs) m h = perform_all-IsSilent cs (perform c m) (perform-IsSilent c m h)

-- Whatever the clients, the bridge and the heartbeat have done, a broadcast reaches nobody.
pub broadcast_reaches_nobody :
    (cs : List Call) (alive : ℕ → Bool) (now : ℕ) (channel : String)
    → (broadcast connection_hashable alive now channel (perform_all cs start)).2 ≡ []
unfolding broadcast select_due
broadcast_reaches_nobody cs alive now channel =
    rw (perform_all-IsSilent cs start (λ ch. rw lookup-nil) channel)

-- A request for one channel or more raises, and registers the client nowhere.
pub subscribe_raises :
    (ws : ℕ) (ch : String) (chs : List String) (m : WebSocketManager)
    → ((subscribe connection_hashable ws (ch ∷ chs) m).1 ≡ type_error)
      × ((subscribe connection_hashable ws (ch ∷ chs) m).0.infos ≡ m.infos)
      × ((c : String)
          → or_empty (lookup c (subscribe connection_hashable ws (ch ∷ chs) m).0.channels)
            ≡ or_empty (lookup c m.channels))
unfolding subscribe
subscribe_raises ws ch chs m = (
  refl,
  refl,
  λ c. ground (arith, eq_iff ch c, lookup-insert ch c (or_empty (lookup ch m.channels)) m.channels),
)
