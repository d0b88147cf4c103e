-- ===== src/WebSockets.antt =====
-- app/core/websocket_manager.py: the registry of clients and their channels. A ConnectionInfo is
-- known by its `id(ws)`; all that were made stand in `infos`, also those no longer registered. The
-- lock makes each method one step. The class is a dataclass with `eq` and not frozen, to which Python
-- gives no hash: putting one in a set, or discarding one, raises TypeError. `hashable` says whether
-- the class has a hash, and `connection_hashable` that it has none; the callers hand the latter in.
pub mod Bridge
pub mod Silence
pub mod Stream
pub mod Throttle
use funding_radar.Base.{
  ℕ, ◌-◌, ◌*◌, String, Bool, true, false, not, Option, none, some, List, [], ◌∷◌, ◌++◌, ltb, length,
  if◌then◌else◌, ◌==◌, by_text, by_value, keep, get_or, map,
}
use funding_radar.Base.Dict.{Dict, lookup, contains, insert, erase, keys}
use funding_radar.Snapshot.{ticks_per_second}

abbrev pub connection_hashable : Bool
connection_hashable = false

pub record ConnectionInfo : Type 0 where
  pub tier : String
  pub channels : List String
  pub last_sent : Dict String ℕ
  pub connected_at : ℕ

pub record WebSocketManager : Type 0 where
  pub infos : Dict ℕ ConnectionInfo
  pub connections : List ℕ
  pub channels : Dict String (List ℕ)

pub data Outcome : Type 0 where
  done type_error : Outcome

-- `_THROTTLE_SECONDS.get(tier, 60.0)`
unfoldable pub throttle_for : String → ℕ
throttle_for tier =
    if tier == "pro"
    then 10 * ticks_per_second
    else if tier == "custom"
    then 1 * ticks_per_second
    else 60 * ticks_per_second

-- Sets as lists without repetition.
unfoldable pub member {ℓ} : {A : Type ℓ} → (A → A → Bool) → A → List A → Bool
member eq x [] = false
member eq x (y ∷ ys) = if eq x y then true else member eq x ys

abbrev pub has_id : ℕ → List ℕ → Bool
has_id = member (λ x y. x == y)

abbrev pub has_channel : String → List String → Bool
has_channel = member (λ x y. x == y)

abbrev pub add_id : ℕ → List ℕ → List ℕ
add_id x s = if has_id x s then s else x ∷ s

abbrev pub drop_id : ℕ → List ℕ → List ℕ
drop_id x s = keep (λ y. not (x == y)) s

abbrev pub add_channel : String → List String → List String
add_channel x s = if has_channel x s then s else x ∷ s

abbrev pub drop_channel : String → List String → List String
drop_channel x s = keep (λ y. not (x == y)) s

unfoldable pub connect : ℕ → ℕ → String → WebSocketManager → WebSocketManager
connect now ws tier m = record m {
  infos =
      insert ws (record { tier = tier; channels = []; last_sent = []; connected_at = now }) m.infos;
  connections = add_id ws m.connections;
}

-- `self._channels[ch]` is dropped once nobody is left in it.
unfoldable pub prune : String → Dict String (List ℕ) → Dict String (List ℕ)
prune ch channels = elim (lookup ch channels) [
  | none ↦ channels
  | some [] ↦ erase ch channels
  | some (x ∷ xs) ↦ channels
]

-- `self._channels.get(ch, set()).discard(info)`
unfoldable pub discard_from : ℕ → String → Dict String (List ℕ) → Dict String (List ℕ)
discard_from ws ch channels = elim (lookup ch channels) [
  | none ↦ channels
  | some subscribers ↦ insert ch (drop_id ws subscribers) channels
]

-- The loop of `disconnect` over the client's channels.
unfoldable pub leave_all :
    Bool → ℕ → List String → Dict String (List ℕ) → Dict String (List ℕ) × Outcome
leave_all hashable ws [] channels = (channels, done)
leave_all false ws (ch ∷ chs) channels = (channels, type_error)
leave_all true ws (ch ∷ chs) channels =
    leave_all true ws chs (prune ch (discard_from ws ch channels))

abbrev pub channels_of : ℕ → WebSocketManager → List String
channels_of ws m = elim (lookup ws m.infos) [ none ↦ [] | some info ↦ info.channels ]

unfoldable pub disconnect : Bool → ℕ → WebSocketManager → WebSocketManager × Outcome
unfolding leave_all
disconnect hashable ws m =
    let (channels, outcome) = leave_all hashable ws (channels_of ws m) m.channels in
    (record m { connections = drop_id ws m.connections; channels = channels }, outcome)

-- The client's own set of channels.
unfoldable pub change_info :
    ℕ → (ConnectionInfo → ConnectionInfo) → Dict ℕ ConnectionInfo → Dict ℕ ConnectionInfo
change_info ws f infos = elim (lookup ws infos) [
  | none ↦ infos
  | some info ↦ insert ws (f info) infos
]

abbrev pub or_empty : Option (List ℕ) → List ℕ
or_empty o = get_or o []

-- `subscribe`: the channel's set is made before the client is put in it.
unfoldable pub subscribe : Bool → ℕ → List String → WebSocketManager → WebSocketManager × Outcome
subscribe hashable ws [] m = (m, done)
subscribe false ws (ch ∷ chs) m =
    (record m { channels = insert ch (or_empty (lookup ch m.channels)) m.channels }, type_error)
subscribe true ws (ch ∷ chs) m = subscribe true ws chs (record m {
  channels = insert ch (add_id ws (or_empty (lookup ch m.channels))) m.channels;
  infos = change_info ws (λ i. record i { channels = add_channel ch i.channels }) m.infos;
})

unfoldable pub unsubscribe : Bool → ℕ → List String → WebSocketManager → WebSocketManager × Outcome
unsubscribe hashable ws [] m = (m, done)
unsubscribe false ws (ch ∷ chs) m = (m, type_error)
unsubscribe true ws (ch ∷ chs) m = unsubscribe true ws chs (record m {
  channels = prune ch (discard_from ws ch m.channels);
  infos = change_info ws (λ i. record i { channels = drop_channel ch i.channels }) m.infos;
})

-- One subscriber in `broadcast`: whether it is due, and `last_sent` after that.
unfoldable pub is_due : ℕ → String → ConnectionInfo → Bool
is_due now channel info =
    not (ltb (now - get_or (lookup channel info.last_sent) 0) (throttle_for info.tier))

-- The loop of `broadcast` over a snapshot of the subscribers: who is sent the text, in order.
unfoldable pub select_due :
    ℕ → String → List ℕ → Dict ℕ ConnectionInfo → Dict ℕ ConnectionInfo × List ℕ
select_due now channel [] infos = (infos, [])
select_due now channel (ws ∷ rest) infos =
    let sent_to =
      λ (info : ConnectionInfo). record info { last_sent = insert channel now info.last_sent } in
    let later = select_due now channel rest (change_info ws sent_to infos) in
    let skipped = select_due now channel rest infos in
    elim (lookup ws infos) [
      | none ↦ skipped
      | some info ↦ if is_due now channel info then (later.0, ws ∷ later.1) else skipped
    ]

-- The clean-up at the end of `broadcast` and of a round of the heartbeat; an exception ends it.
unfoldable pub disconnect_all : Bool → List ℕ → WebSocketManager → WebSocketManager × Outcome
disconnect_all hashable [] m = (m, done)
disconnect_all hashable (ws ∷ rest) m =
    let (m', outcome) = disconnect hashable ws m in
    let further = disconnect_all hashable rest m' in
    elim outcome [ done ↦ further | type_error ↦ (m', type_error) ]

-- `broadcast`, with the clients to whom the text was sent. `alive` says whether a send goes through.
unfoldable pub broadcast :
    Bool → (ℕ → Bool) → ℕ → String → WebSocketManager → WebSocketManager × Outcome × List ℕ
unfolding select_due disconnect_all
broadcast hashable alive now channel m =
    let subscribers = or_empty (lookup channel m.channels) in
    let (infos, due) = select_due now channel subscribers m.infos in
    let dead = keep (λ ws. not (alive ws)) due in
    let (m', outcome) = disconnect_all hashable dead (record m { infos = infos }) in
    (m', outcome, keep alive due)

-- One round of `_heartbeat_loop`.
unfoldable pub heartbeat : Bool → (ℕ → Bool) → WebSocketManager → WebSocketManager × Outcome
unfolding disconnect_all
heartbeat hashable alive m = disconnect_all hashable (keep (λ ws. not (alive ws)) m.connections) m

-- `stats`
unfoldable pub stats : WebSocketManager → ℕ × Dict String ℕ
stats m = (length m.connections, map (λ e. (e.0, length e.1)) m.channels)
