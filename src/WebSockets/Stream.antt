-- ===== src/WebSockets/Stream.antt =====
-- app/api/ws/funding_stream.py: a client's session, with the registry. Python's `isalnum` is that of ASCII
-- letters and digits.
pub mod Ends
use Prim.Native.String.{[] as empty, ◌∷◌ as front}
use Prim.Native.Char.{code}
use funding_radar.Base.{
  ℕ, suc, String, Bool, true, false, not, Option, none, some, List, [], ◌∷◌, ◌++◌, ◌&&◌, ◌||◌,
  if◌then◌else◌, leb, keep, ◌==◌, by_text, inl, inr, Bool-cases,
}
use funding_radar.Base.Text.{starts_with, drop, remove_text}
use funding_radar.WebSockets.{
  WebSocketManager, Outcome, done, type_error, connect, disconnect, subscribe, unsubscribe,
  channels_of,
}

abbrev size : String → ℕ
size empty = 0
size (front c s) = suc (size s)

abbrev all_alnum : String → Bool
all_alnum empty = true
all_alnum (front c s) =
    (leb 48 (code c) && leb (code c) 57
      || leb 65 (code c) && leb (code c) 90
      || leb 97 (code c) && leb (code c) 122)
    && all_alnum s

-- `s.isalnum()`
abbrev is_alnum : String → Bool
is_alnum s = not (s == "") && all_alnum s

unfoldable pub is_valid_channel : String → Bool
is_valid_channel ch =
    if ch == "funding" || ch == "arbitrage"
    then true
    else if starts_with "funding:" ch
    then leb 1 (size (drop 8 ch))
      && leb (size (drop 8 ch)) 12
      && is_alnum (remove_text "-" 1 0 (drop 8 ch))
    else false

-- What a token decodes to; the tier is "free" where the payload has none.
pub data Decoded : Type 0 where
  expired malformed : Decoded
  payload : String → String → Decoded

-- `_decode_token`: the tier and the user's id. `decode` is the library's; a token is none where it is
-- missing or empty.
unfoldable pub decode_token : (String → Decoded) → Option String → String × Option String
decode_token decode none = ("anonymous", none)
decode_token decode (some raw) = elim (decode raw) [
  | expired ↦ ("__expired__", none)
  | malformed ↦ ("anonymous", none)
  | payload tier user_id ↦ (tier, some user_id)
]

-- A text of the client: no JSON, an action with its channels, or the answer to a ping.
pub data Incoming : Type 0 where
  no_json pong : Incoming
  subscribing unsubscribing : List String → Incoming
  unknown : String → Incoming

pub data Reply : Type 0 where
  connected : String → Option String → Reply
  subscribed : List String → List String → List String → Reply
  unsubscribed : List String → List String → Reply
  error : String → Reply

-- `if valid: await manager.subscribe(info, valid)`
abbrev pub join_valid : Bool → ℕ → List String → WebSocketManager → WebSocketManager × Outcome
join_valid hashable ws [] m = (m, done)
join_valid hashable ws (ch ∷ chs) m = subscribe hashable ws (ch ∷ chs) m

-- One turn of the loop: the registry, whether it raised, and the answers.
unfoldable pub turn :
    Bool → ℕ → Incoming → WebSocketManager → WebSocketManager × Outcome × List Reply
turn hashable ws no_json m = (m, done, error "Invalid JSON." ∷ [])
turn hashable ws pong m = (m, done, [])
turn hashable ws (unknown action) m = (m, done, error action ∷ [])
turn hashable ws (subscribing channels) m =
    let valid = keep is_valid_channel channels in
    let invalid = keep (λ ch. not (is_valid_channel ch)) channels in
    let (m', outcome) = join_valid hashable ws valid m in
    elim outcome [
      | type_error ↦ (m', type_error, [])
      | done ↦ (m', done, subscribed valid (channels_of ws m') invalid ∷ [])
    ]
turn hashable ws (unsubscribing channels) m =
    let (m', outcome) = unsubscribe hashable ws channels m in
    elim outcome [
      | type_error ↦ (m', type_error, [])
      | done ↦ (m', done, unsubscribed channels (channels_of ws m') ∷ [])
    ]

-- The loop until the client is gone, which is the end of the list, or a turn raises; then `finally`.
unfoldable pub turns :
    Bool → ℕ → List Incoming → WebSocketManager → WebSocketManager × Outcome × List Reply
turns hashable ws [] m = let (m', outcome) = disconnect hashable ws m in (m', outcome, [])
turns hashable ws (text ∷ texts) m =
    let (m', outcome, replies) = turn hashable ws text m in
    let (m'', outcome', more) = turns hashable ws texts m' in
    elim outcome [
      | type_error ↦ ((disconnect hashable ws m').0, type_error, replies)
      | done ↦ (m'', outcome', replies ++ more)
    ]

-- A session that begins at `now`; one with an expired token is closed with 4001, which is `none`.
unfoldable pub funding_ws :
    Bool
    → (String → Decoded)
    → ℕ
    → ℕ
    → Option String
    → List Incoming
    → WebSocketManager
    → Option (WebSocketManager × Outcome × List Reply)
funding_ws hashable decode now ws token texts m =
    let (tier, user_id) = decode_token decode token in
    let (m', outcome, replies) = turns hashable ws texts (connect now ws tier m) in
    if tier == "__expired__" then none else some (m', outcome, connected tier user_id ∷ replies)
