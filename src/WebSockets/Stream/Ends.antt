-- ===== src/WebSockets/Stream/Ends.antt =====
-- app/api/ws/funding_stream.py: what becomes of a client that asks for a channel, as the registry has it.
use funding_radar.Base.{
  ℕ, String, ◌≡◌, refl, false, Option, some, List, [], ◌∷◌, keep, ◌==◌, by_text,
}
use funding_radar.WebSockets.{
  WebSocketManager, type_error, connection_hashable, subscribe, disconnect, connect,
}
use funding_radar.WebSockets.Stream.{
  Decoded, Incoming, subscribing, connected, decode_token, is_valid_channel, turn, turns,
  funding_ws,
}

turn_raises :
    (ws : ℕ) (channels : List String) (m : WebSocketManager) {ch : String} {chs : List String}
    → keep is_valid_channel channels ≡ ch ∷ chs
    → (turn connection_hashable ws (subscribing channels) m).1 ≡ type_error
unfolding turn subscribe
turn_raises ws channels m h = rw (h, turn) refl

turn_silent :
    (ws : ℕ) (channels : List String) (m : WebSocketManager) {ch : String} {chs : List String}
    → keep is_valid_channel channels ≡ ch ∷ chs
    → (turn connection_hashable ws (subscribing channels) m).2 ≡ []
unfolding turn subscribe
turn_silent ws channels m h = rw (h, turn) refl

turns_end :
    (ws : ℕ) (channels : List String) (texts : List Incoming) (m : WebSocketManager) {ch : String}
    {chs : List String}
    → keep is_valid_channel channels ≡ ch ∷ chs
    → turns connection_hashable ws (subscribing channels ∷ texts) m ≡ (
      (disconnect connection_hashable ws
          (turn connection_hashable ws (subscribing channels) m).0).0,
      type_error,
      [],
    )
unfolding turns
turns_end ws channels texts m h =
    rw (turn_raises ws channels m h, turn_silent ws channels m h, turns) refl

-- A client, with a token that is not expired or with none, whose first text asks for channels of
-- which one is valid gets the greeting and nothing else: the session raises and ends, whatever
-- the client sends after.
pub funding_ws_ends :
    (decode : String → Decoded) (now ws : ℕ) (token : Option String) (channels : List String)
    (texts : List Incoming) (m : WebSocketManager) {ch : String} {chs : List String}
    → ((decode_token decode token).0 == "__expired__") ≡ false
    → keep is_valid_channel channels ≡ ch ∷ chs
    → (m' : WebSocketManager) × (funding_ws connection_hashable decode now ws token
          (subscribing channels ∷ texts)
          m
        ≡ some (
          m',
          type_error,
          connected (decode_token decode token).0 (decode_token decode token).1 ∷ [],
        ))
unfolding funding_ws
funding_ws_ends decode now ws token channels texts m e h =
    let begun = connect now ws (decode_token decode token).0 m in
    let after = (turn connection_hashable ws (subscribing channels) begun).0 in
    ((disconnect connection_hashable ws after).0, rw (e, turns_end ws channels texts begun h) refl)
