-- ===== src/Services/Persist.antt =====
-- app/services/funding_service.py: `_persist_to_db`, which writes the snapshots of the normalizer in one
-- transaction. A flush that breaks the uniqueness of a token's symbol raises, and `session.rollback()`
-- takes back all that the session did since it began.
pub mod Losses
use funding_radar.Base.{
  ℕ, ◌+◌, String, Bool, true, false, Option, none, some, List, [], ◌∷◌, if◌then◌else◌, ◌==◌,
  by_text, by_value, by_parts,
}
use funding_radar.Base.Dict.{Dict, lookup, insert, contains, values}
use funding_radar.Base.Text.{upper}
use funding_radar.Base.Float.{Floats}
use funding_radar.Collectors.Contract.{NormalizedFundingData}
use funding_radar.Normalizer.{DataNormalizer, get_all_latest}
use funding_radar.Services.Rates.{FundingRate, Rates, key}

module _ (F : Floats) where
  -- The tables, with the next value of each sequence; a sequence is not rolled back.
  pub record Tables : Type 0 where
    pub exchanges : Dict String ℕ
    pub tokens : Dict String ℕ
    pub rates : Rates F

  pub record Work : Type 0 where
    pub session : Tables
    pub exchange_ids : Dict String ℕ
    pub token_ids : Dict String ℕ
    pub next_exchange_id : ℕ
    pub next_token_id : ℕ
    pub inserted : ℕ

  -- The id of the snapshot's exchange, which is made if it is missing.
  unfoldable pub exchange_of : String → Work → Work × ℕ
  exchange_of slug w = elim (lookup slug w.exchange_ids) [
    | some id ↦ (w, id)
    | none ↦
        let id = w.next_exchange_id in
        (
          record w {
            session = record w.session { exchanges = insert slug id w.session.exchanges };
            exchange_ids = insert slug id w.exchange_ids;
            next_exchange_id = id + 1;
          },
          id,
        )
  ]

  -- The flush of a new token: its id, or after a rollback that of the row that is in the way.
  unfoldable pub flush_token : Tables → String → Work → Work × Option ℕ
  flush_token saved symbol w =
      let id = w.next_token_id in
      if contains symbol w.session.tokens
      then (record w { session = saved; next_token_id = id + 1 }, lookup symbol saved.tokens)
      else (
        record w {
          session = record w.session { tokens = insert symbol id w.session.tokens };
          next_token_id = id + 1;
        },
        some id,
      )

  abbrev pub noted : String → Work × Option ℕ → Work × Option ℕ
  noted token (w, none) = (w, none)
  noted token (w, some id) = (record w { token_ids = insert token id w.token_ids }, some id)

  -- The id of the snapshot's token, which is made in upper case if it is missing.
  unfoldable pub token_of : Tables → String → Work → Work × Option ℕ
  unfolding flush_token
  token_of saved token w = elim (lookup token w.token_ids) [
    | some id ↦ (w, some id)
    | none ↦ noted token (flush_token saved (upper token) w)
  ]

  abbrev pub row_of : ℕ → ℕ → NormalizedFundingData F → FundingRate F
  row_of exchange_id token_id d = record {
    time = d.timestamp;
    exchange_id = exchange_id;
    token_id = token_id;
    funding_rate = d.funding_rate;
    funding_rate_8h = d.funding_rate_8h;
    funding_apr = d.funding_apr;
    mark_price = some d.mark_price;
    index_price = some d.index_price;
    open_interest_usd = some d.open_interest_usd;
    volume_24h_usd = some d.volume_24h_usd;
    price_spread_pct = some d.price_spread_pct;
  }

  -- `session.merge`
  abbrev pub merge : FundingRate F → Work → Work
  merge r w = record w {
    session = record w.session { rates = insert (key F r) r w.session.rates };
    inserted = w.inserted + 1;
  }

  -- The body of the loop for one snapshot.
  unfoldable pub persist_one : Tables → NormalizedFundingData F → Work → Work
  persist_one saved d w =
      let (w', exchange_id) = exchange_of d.exchange w in
      let (w'', found) = token_of saved d.token w' in
      elim found [ none ↦ w'' | some token_id ↦ merge (row_of exchange_id token_id d) w'' ]

  unfoldable pub persist_all : Tables → List (NormalizedFundingData F) → Work → Work
  persist_all saved [] w = w
  persist_all saved (d ∷ rest) w = persist_all saved rest (persist_one saved d w)

  abbrev pub begin : ℕ → ℕ → Tables → Work
  begin next_exchange_id next_token_id saved = record {
    session = saved;
    exchange_ids = saved.exchanges;
    token_ids = saved.tokens;
    next_exchange_id = next_exchange_id;
    next_token_id = next_token_id;
    inserted = 0;
  }

  abbrev has_value : ℕ → List ℕ → Bool
  has_value x [] = false
  has_value x (y ∷ ys) = if y == x then true else has_value x ys

  -- Whether every rate's exchange is in its table, which the commit asks.
  abbrev refers : Dict String ℕ → List (FundingRate F) → Bool
  refers exchanges [] = true
  refers exchanges (r ∷ rest) =
      if has_value r.exchange_id (values exchanges) then refers exchanges rest else false

  -- `_persist_to_db`: the tables after it, which are the old ones where the commit is refused.
  unfoldable pub persist_to_db : ℕ → ℕ → DataNormalizer F → Tables → Tables
  persist_to_db next_exchange_id next_token_id n saved =
      let done =
        persist_all saved (get_all_latest F n) (begin next_exchange_id next_token_id saved) in
      if refers done.session.exchanges (values done.session.rates) then done.session else saved
