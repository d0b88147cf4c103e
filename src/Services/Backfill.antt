-- ===== src/Services/Backfill.antt =====
-- app/services/backfill_service.py: the history of one exchange, written to the database in batches.
-- `records` is what the collector's `_fetch_history_range` yields. `raced` says whether another process
-- added a token just before, so that the commit fails, and what the second look then finds.
pub mod Batches
pub mod Repeats
use funding_radar.Base.{
  ℕ, ◌+◌, ◌-◌, ◌*◌, String, Bool, true, false, not, Option, none, some, List, [], ◌∷◌, ◌++◌,
  if◌then◌else◌, ltb, leb, length, ◌==◌, by_text, by_value, by_parts,
}
use funding_radar.Base.Dict.{Dict, lookup, insert, contains}
use funding_radar.Base.Text.{upper}
use funding_radar.Base.Float.{Floats, num, is_zero}
use funding_radar.Redis.{Keys, get, set_ex}
use funding_radar.Snapshot.{ticks_per_second}
use funding_radar.Collectors.Contract.{NormalizedFundingData}
use funding_radar.Services.Rates.{FundingRate, Rates, key}

abbrev pub guard_time : ℕ
guard_time = 23 * 3600 * ticks_per_second

abbrev pub batch_size : ℕ
batch_size = 500

-- The table of tokens, by symbol, and the service's cache, by the symbol that was asked for.
pub record TokenIds : Type 0 where
  pub cache : Dict String ℕ
  pub table : Dict String ℕ
  pub next_id : ℕ

abbrev cached : String → ℕ → TokenIds → TokenIds
cached symbol id t = record t { cache = insert symbol id t.cache }

-- `_ensure_token` where the table has no row.
unfoldable pub create_token : Option (Option ℕ) → String → TokenIds → TokenIds × Option ℕ
create_token none symbol t = (
  cached symbol t.next_id
      (record t { table = insert (upper symbol) t.next_id t.table; next_id = t.next_id + 1 }),
  some t.next_id,
)
create_token (some none) symbol t = (t, none)
create_token (some (some id)) symbol t = (cached symbol id t, some id)

unfoldable pub ensure_token : (String → Option (Option ℕ)) → String → TokenIds → TokenIds × Option ℕ
ensure_token raced symbol t = elim (lookup symbol t.cache) [
  | some id ↦ (t, some id)
  | none ↦ elim (lookup (upper symbol) t.table) [
    | some id ↦ (cached symbol id t, some id)
    | none ↦ create_token (raced symbol) symbol t
  ]
]

module _ (F : Floats) where
  open F use {Num}

  abbrev unless_zero : Num → Option Num
  unless_zero x = if is_zero F x then none else some x

  abbrev pub row_of : ℕ → ℕ → NormalizedFundingData F → FundingRate F
  row_of exchange_id token_id d = record {
    time = d.timestamp;
    exchange_id = exchange_id;
    token_id = token_id;
    funding_rate = d.funding_rate;
    funding_rate_8h = d.funding_rate_8h;
    funding_apr = d.funding_apr;
    mark_price = unless_zero d.mark_price;
    index_price = unless_zero d.index_price;
    open_interest_usd = none;
    volume_24h_usd = none;
    price_spread_pct = none;
  }

  -- `_upsert_batch`: ON CONFLICT DO NOTHING, and how many rows were new.
  unfoldable pub upsert_batch : List (FundingRate F) → Rates F → Rates F × ℕ
  upsert_batch [] rates = (rates, 0)
  upsert_batch (r ∷ rest) rates =
      let skipped = upsert_batch rest rates in
      let (rates', n) = upsert_batch rest (insert (key F r) r rates) in
      if contains (key F r) rates then skipped else (rates', n + 1)

  -- The batch so far, after a row: it is full and goes out, or waits.
  unfoldable pub add_to_batch :
      List (FundingRate F) → FundingRate F → List (FundingRate F) × List (List (FundingRate F))
  add_to_batch batch r =
      if leb batch_size (length (batch ++ r ∷ []))
      then ([], (batch ++ r ∷ []) ∷ [])
      else (batch ++ r ∷ [], [])

  abbrev pub last_batch : List (FundingRate F) → List (List (FundingRate F))
  last_batch [] = []
  last_batch (r ∷ rest) = (r ∷ rest) ∷ []

  -- The loop of `backfill` over the records: the batches in order.
  unfoldable pub batches :
      (String → Option (Option ℕ))
      → ℕ
      → List (NormalizedFundingData F)
      → TokenIds
      → List (FundingRate F)
      → TokenIds × List (List (FundingRate F))
  batches raced exchange_id [] t batch = (t, last_batch batch)
  batches raced exchange_id (d ∷ rest) t batch =
      let (t', found) = ensure_token raced d.token t in
      let skipped = batches raced exchange_id rest t' batch in
      elim found [
        | none ↦ skipped
        | some token_id ↦
            let (batch', out) = add_to_batch batch (row_of exchange_id token_id d) in
            let (t'', more) = batches raced exchange_id rest t' batch' in (t'', out ++ more)
      ]

  unfoldable pub upsert_all : List (List (FundingRate F)) → Rates F → Rates F × ℕ
  upsert_all [] rates = (rates, 0)
  upsert_all (b ∷ bs) rates =
      let (rates', n) = upsert_batch b rates in
      let (rates'', m) = upsert_all bs rates' in (rates'', n + m)

  -- The database and Redis: `guards` are the keys backfill:last:{slug}:{days}d, with the time of the
  -- last run.
  pub record Store : Type 0 where
    pub exchanges : Dict String ℕ
    pub next_exchange_id : ℕ
    pub tokens : TokenIds
    pub rates : Rates F
    pub guards : Keys (String × ℕ) ℕ

  unfoldable pub ensure_exchange : String → Store → Store × ℕ
  ensure_exchange slug s = elim (lookup slug s.exchanges) [
    | some id ↦ (s, id)
    | none ↦ (
      record s {
        exchanges = insert slug s.next_exchange_id s.exchanges;
        next_exchange_id = s.next_exchange_id + 1;
      },
      s.next_exchange_id,
    )
  ]

  -- The body of `backfill` after the guard; `ended` is the clock at its end.
  unfoldable pub fill :
      (String → Option (Option ℕ))
      → ℕ
      → String
      → ℕ
      → List (NormalizedFundingData F)
      → Store
      → Store × ℕ
  unfolding batches upsert_all ensure_exchange
  fill raced ended slug days records s =
      let (s', exchange_id) = ensure_exchange slug s in
      let (tokens, bs) = batches raced exchange_id records s'.tokens [] in
      let (rates, inserted) = upsert_all bs s'.rates in
      (
        record s' {
          tokens = tokens;
          rates = rates;
          guards = set_ex ended (slug, days) ended guard_time s'.guards;
        },
        inserted,
      )

  abbrev pub ran_recently : ℕ → Option ℕ → Bool
  ran_recently now none = false
  ran_recently now (some last_run) = ltb (now - last_run) guard_time

  unfoldable pub backfill :
      (String → Option (Option ℕ))
      → ℕ
      → ℕ
      → String
      → ℕ
      → List (NormalizedFundingData F)
      → Store
      → Store × ℕ
  unfolding fill
  backfill raced now ended slug days records s =
      if ran_recently now (get now (slug, days) s.guards)
      then (s, 0)
      else fill raced ended slug days records s
