-- ===== src/Api/Historical.antt =====
-- app/api/v1/funding.py, `_historical_rates` and `get_funding_history`: what is made of the averages that
-- the database answers with. A group is one token on one exchange, the highest average first.
pub mod Ranges
use funding_radar.Base.{
  ℕ, ◌+◌, String, Bool, Option, none, some, List, [], ◌∷◌, ◌++◌, if◌then◌else◌, get_or, map, length,
  ◌==◌, by_text,
}
use funding_radar.Base.Dict.{Dict, lookup, insert, values}
use funding_radar.Base.Sort.{sort}
use funding_radar.Base.Text.{lower, upper}
use funding_radar.Base.Float.{Floats, num, lt}
use funding_radar.Api.Paging.{Page, page_of}
use funding_radar.Api.Rates.{timeframe_to_delta, live_rates}
use funding_radar.Aggregator.{TokenRankRow}

module _ (F : Floats) where
  open F use {Num, sub, le, round}

  pub record Group : Type 0 where
    pub symbol : String
    pub slug : String
    pub name : String
    pub avg_apr : Option Num
    pub max_apr : Option Num
    pub min_apr : Option Num
    pub avg_oi : Option Num
    pub avg_vol : Option Num
    pub latest_time : Option ℕ

  -- `float(x or 0)` of an optional number
  abbrev pub or_zero : Option Num → Num
  or_zero o = get_or o (num F 0)

  pub record HistoricalRow : Type 0 where
    pub exchange : String
    pub exchange_name : String
    pub avg_apr : Num
    pub max_apr : Num
    pub min_apr : Num
    pub avg_oi : Num
    pub avg_vol : Num
    pub latest_time : Option ℕ

  -- `min_apr` is none where the code has the float inf.
  pub record TokenRange : Type 0 where
    pub token : String
    pub max_apr : Num
    pub min_apr : Option Num
    pub spread_apr : Num
    pub exchange_count : ℕ
    pub rows : List HistoricalRow

  abbrev pub new_range : String → TokenRange
  new_range symbol = record {
    token = symbol;
    max_apr = num F 0;
    min_apr = none;
    spread_apr = num F 0;
    exchange_count = 0;
    rows = [];
  }

  abbrev pub row_of : Group → HistoricalRow
  row_of g = record {
    exchange = g.slug;
    exchange_name = g.name;
    avg_apr = round (or_zero g.avg_apr) 4;
    max_apr = round (or_zero g.max_apr) 4;
    min_apr = round (or_zero g.min_apr) 4;
    avg_oi = round (or_zero g.avg_oi) 2;
    avg_vol = round (or_zero g.avg_vol) 2;
    latest_time = g.latest_time;
  }

  -- `max(a, b)` and `min(a, b)`
  abbrev pub max_of : Num → Num → Num
  max_of a b = if lt F a b then b else a

  abbrev pub min_of : Option Num → Num → Num
  min_of none b = b
  min_of (some a) b = if lt F b a then b else a

  abbrev pub widened : Group → TokenRange → TokenRange
  widened g t = record t {
    rows = t.rows ++ row_of g ∷ [];
    max_apr = max_of t.max_apr (or_zero g.avg_apr);
    min_apr = some (min_of t.min_apr (or_zero g.avg_apr));
    exchange_count = t.exchange_count + 1;
  }

  -- The loop over the groups.
  unfoldable pub group_by_token : List Group → Dict String TokenRange → Dict String TokenRange
  group_by_token [] d = d
  group_by_token (g ∷ gs) d =
      group_by_token gs
        (insert g.symbol (widened g (get_or (lookup g.symbol d) (new_range g.symbol))) d)

  abbrev pub max_apr_desc : TokenRange → TokenRange → Bool
  max_apr_desc x y = le y.max_apr x.max_apr

  -- The spread, and 0 for a minimum that is still inf. A range that is made has a row.
  abbrev pub finished : TokenRange → TokenRange
  finished t = record t {
    spread_apr = round (sub t.max_apr (or_zero t.min_apr)) 4;
    min_apr = some (or_zero t.min_apr);
  }

  unfoldable pub ranked_ranges : List Group → List TokenRange
  ranked_ranges groups = map finished (sort max_apr_desc (values (group_by_token groups [])))

  -- A token that is not given or empty is not asked for.
  abbrev pub asked_token : Option String → Option String
  asked_token none = none
  asked_token (some t) = if t == "" then none else some (upper t)

  -- The database's answer depends on the time since when, the token and the exchanges. `none` is the
  -- answer 422.
  unfoldable pub historical_rates :
      (ℕ → Option String → List String → List Group)
      → String
      → List String
      → Option String
      → ℕ
      → ℕ
      → Option (Page TokenRange)
  historical_rates query timeframe exchanges token limit offset =
      elim (timeframe_to_delta timeframe) [
        | none ↦ none
        | some delta ↦ some (
            page_of limit offset
              (ranked_ranges (query delta (asked_token token) (map lower exchanges))))
      ]

  pub data Rates : Type 0 where
    invalid : Rates
    live : Option (Page (TokenRankRow F)) → Rates
    from_database : Option (Page TokenRange) → Rates

  unfoldable pub get_funding_rates :
      (ℕ → Option String → List String → List Group)
      → Option (List (TokenRankRow F))
      → String
      → List String
      → Option String
      → ℕ
      → ℕ
      → Rates
  get_funding_rates query ranked timeframe exchanges token limit offset =
      elim (timeframe_to_delta timeframe) [
        | none ↦ invalid
        | some delta ↦
            if timeframe == "live"
            then live (live_rates F ranked exchanges token limit offset)
            else from_database (historical_rates query timeframe exchanges token limit offset)
      ]

  abbrev pub interval_map : Dict String String
  interval_map = ("1h", "1 hour") ∷ ("4h", "4 hours") ∷ ("8h", "8 hours") ∷ ("1d", "1 day") ∷ []

  pub record Bucket : Type 0 where
    pub time : ℕ
    pub avg_apr : Option Num
    pub avg_rate_8h : Option Num
    pub avg_mark_price : Option Num
    pub avg_oi : Option Num
    pub sample_count : ℕ

  pub record Sample : Type 0 where
    pub time : ℕ
    pub avg_apr : Num
    pub avg_rate_8h : Num
    pub avg_mark_price : Num
    pub avg_oi : Num
    pub sample_count : ℕ

  abbrev pub sample_of : Bucket → Sample
  sample_of b = record {
    time = b.time;
    avg_apr = round (or_zero b.avg_apr) 6;
    avg_rate_8h = round (or_zero b.avg_rate_8h) 8;
    avg_mark_price = round (or_zero b.avg_mark_price) 4;
    avg_oi = round (or_zero b.avg_oi) 2;
    sample_count = b.sample_count;
  }

  pub data History : Type 0 where
    invalid_timeframe invalid_interval no_token no_exchange : History
    series : String → String → List Sample → History

  -- `token_id` and `exchange_id` are the look-ups in the tables; `buckets` is the database's answer.
  unfoldable pub get_funding_history :
      (String → Option ℕ)
      → (String → Option ℕ)
      → (String → ℕ → ℕ → ℕ → List Bucket)
      → String
      → String
      → String
      → String
      → History
  get_funding_history token_id exchange_id buckets token exchange timeframe interval =
      elim (timeframe_to_delta timeframe) [
        | none ↦ invalid_timeframe
        | some delta ↦ elim (lookup interval interval_map) [
          | none ↦ invalid_interval
          | some pg_interval ↦ elim (token_id (upper token)) [
            | none ↦ no_token
            | some tid ↦ elim (exchange_id (lower exchange)) [
              | none ↦ no_exchange
              | some eid ↦
                  series (upper token) (lower exchange)
                    (map sample_of (buckets pg_interval tid eid delta))
            ]
          ]
        ]
      ]
