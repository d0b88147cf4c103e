-- ===== src/Windows.antt =====
-- app/processors/apr_windows.py: the average APR over windows of time, cached on Redis. `query` is what the
-- database answers: `none` where the statement raises, and within it `none` where there is no row.
pub mod Cache
use funding_radar.Base.{ℕ, ◌*◌, String, Option, none, some, List, [], ◌∷◌, by_text, by_parts}
use funding_radar.Base.Dict.{Dict, insert}
use funding_radar.Base.Text.{upper}
use funding_radar.Base.Float.{Floats}
use funding_radar.Redis.{Keys, get, set_ex}
use funding_radar.Snapshot.{ticks_per_second}

abbrev pub cache_ttl : ℕ
cache_ttl = 60 * ticks_per_second

module _ (F : Floats) where
  open F use {Num, sub, round}

  pub record Windows : Type 0 where
    pub apr_1h : Option Num
    pub apr_8h : Option Num
    pub apr_24h : Option Num
    pub apr_7d : Option Num
    pub apr_30d : Option Num
    pub data_points_30d : ℕ

  abbrev pub empty_windows : Windows
  empty_windows = record {
    apr_1h = none;
    apr_8h = none;
    apr_24h = none;
    apr_7d = none;
    apr_30d = none;
    data_points_30d = 0;
  }

  -- `_round`
  unfoldable pub rounded : Option Num → Option Num
  rounded none = none
  rounded (some x) = some (round x 4)

  abbrev pub Query : Type 0
  Query = String → String → Option (Option Windows)

  unfoldable pub query_windows : Query → String → String → Windows
  query_windows query exchange_slug token_symbol = elim (query exchange_slug (upper token_symbol)) [
    | none ↦ empty_windows
    | some found ↦ elim found [
      | none ↦ empty_windows
      | some row ↦ record {
        apr_1h = rounded row.apr_1h;
        apr_8h = rounded row.apr_8h;
        apr_24h = rounded row.apr_24h;
        apr_7d = rounded row.apr_7d;
        apr_30d = rounded row.apr_30d;
        data_points_30d = row.data_points_30d;
      }
    ]
  ]

  abbrev pub Cache : Type 0
  Cache = Keys (String × String) Windows

  unfoldable pub get_windows : Query → ℕ → String → String → Cache → Cache × Windows
  get_windows query now exchange_slug token_symbol c =
      elim (get now (exchange_slug, upper token_symbol) c) [
        | some found ↦ (c, found)
        | none ↦
            let result = query_windows query exchange_slug token_symbol in
            (set_ex now (exchange_slug, upper token_symbol) result cache_ttl c, result)
      ]

  -- Short minus long, where both are known.
  unfoldable pub net : Option Num → Option Num → Option Num
  net none short = none
  net (some l) none = none
  net (some l) (some s) = some (round (sub s l) 4)

  pub record PairWindows : Type 0 where
    pub long_windows : Windows
    pub short_windows : Windows
    pub net_apr_1h : Option Num
    pub net_apr_8h : Option Num
    pub net_apr_24h : Option Num
    pub net_apr_7d : Option Num
    pub net_apr_30d : Option Num

  -- The two look-ups, one after the other.
  unfoldable pub get_pair_windows :
      Query → ℕ → String → String → String → Cache → Cache × PairWindows
  get_pair_windows query now long_exchange short_exchange token c =
      let (c', l) = get_windows query now long_exchange token c in
      let (c'', s) = get_windows query now short_exchange token c' in
      (
        c'',
        record {
          long_windows = l;
          short_windows = s;
          net_apr_1h = net l.apr_1h s.apr_1h;
          net_apr_8h = net l.apr_8h s.apr_8h;
          net_apr_24h = net l.apr_24h s.apr_24h;
          net_apr_7d = net l.apr_7d s.apr_7d;
          net_apr_30d = net l.apr_30d s.apr_30d;
        },
      )

  -- The answer is a dict by exchange and token, as the caller wrote them.
  unfoldable pub batch_from :
      Query
      → ℕ
      → List (String × String)
      → Cache
      → Dict (String × String) Windows
      → Cache × Dict (String × String) Windows
  batch_from query now [] c d = (c, d)
  batch_from query now ((ex, tok) ∷ pairs) c d =
      let (c', w) = get_windows query now ex tok c in
      batch_from query now pairs c' (insert (ex, tok) w d)

  abbrev pub get_batch_windows :
      Query → ℕ → List (String × String) → Cache → Cache × Dict (String × String) Windows
  get_batch_windows query now pairs c = batch_from query now pairs c []
