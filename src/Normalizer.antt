-- ===== src/Normalizer.antt =====
-- app/processors/normalizer.py, DataNormalizer: the in-memory state of all exchanges. The clock is
-- that of Snapshot.antt.
pub mod Coherence
pub mod Purge
pub mod History
use funding_radar.Base.{
  ℕ, ◌+◌, ◌-◌, String, Bool, true, Option, none, some, List, [], ◌∷◌, map, leb, if◌then◌else◌, keep,
  length, by_parts, by_text,
}
use funding_radar.Base.Dict.{Dict, values, lookup, insert, erase}
use funding_radar.Base.Sort.{sort}
use funding_radar.Base.Float.{Floats}
use funding_radar.Collectors.Contract.{NormalizedFundingData}
use funding_radar.Snapshot.{ExchangeSnapshot, TokenView, is_stale, spread_apr, exchange_count}

module _ (F : Floats) where
  open F use {le}

  pub record DataNormalizer : Type 0 where
    pub stale_after : ℕ
    pub snapshots : Dict (String × String) (ExchangeSnapshot F)
    pub token_views : Dict String (TokenView F)
    pub update_count : ℕ
    pub last_update_at : ℕ

  -- `__init__`
  unfoldable pub init : ℕ → DataNormalizer
  init stale_after = record {
    stale_after = stale_after;
    snapshots = [];
    token_views = [];
    update_count = 0;
    last_update_at = 0;
  }

  -- The view that `update` writes into: the one that is there, or a new one.
  unfoldable pub view_or_new : String → Dict String (TokenView F) → TokenView F
  view_or_new token views = elim (lookup token views) [
    | none ↦ record { token = token; snapshots = [] }
    | some tv ↦ tv
  ]

  unfoldable pub update : ℕ → NormalizedFundingData F → DataNormalizer → DataNormalizer × Bool
  update now item n =
      let snapshot : ExchangeSnapshot F = record { funding = item; received_at = now } in
      let tv = view_or_new item.token n.token_views in
      (
        record n {
          snapshots = insert (item.exchange, item.token) snapshot n.snapshots;
          token_views =
              insert item.token
                (record tv { snapshots = insert item.exchange snapshot tv.snapshots })
                n.token_views;
          update_count = n.update_count + 1;
          last_update_at = now;
        },
        true,
      )

  -- The loop of `update_batch`, with its count.
  unfoldable pub update_batch_from :
      ℕ → ℕ → List (NormalizedFundingData F) → DataNormalizer → DataNormalizer × ℕ
  unfolding update
  update_batch_from now count [] n = (n, count)
  update_batch_from now count (item ∷ items) n =
      let (n', stored) = update now item n in
      update_batch_from now (if stored then count + 1 else count) items n'

  unfoldable pub update_batch :
      ℕ → List (NormalizedFundingData F) → DataNormalizer → DataNormalizer × ℕ
  unfolding update_batch_from
  update_batch now items n = update_batch_from now 0 items n

  unfoldable pub get_snapshot : String → String → DataNormalizer → Option (ExchangeSnapshot F)
  get_snapshot exchange token n = lookup (exchange, token) n.snapshots

  unfoldable pub get_token_view : String → DataNormalizer → Option (TokenView F)
  get_token_view token n = lookup token n.token_views

  unfoldable pub iter_tokens : DataNormalizer → List (TokenView F)
  iter_tokens n = values n.token_views

  -- `key=spread_apr, reverse=True`
  abbrev pub spread_desc : ℕ → ℕ → TokenView F → TokenView F → Bool
  spread_desc now stale_after x y =
      le (spread_apr F now stale_after y) (spread_apr F now stale_after x)

  unfoldable pub arbitrage_candidates : ℕ → DataNormalizer → List (TokenView F)
  arbitrage_candidates now n =
      sort (spread_desc now n.stale_after)
        (keep (λ tv. leb 2 (exchange_count F now n.stale_after tv)) (values n.token_views))

  unfoldable pub get_latest : String → String → DataNormalizer → Option (NormalizedFundingData F)
  get_latest exchange token n = elim (lookup (exchange, token) n.snapshots) [
    | none ↦ none
    | some s ↦ some s.funding
  ]

  abbrev pub timestamp_desc : NormalizedFundingData F → NormalizedFundingData F → Bool
  timestamp_desc x y = leb y.timestamp x.timestamp

  unfoldable pub get_all_latest : DataNormalizer → List (NormalizedFundingData F)
  get_all_latest n = sort timestamp_desc (map (λ s. s.funding) (values n.snapshots))

  -- `[k for k, s in self._snapshots.items() if s.is_stale(self._stale_after)]`
  unfoldable pub stale_keys :
      ℕ → ℕ → Dict (String × String) (ExchangeSnapshot F) → List (String × String)
  stale_keys now stale_after [] = []
  stale_keys now stale_after ((k, s) ∷ d) =
      if is_stale F now stale_after s
      then k ∷ stale_keys now stale_after d
      else stale_keys now stale_after d

  -- One round of the loop of `purge_stale` on the views.
  unfoldable pub drop_from_view :
      String → String → Dict String (TokenView F) → Dict String (TokenView F)
  drop_from_view exchange token views = elim (lookup token views) [
    | none ↦ views
    | some tv ↦ elim (erase exchange tv.snapshots) [
      | [] ↦ erase token views
      | e ∷ rest ↦ insert token (record tv { snapshots = e ∷ rest }) views
    ]
  ]

  unfoldable pub purge_keys : List (String × String) → DataNormalizer → DataNormalizer
  purge_keys [] n = n
  purge_keys ((exchange, token) ∷ ks) n = purge_keys ks (record n {
    snapshots = erase (exchange, token) n.snapshots;
    token_views = drop_from_view exchange token n.token_views;
  })

  unfoldable pub purge_stale : ℕ → DataNormalizer → DataNormalizer × ℕ
  unfolding stale_keys purge_keys
  purge_stale now n =
      let stale = stale_keys now n.stale_after n.snapshots in (purge_keys stale n, length stale)

  pub record Stats : Type 0 where
    pub total_snapshots : ℕ
    pub total_tokens : ℕ
    pub update_count : ℕ
    pub last_update_ago : ℕ
    pub arbitrage_candidates : ℕ

  unfoldable pub stats : ℕ → DataNormalizer → Stats
  unfolding arbitrage_candidates
  stats now n = record {
    total_snapshots = length n.snapshots;
    total_tokens = length n.token_views;
    update_count = n.update_count;
    last_update_ago = now - n.last_update_at;
    arbitrage_candidates = length (arbitrage_candidates now n);
  }
