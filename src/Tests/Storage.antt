-- ===== src/Tests/Storage.antt =====
-- The collector's window at a limit of one request, and the services that write rates, on integers for
-- floats.
use funding_radar.Base.{
  ℕ, String, ◌≡◌, refl, true, false, Option, none, some, List, [], ◌∷◌, arith, All, by_text,
  by_value, by_parts,
}
use funding_radar.Base.Dict.{lookup, insert}
use funding_radar.Base.Int.{pos}
use funding_radar.Base.Float.{integers, integers-IsOrdered}
use funding_radar.Base.Text.{upper}
use funding_radar.Redis.{get}
use funding_radar.Collectors.Contract.{NormalizedFundingData}
use funding_radar.Collectors.RateLimit.{rate_limit, wake}
use funding_radar.Collectors.RateLimit.Pacing.{IsPaced, run, AreOneByOne, run-IsPaced}
use funding_radar.Services.Rates.{FundingRate, key}
use funding_radar.Services.Backfill.{
  TokenIds, Store, batches, backfill, fill, ensure_exchange, ran_recently,
}
use funding_radar.Services.Backfill.Batches.{concat, rows_of, IsBatch, batches_lem}
use funding_radar.Services.Backfill.Repeats.{Has, backfill-keeps, fill-Has, backfill_again}
use funding_radar.Services.Persist.{Tables, persist_all, begin, row_of}
use funding_radar.Services.Persist.Losses.{persist_all-loses}
use funding_radar.Services.Pipeline.{Moment, create}
use funding_radar.Services.Pipeline.Served.{
  Turn, message, timer, purge_timer, take_turns, IsServed, create-take_turns,
}

abbrev calls : List (ℕ × ℕ)
calls = (10, 0) ∷ (20, 5) ∷ []

one_by_one : AreOneByOne 1 0 calls []
unfolding rate_limit wake
one_by_one = (omega arith, (omega arith, tt))

run-IsPaced_example : IsPaced 1 (run 1 calls [] [])
run-IsPaced_example = run-IsPaced 1 calls one_by_one

abbrev sample : String → NormalizedFundingData integers
sample token = record {
  exchange = "hyperliquid";
  token = token;
  symbol = token;
  funding_rate = pos 1;
  funding_rate_8h = pos 8;
  funding_apr = pos 10;
  funding_interval_hours = 1;
  next_funding_time = none;
  predicted_rate = none;
  mark_price = pos 100;
  index_price = pos 100;
  open_interest_usd = pos 1000;
  volume_24h_usd = pos 1000;
  price_spread_pct = pos 0;
  maker_fee = pos 0;
  taker_fee = pos 0;
  timestamp = 7;
  is_live = true;
}

abbrev not_raced : String → Option (Option ℕ)
not_raced symbol = none

abbrev no_tokens : TokenIds
no_tokens = record { cache = []; table = []; next_id = 1 }

abbrev history : List (NormalizedFundingData integers)
history = sample "BTC" ∷ sample "kPEPE" ∷ []

batches_lem_example :
    (concat integers (batches integers not_raced 1 history no_tokens []).1
      ≡ rows_of integers not_raced 1 history no_tokens)
    × All (IsBatch integers) (batches integers not_raced 1 history no_tokens []).1
batches_lem_example = batches_lem integers not_raced 1 history no_tokens

abbrev old : FundingRate integers
old = row_of integers 1 1 (sample "BTC")

abbrev stored : Store integers
stored = record {
  exchanges = ("hyperliquid", 1) ∷ [];
  next_exchange_id = 2;
  tokens = record { cache = []; table = ("BTC", 1) ∷ []; next_id = 2 };
  rates = ((7, (1, 1)), old) ∷ [];
  guards = [];
}

backfill-keeps_example :
    lookup (7, (1, 1)) (backfill integers not_raced 5 6 "hyperliquid" 30 history stored).0.rates
    ≡ some old
unfolding lookup
backfill-keeps_example =
    backfill-keeps integers not_raced 5 6 "hyperliquid" 30 history stored (7, (1, 1)) old refl

fill-Has_example :
    let (s', exchange_id) = ensure_exchange integers "hyperliquid" stored in
    All
      (λ q.
        Has integers
          (fill integers not_raced 6 "hyperliquid" 30 history stored).0.rates
          (key integers q))
      (rows_of integers not_raced exchange_id history s'.tokens)
fill-Has_example = fill-Has integers not_raced 6 "hyperliquid" 30 history stored

not_recent : ran_recently integers 5 (get 5 ("hyperliquid", 30) stored.guards) ≡ false
unfolding get lookup
not_recent = refl

backfill_again_run :
    let s' = (backfill integers not_raced 5 6 "hyperliquid" 30 history stored).0 in
    backfill integers not_raced 9 9 "hyperliquid" 30 [] s' ≡ (s', 0)
backfill_again_run =
    backfill_again integers not_raced 5 6 9 9 "hyperliquid" 30 history [] stored not_recent
      (omega arith)

-- The table after a first pass.
abbrev tables : Tables integers
tables = record {
  exchanges = ("hyperliquid", 1) ∷ [];
  tokens = ("BTC", 1) ∷ ("KPEPE", 2) ∷ [];
  rates = [];
}

persist_all-loses_example :
    (persist_all integers tables
      (sample "BTC" ∷ sample "kPEPE" ∷ [])
      (begin integers 2 3 tables)).session.rates
    ≡ insert (7, (1, 2)) (row_of integers 1 2 (sample "kPEPE")) []
unfolding lookup upper
persist_all-loses_example =
    persist_all-loses integers tables 2 3 (sample "BTC" ∷ []) (sample "kPEPE") 1 2 refl refl refl
      (refl, tt)

abbrev moment : Moment
moment = record { now = 10; now_ms = 10; down = false }

abbrev parse : String → Option (NormalizedFundingData integers)
parse raw = some (sample raw)

abbrev turns : List Turn
turns = message moment "BTC" ∷ timer moment ∷ purge_timer moment ∷ []

create-take_turns_example :
    IsServed integers (pos 0) (take_turns integers parse turns (create integers 120 5 5 (pos 0)))
create-take_turns_example =
    create-take_turns integers integers-IsOrdered parse 120 5 5 (pos 0) turns
