-- ===== src/Lib.antt =====
-- Verification library of the funding radar backend (app/, Python): a service that collects the
-- funding rates of perpetual futures from several exchanges, keeps the latest in memory, finds
-- arbitrage pairs, ranks tokens, serves the result behind a rate limit, and sends alerts to the
-- users who pay for them. The collectors' records go through the normalizer to the two calculators;
-- the bot writes the rules that the notifications match with the calculator's results; the payments
-- change the tiers that the requests, the rules and the bot ask for.
--
-- Parts and files:
--   Base/            what the code takes from Python: comparison, lists, dicts, sorted, exceptions
--   Collectors/      app/collectors: base.py (record, derived figures, life cycle, loops, the window
--                    before each request), hyperliquid.py, aster.py, extended.py, pacifica.py,
--                    a poll of any of them, and registry.py
--   Snapshot         app/processors/normalizer.py, ExchangeSnapshot and TokenView
--   Normalizer       app/processors/normalizer.py, DataNormalizer
--   AprCalculator    app/processors/apr_calculator.py
--   Arbitrage        app/processors/arbitrage_calculator.py
--   Aggregator       app/processors/funding_aggregator.py
--   RateLimiter      app/utils/rate_limiter.py, with the Lua script that Redis runs
--   WebSockets       app/core/websocket_manager.py, the registry of clients and channels; the
--                    dispatch of app/core/redis_ws_bridge.py and the session of
--                    app/api/ws/funding_stream.py on it
--   Redis            the commands on keys that expire, as the code uses them
--   Accounts         app/dependencies.py, app/api/deps.py, app/api/v1/auth.py, hash_password of
--                    app/services/auth_service.py, and the tables of
--                    app/models/db/user.py: who a request comes from, and its tier
--   Payments         app/services/payment_service.py: Stripe's events, which change the tiers
--   Notifications    app/services/notification_service.py: rules, matches and alerts
--   Bot              app/bot/telegram_bot.py: the commands that change the rules
--   Services/        app/services/backfill_service.py and app/services/funding_service.py: what
--                    drives the calculators, and what writes rates to the database
--   Windows          app/processors/apr_windows.py: average APRs over windows of time, and their cache
--   Api/             app/api/v1: the routes of funding.py, arbitrage.py, exchanges.py, simulator.py
--   Tests            runs at concrete inputs, and each theorem at one input
--
-- A function of the model has the name of the Python function, without a leading underscore. A method
-- takes the object's state and returns it changed, beside its result. The loop of a method is a
-- function of its own, or a comprehension is `keep`, `map` or a recursion on the list.
--
-- Floats are a parameter, Base/Float.antt: a type with Python's operations, of which the theorems
-- assume only that comparison is a total preorder and that subtraction and rounding respect it. This
-- holds of finite doubles; NaN and infinities are left out. The integers are an instance, on which the
-- tests run. Clocks are natural numbers, read once for each call and passed in as `now`: in nanoseconds,
-- so that `time.monotonic()` is exact. In the rate limiter tokens are counted in billionths, in which
-- the script's arithmetic is exact; doubles round it.
--
-- Loops run over lists, but for those that ask an exchange for history window by window or page by
-- page: they run on fuel, one for every millisecond of the range and one more, and give `none` without
-- it. Each window or page begins after the last one did, so that this is enough; for Extended, if the
-- exchange keeps to the end asked for. A request to an exchange is its answer, in the order of the code:
-- a function of what is asked, or `none` where it raises. Not modelled: HTTP, SQL and Redis
-- beyond the tables and keys of these parts, logging, JSON, and what PROJECT.json lists as such.
pub mod Base
pub mod Collectors
pub mod Snapshot
pub mod Normalizer
pub mod AprCalculator
pub mod Arbitrage
pub mod Aggregator
pub mod RateLimiter
pub mod WebSockets
pub mod Redis
pub mod Accounts
pub mod Payments
pub mod Notifications
pub mod Bot
pub mod Services
pub mod Windows
pub mod Api
mod Tests
