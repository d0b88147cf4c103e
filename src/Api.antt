-- ===== src/Api.antt =====
-- The REST API of market data, app/api/v1: pages, the free tier's limit, and the routes.
pub mod Paging
pub mod Opportunities
pub mod Exchanges
pub mod Rates
pub mod Simulator
pub mod Historical
