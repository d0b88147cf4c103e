-- ===== src/Collectors.antt =====
-- The exchange collectors, app/collectors: what each hands on to the pipeline.
pub mod Aster
pub mod Contract
pub mod Extended
pub mod Fields
pub mod Figures
pub mod History
pub mod Hyperliquid
pub mod Lifecycle
pub mod Pacifica
pub mod Polls
pub mod RateLimit
pub mod Registry
