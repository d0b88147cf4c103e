-- ===== src/Tests.antt =====
-- Runs of the definitions at concrete inputs, and the theorems at inputs that meet their hypotheses.
mod Market
mod Limits
mod Sockets
mod Customers
mod Alerts
mod Collecting
mod Routes
mod Storage
