-- ===== src/Examples.antt =====
-- The theorems at concrete accounts, routes and claims.
mod Data
mod Accounts
mod Routes
mod Registries
mod Pools
mod Gates
mod Ledgers
mod Barriers
mod Prices
mod Refreshes
mod Statistics
mod Relays
mod Catalogs
