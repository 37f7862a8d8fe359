-- ===== src/Tests.antt =====
-- Concrete instances of the outside world, and the examples on them.
mod Codecs
mod Outside
mod Caches
mod Building
mod Trading
mod Chains
mod Setups
mod Runs
mod Systems
mod Apps
mod Stationary
