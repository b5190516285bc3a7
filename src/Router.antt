-- ===== src/Router.antt =====
-- bridge/router.py: the choice of a tier.
pub mod Tiers
pub mod Signals
pub mod Hint
pub mod Vision
pub mod Select
pub mod Order
pub mod Whitelist
pub mod Budget
pub mod Demand
pub mod HintWords
pub mod Prices
