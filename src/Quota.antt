-- ===== src/Quota.antt =====
-- bridge/quota.py: the rate limit, the daily tokens, the monthly budget and its alerts.
pub mod Rate
pub mod Daily
pub mod Monthly
