-- ===== src/Examples.antt =====
-- The development's definitions at concrete inputs.
mod Store
mod Data
mod Routing
mod Gates
mod Money
mod Access
mod Pods
mod Stages
mod Inference
mod Bodies
mod Chats
mod Adapters
mod Routes
mod Services
mod Clouds
mod Tools
mod Accounts
