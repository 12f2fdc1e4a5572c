-- ===== src/Examples.antt =====
-- The theorems at concrete inputs.
mod Queues
mod Trees
mod Values
mod Requests
mod Clients
mod Data
mod Conversions
mod Sessions
mod Subscriptions
mod Grammar
