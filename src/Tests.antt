-- ===== src/Tests.antt =====
-- Runs of the models on small inputs, and the theorems at inputs that meet their hypotheses.
mod Data
mod Access
mod Sessions
mod Auth
mod Text
pub mod Routing
mod Timers
mod WebSockets
mod Connections
mod Lifecycles
mod Restarts
mod Optimized
mod Requests
mod Replies
