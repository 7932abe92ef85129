-- ===== src/Tests.antt =====
-- A platform in memory, and the theorems at concrete inputs.
mod Tokens
mod Memory
mod Auth
mod Limits
mod Serving
mod Flows
mod Owners
mod Logout
mod Issue
mod Traffic
mod Codes
mod Replay
mod Startup
mod Bodies
mod Traces
mod Interleaved
mod Migrating
mod Starting
mod Routed
mod Runner
mod Lifetime
mod Ordered
mod Inactive
