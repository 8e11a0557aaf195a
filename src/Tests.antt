-- ===== src/Tests.antt =====
-- Concrete runs: a small Project with its users, and the theorems at inputs that meet them.
mod World
mod Codec
mod Messages
mod Journal
mod Hydration
mod Conversations
pub mod Recovery
mod Outbox
mod Policy
mod Docs
mod Realtime
