-- ===== src/Recovery.antt =====
-- internal/message/recovery.go and internal/message/repository/recovery.go: receipts, and the
-- replay of a conversation's events.
pub mod Access
pub mod Receipts
pub mod Replay
pub mod Hydration
