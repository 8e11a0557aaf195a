-- ===== src/Realtime.antt =====
-- internal/realtime: the connections of one process, its hub, and the sessions on them.
pub mod Connection
pub mod Hub
pub mod Session
pub mod Loop
pub mod Writer
