-- ===== src/Realtime/Connection/Bounds.antt =====
-- The queues of a connection stay within their capacities.
