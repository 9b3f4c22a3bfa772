-- ===== src/Tests/Persisted.antt =====
-- The first two bytes of a mutable buffer of three.
