-- ===== src/OpSignKey/Release.antt =====
-- What becomes of the buffer that holds the key.
