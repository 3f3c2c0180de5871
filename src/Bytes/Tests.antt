-- ===== src/Bytes/Tests.antt =====
-- The helpers of bytes.c at concrete inputs.
