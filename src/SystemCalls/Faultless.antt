-- ===== src/SystemCalls/Faultless.antt =====
-- Which calls go through a pointer to freed memory.
