-- ===== src/Remote/Tests.antt =====
-- x
