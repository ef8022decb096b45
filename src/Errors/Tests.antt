-- ===== src/Errors/Tests.antt =====
-- Codes at concrete errors.
