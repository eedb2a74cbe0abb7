-- ===== src/Libk/Text/Tests.antt =====
-- Numbers as text at concrete inputs.
