-- ===== src/Utf/Tests.antt =====
-- The conversions of src/util.c at concrete texts.
