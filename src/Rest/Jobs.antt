-- ===== src/Rest/Jobs.antt =====
-- A job over HTTP, from its submission to its result.
