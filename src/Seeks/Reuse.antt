-- ===== src/Seeks/Reuse.antt =====
-- src/seekproc.c: entries of `seekList` that are used again.
