-- ===== src/DeadLetter/Overlaps.antt =====
-- Two calls of record_failure that overlap: each looks for an open entry before the other commits.
