-- ===== src/Analysis/Stale/Pairing.antt =====
-- Where a measurement of stale authority comes from, and what a finding of it rests on.
