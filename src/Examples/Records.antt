-- ===== src/Examples/Records.antt =====
-- A record of a cooldown.
