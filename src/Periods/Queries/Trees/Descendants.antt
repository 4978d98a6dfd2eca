-- ===== src/Periods/Queries/Trees/Descendants.antt =====
-- The descendants of a period of a valid calendar.
