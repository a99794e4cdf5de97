-- ===== src/Tasks/Misordered.antt =====
-- Ids are compared as texts: the entries of one writer past its ninth.
