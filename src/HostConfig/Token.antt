-- ===== src/HostConfig/Token.antt =====
-- The token that the daemon makes sure of, and the one that its clients read.
