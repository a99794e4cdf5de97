-- ===== src/Apply/Authority.antt =====
-- Who may change the rows that say who is an indexer.
use openpact.Json.{Json}
