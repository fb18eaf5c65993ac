-- ===== src/Parser/Safe.antt =====
-- The parser's decoders stay inside their payloads.
use ray_vault.Arena.Stays.{Stays}
use ray_vault.Section.Tables.{Inside}
use ray_vault.Parser.{Parser}
