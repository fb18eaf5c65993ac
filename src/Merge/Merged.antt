-- ===== src/Merge/Merged.antt =====
-- The rows that a merge adds: those of both packages, their ids shifted.
use ray_vault.Builder.{Builder}
use ray_vault.Merge.{Merge}
use ray_vault.Merge.Rows.{Rows}
