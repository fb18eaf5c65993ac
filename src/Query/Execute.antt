-- ===== src/Query/Execute.antt =====
-- src/internal/rv_query.c: `rv_query_execute`, which takes the room of its results from the arena.
-- The index and the tables lie in the block `nodes` of the arena; a use of them after the arena has
-- moved to another block is a `fault`. `qsort` is the C library's.
pub mod Answers
use Prim.Native.Nat.{Ordering}
use ray_vault.Base.{
  ℕ, Bool, false, not, ◌&&◌, ◌==◌, ltb, if◌then◌else◌, Option, none, some, List, [], ◌∷◌, length,
  ◌≡◌, ◌≢◌, Bool-cases, inl, inr, refl, subst, sym, ◌∙◌,
}
use mathlib.Core.List.{Perm}
use mathlib.Core.List.Perm
use ray_vault.Arena.{Arena, Heap}
use ray_vault.Arena.Stays.{Stays, calloc-base}
use ray_vault.Decoding
use ray_vault.Decoding.{
  Decoder, Result, err, Safe, fault, ok, ◌>>=◌, ◌>>◌, done, fail_if, load, touch, >>=-eq-ok,
  same_block, same_block_self, new_items, current, touch-Safe, new_items-Safe, current-Safe,
  done-Safe, load-Safe, >>=-Safe,
}
use ray_vault.Records.{WindowRec}
use ray_vault.Xref.{Index, find_wave, is_none}
use ray_vault.Query.{
  MarkerInfo, QueryPlan, query_markers, windows_for_route, window_of, marker_info_cmp_dist,
  marker_info_cmp_sev, holds_of, any_of, is_stray,
}

-- What `rv_query_execute` gives back: the rows and the windows' ids, with the blocks that they lie in.
pub record QueryResult : Type 0 where
  pub markers : List MarkerInfo
  pub markers_block : Option ℕ
  pub window_ids : List ℕ
  pub windows_block : Option ℕ
  pub window_count : ℕ

-- The window of the marker has a wave that the index knows.
pub has_wave : Index → MarkerInfo → Bool
has_wave idx m =
    holds_of (λ (w : WindowRec). not (is_none (find_wave idx w.wave_block_id)))
      (window_of idx m.window_id)

-- The compaction in place: the rows that are kept move to the front.
unfoldable pub with_waves : Index → List MarkerInfo → List MarkerInfo
with_waves idx [] = []
with_waves idx (m ∷ ms) = if has_wave idx m then m ∷ with_waves idx ms else with_waves idx ms

-- `rv_index_query_markers` into the `cap` rows, where -1 ends the query. Its count is then clamped
-- to `cap`, and so is the number of the rows here.
abbrev pub rows_or_fail : Result (List MarkerInfo × ℕ) → Decoder (List MarkerInfo)
rows_or_fail err a = (err, a)
rows_or_fail fault a = (fault, a)
rows_or_fail (ok (rows, n)) a = (ok rows, a)

-- The reads of the windows by the loop of `require_wave`.
abbrev pub wave_reads : Index → Bool → List MarkerInfo → Decoder (Unit {0})
wave_reads idx require_wave rows a = (
  if require_wave && any_of (λ m. is_stray (window_of idx m.window_id)) rows then fault else ok tt,
  a,
)

-- A loop over nodes of the index reads the block, where there are nodes.
unfoldable pub use_nodes : {A : Type 0} → Option ℕ → List A → Decoder (Unit {0})
use_nodes nodes [] = done tt
use_nodes nodes (x ∷ xs) = touch nodes

module _ (less : ℕ → ℕ → Bool)
    (qsort : (MarkerInfo → MarkerInfo → Ordering) → List MarkerInfo → List MarkerInfo) where
  unfoldable pub sort_rows : QueryPlan → List MarkerInfo → List MarkerInfo
  sort_rows plan rows =
      if plan.sort_by_distance && ltb 1 (length rows)
      then qsort (marker_info_cmp_dist less) rows
      else if plan.sort_by_severity && ltb 1 (length rows)
      then qsort marker_info_cmp_sev rows
      else rows

  abbrev pub rows_of : Index → QueryPlan → List MarkerInfo → List MarkerInfo
  rows_of idx plan rows = sort_rows plan (if plan.require_wave then with_waves idx rows else rows)

  module _ (h : Heap) (nodes : Option ℕ) (idx : Index) (plan : QueryPlan) where
    abbrev pub row_cap : ℕ
    row_cap = if plan.limit == 0 then 1024 else plan.limit

    abbrev pub id_cap : ℕ
    id_cap = if length idx.windows == 0 then 1 else length idx.windows

    -- The part that fills the windows' ids.
    unfoldable pub with_ids : List MarkerInfo → Option ℕ → Option ℕ → Decoder QueryResult
    with_ids rows markers_block windows_block = do
      use_nodes nodes idx.windows
      let windows = windows_for_route idx plan.filter.route_id (some id_cap)
      done (record {
        markers = rows_of idx plan rows;
        markers_block = markers_block;
        window_ids = windows.0;
        windows_block = windows_block;
        window_count = windows.1;
      })

    -- The part behind the room for the rows.
    unfoldable pub with_rows : Option ℕ → Decoder QueryResult
    with_rows markers_block = do
      use_nodes nodes idx.markers
      rows ← rows_or_fail (query_markers less idx plan.filter (some row_cap))
      wave_reads idx plan.require_wave rows
      new_items h id_cap 4 4
      windows_block ← current
      with_ids rows markers_block windows_block

    -- 20 bytes to a row.
    unfoldable pub execute : Decoder QueryResult
    execute = do new_items h row_cap 20 8; markers_block ← current; with_rows markers_block

-- Nodes that lie in the arena's block are read.
pub use_nodes_here :
    {A : Type 0} (nodes : Option ℕ) (xs : List A) (a : Arena)
    → a.base ≡ nodes
    → use_nodes nodes xs a ≡ (ok tt, a)
unfolding use_nodes touch
use_nodes_here nodes [] a at = refl
use_nodes_here nodes (x ∷ xs) a at = rw (at, same_block_self nodes) refl
