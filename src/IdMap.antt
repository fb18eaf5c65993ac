-- ===== src/IdMap.antt =====
-- src/internal/rv_index.c: the maps from an id to a position, `rv_idmap_put` and the lookups of
-- `rv_index_find_window`, `rv_index_find_wave` and `rv_index_find_route`.
-- A map lies in the arena: `block` is the arena's block that it was allocated in, and an access
-- after the arena has moved to another block is a `fault`, as is a write past the capacity.
pub mod Laws
pub mod Faults
mod Examples
use ray_vault.Base.{
  ℕ, zero, suc, ◌+◌, ◌-◌, ◌*◌, ◌/◌, ◌^◌, Bool, true, false, not, ◌&&◌, ◌||◌, ◌==◌, ltb, leb,
  if◌then◌else◌, Option, none, some, List, [], ◌∷◌, ◌++◌, length, get_elem?, set, replicate, u32,
}
use ray_vault.Arena.{Arena, Heap, calloc}
use ray_vault.Decoding.{
  Result, ok, err, fault, Decoder, ◌>>=◌, ◌>>◌, done, fail_if, same_block, touch,
}

-- No cells are the NULL map of capacity 0.
pub record IdMap : Type 0 where
  pub cells : List ℕ
  pub block : Option ℕ

abbrev pub no_map : IdMap
no_map = record { cells = []; block = none }

-- The doubling loop of `rv_idmap_put`, with fuel; `none` is its `return -1`.
pub fit : ℕ → ℕ → ℕ → Option ℕ
fit zero ncap need = none
fit (suc fuel) ncap need = elim (ltb ncap need) [
  | false ↦ some ncap
  | true ↦ elim (ltb (0x7fffffff / 2) ncap) [ true ↦ none | false ↦ fit fuel (u32 (ncap * 2)) need ]
]

-- The new map of `ncap` cells, with the old cells copied: `memcpy` reads the old block.
unfoldable pub regrow : Heap → ℕ → IdMap → Decoder IdMap
regrow h ncap m a =
    let (cells, a') = calloc h a ncap 4 4 in
    elim cells [
      | none ↦ (err, a')
      | some p ↦
          if length m.cells == 0 || same_block m.block a'.base
          then (
            ok (record { cells = m.cells ++ replicate (ncap - length m.cells) 0; block = a'.base }),
            a',
          )
          else (fault, a')
    ]

-- `if (need > *cap) { ... }`. A 32-bit capacity doubles at most 32 times.
pub make_fit : Heap → ℕ → IdMap → Decoder IdMap
unfolding regrow
make_fit h need m a =
    if ltb (length m.cells) need
    then elim (fit 33 (if length m.cells == 0 then 32 else length m.cells) need) [
      | none ↦ (err, a)
      | some ncap ↦ regrow h ncap m a
    ]
    else (ok m, a)

-- `(*map)[id] = pos_plus;`
pub store : ℕ → ℕ → IdMap → Decoder IdMap
store id pos_plus m a =
    if ltb id (length m.cells) && same_block m.block a.base
    then (ok (record m { cells = set m.cells id pos_plus }), a)
    else (fault, a)

-- `rv_idmap_put`: `need = id + 1` on 32 bits.
pub put : Heap → ℕ → ℕ → IdMap → Decoder IdMap
put h id pos_plus m =
    if id == 0 then done m else do m' ← make_fit h (u32 (id + 1)) m; store id pos_plus m'

-- A loop of `rv_index_build` over a table (its ids, from position i on), whose records lie in the
-- block `table`; it writes nodes in the block `nodes`. The fields of a node, but for the id, are left
-- out.
pub put_all : Heap → Option ℕ → Option ℕ → ℕ → List ℕ → IdMap → Decoder IdMap
put_all h table nodes i [] m = done m
put_all h table nodes i (id ∷ ids) m = do
  touch table
  touch nodes
  m' ← put h id (i + 1) m
  put_all h table nodes (i + 1) ids m'

-- The part of `rv_index_build` for the routes, the windows or the waves: nodes of `node_size` bytes.
pub build_map : Heap → ℕ → Option ℕ → List ℕ → Decoder IdMap
unfolding put_all
build_map h node_size table ids a =
    let (nodes, a') = calloc h a (length ids) node_size 8 in
    if length ids == 0
    then (ok no_map, a)
    else elim nodes [ none ↦ (err, a') | some p ↦ put_all h table a'.base 0 ids no_map a' ]

-- `rv_index_find_window`, `..._wave` and `..._route` on a ready index.
unfoldable pub find : IdMap → ℕ → Option ℕ
find m id = if leb (length m.cells) id then none else elim (get_elem? m.cells id) [
  | none ↦ none
  | some cell ↦ if cell == 0 then none else some (cell - 1)
]
