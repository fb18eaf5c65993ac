-- ===== src/Stream.antt =====
-- src/internal/rv_stream.c: streams over the windows of a route, and cursors, with the waves that they
-- pin in the cache.
-- The tables and the order are values; that their blocks are still the arena's is a precondition of
-- the code's callers. `address pos` is the pointer to the samples of the wave at `pos`. The parsed
-- package, which no operation reads, and the route, which is only stored, are left out. Pointers are
-- not NULL, and `false` or `none` is -1.
mod Examples
pub mod Order
pub mod Pinned
use ray_vault.Base.{
  ℕ, zero, suc, ◌+◌, ◌-◌, Bool, true, false, not, ◌&&◌, ◌||◌, ◌==◌, ltb, leb, if◌then◌else◌, Option,
  none, some, List, [], ◌∷◌, length, get_elem?, u32, u64,
}
use ray_vault.Arena.{Arena, Heap}
use ray_vault.Decoding.{Decoder, ok, ◌>>=◌, ◌>>◌, done, new_items}
use ray_vault.Records.{WindowRec, WaveRec}
use ray_vault.Cache.{WaveCache, WaveBlock, Entry, get, put_from_block, pin, unpin, evict_lru}
use ray_vault.Xref.{Index, find_window, find_wave}

pub record WaveSlice : Type 0 where
  pub samples : ℕ
  pub count : ℕ
  pub start_m : ℕ
  pub step_m : ℕ
  pub window_id : ℕ

-- The block that a stream or a cursor has pinned.
pub record Pin : Type 0 where
  pub pinned_block : ℕ
  pub has_pin : Bool

pub record Stream : Type 0 where
  pub window_order : List ℕ
  pub order_index : ℕ
  pub pinned : Pin
  pub cache_generation_at_open : ℕ

pub record Cursor : Type 0 where
  pub cur_window_id : ℕ
  pub cur_wave_pos : ℕ
  pub pinned : Pin
  pub cache_generation_at_open : ℕ

abbrev pub no_pin : Pin
no_pin = record { pinned_block = 0; has_pin = false }

-- The positions of the windows of the route, from position i on; route 0 is every route.
pub matching : ℕ → ℕ → List WindowRec → List ℕ
matching route_id i [] = []
matching route_id i (w ∷ ws) =
    let rest = matching route_id (i + 1) ws in
    if (route_id == 0) || (w.route_id == route_id) then i ∷ rest else rest

abbrev pub opened_stream : List ℕ → WaveCache → Stream
opened_stream order cache = record {
  window_order = order;
  order_index = 0;
  pinned = no_pin;
  cache_generation_at_open = cache.generation;
}

-- The room for the order comes from the arena.
unfoldable pub stream_open : Heap → Index → WaveCache → ℕ → Decoder Stream
unfolding matching
stream_open h idx cache route_id =
    let order = matching route_id 0 idx.windows in
    (if length order == 0 then done tt else new_items h (length order) 4 4)
    >> done (opened_stream order cache)

unfoldable pub next_window : Stream → Option ℕ × Stream
next_window st = elim (get_elem? st.window_order st.order_index) [
  | none ↦ (none, st)
  | some w ↦ (some w, record st { order_index = u32 (st.order_index + 1) })
]

-- `rv_cache_get`, and after a miss `rv_cache_put_from_block` and `rv_cache_get` again.
unfoldable pub get_or_put : WaveCache → WaveBlock → Option ℕ × WaveCache
get_or_put c b =
    let (hit, c₁) = get c b.block_id in
    elim hit [
      | some i ↦ (some i, c₁)
      | none ↦
          let (stored, c₂) = put_from_block c₁ b in if stored then get c₂ b.block_id else (none, c₂)
    ]

-- The pin moves to the block, if `rv_cache_pin` succeeds.
unfoldable pub repin : WaveCache → Pin → ℕ → WaveCache × Pin
repin c p block_id =
    let drop = p.has_pin && not (p.pinned_block == block_id) in
    let c₁ = if drop then (unpin c p.pinned_block).1 else c in
    let p₁ = if drop then record p { has_pin = false } else p in
    let (held, c₂) = pin c₁ block_id in
    (c₂, if held then record { pinned_block = block_id; has_pin = true } else p₁)

-- `if (cache->count + 1 >= cache->capacity) (void)rv_cache_evict_lru(cache);`
unfoldable pub pressure : WaveCache → WaveCache
pressure c = if leb c.capacity (u64 (c.count + 1)) then (evict_lru c).1 else c

abbrev pub slice_of : Entry → WaveSlice
slice_of e = record {
  samples = e.samples;
  count = e.sample_count;
  start_m = e.start_m;
  step_m = e.step_m;
  window_id = e.window_id;
}

-- `rv_fill_slice_from_cache_or_block`: the slice is read from the entry after the eviction.
unfoldable pub fill_slice : WaveCache → Pin → WaveBlock → Option WaveSlice × WaveCache × Pin
fill_slice c p b =
    let (hit, c₁) = get_or_put c b in
    elim hit [
      | none ↦ (none, c₁, p)
      | some i ↦
          let (c₂, p') = repin c₁ p b.block_id in
          let c₃ = pressure c₂ in
          elim (get_elem? c₃.entries i) [
            | none ↦ (none, c₃, p')
            | some e ↦ (some (slice_of e), c₃, p')
          ]
    ]

module _ (address : ℕ → ℕ) where
  abbrev pub block_at : ℕ → WaveRec → WaveBlock
  block_at pos b = record {
    block_id = b.block_id;
    window_id = b.window_id;
    sample_count = b.sample_count;
    start_m = b.start_m;
    step_m = b.step_m;
    samples = address pos;
  }

  -- The wave that the window under way names, by its position.
  pub current_wave : Index → Stream → Option ℕ
  current_wave idx st =
      if st.order_index == 0 then none else elim (get_elem? st.window_order (st.order_index - 1)) [
        | none ↦ none
        | some windex ↦ elim (get_elem? idx.windows windex) [
          | none ↦ none
          | some w ↦ find_wave idx w.wave_block_id
        ]
      ]

  unfoldable pub next_wave : Index → WaveCache → Stream → Option WaveSlice × WaveCache × Stream
  unfolding current_wave
  next_wave idx c st =
      if not (c.generation == st.cache_generation_at_open)
      then (none, c, st)
      else elim (current_wave idx st) [
        | none ↦ (none, c, st)
        | some pos ↦ elim (get_elem? idx.waves pos) [
          | none ↦ (none, c, st)
          | some b ↦
              let (slice, c', p) = fill_slice c st.pinned (block_at pos b) in
              (slice, c', record st { pinned = p })
        ]
      ]

  -- A stale generation does not stop a cursor.
  unfoldable pub cursor_read : Index → WaveCache → Cursor → Option WaveSlice × WaveCache × Cursor
  cursor_read idx c cur = elim (get_elem? idx.waves cur.cur_wave_pos) [
    | none ↦ (none, c, cur)
    | some b ↦
        let (slice, c', p) = fill_slice c cur.pinned (block_at cur.cur_wave_pos b) in
        (slice, c', record cur { pinned = p })
  ]

-- Closing drops the pin and clears the stream.
unfoldable pub close_pin : WaveCache → Pin → WaveCache
close_pin c p = if p.has_pin then (unpin c p.pinned_block).1 else c

pub stream_close : WaveCache → Stream → WaveCache × Stream
stream_close c st = (
  close_pin c st.pinned,
  record { window_order = []; order_index = 0; pinned = no_pin; cache_generation_at_open = 0 },
)

pub cursor_open : WaveCache → Cursor
cursor_open c = record {
  cur_window_id = 0;
  cur_wave_pos = 0;
  pinned = no_pin;
  cache_generation_at_open = c.generation;
}

unfoldable pub cursor_seek : Index → Cursor → ℕ → Bool × Cursor
cursor_seek idx cur window_id = elim (find_window idx window_id) [
  | none ↦ (false, cur)
  | some wpos ↦ elim (get_elem? idx.windows wpos) [
    | none ↦ (false, cur)
    | some w ↦ elim (find_wave idx w.wave_block_id) [
      | none ↦ (false, cur)
      | some pos ↦ (true, record cur { cur_window_id = window_id; cur_wave_pos = pos })
    ]
  ]
]

-- The window behind the first with the id.
pub following : ℕ → List WindowRec → Option ℕ
following id [] = none
following id (w ∷ []) = none
following id (w ∷ v ∷ ws) =
    let rest = following id (v ∷ ws) in if w.window_id == id then some v.window_id else rest

pub cursor_advance : Index → Cursor → Bool × Cursor
unfolding following
cursor_advance idx cur = elim (following cur.cur_window_id idx.windows) [
  | none ↦ (false, cur)
  | some id ↦ cursor_seek idx cur id
]

pub cursor_close : WaveCache → Cursor → WaveCache × Cursor
cursor_close c cur = (
  close_pin c cur.pinned,
  record { cur_window_id = 0; cur_wave_pos = 0; pinned = no_pin; cache_generation_at_open = 0 },
)
