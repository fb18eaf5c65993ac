-- ===== src/Cache/Use.antt =====
-- `rv_cache_put_from_block` and `rv_cache_get` together: what was put is found again.
use ray_vault.Base.{
  ℕ, ◌+◌, ◌^◌, ◌<◌, ◌≡◌, inl, inr, refl, ap, ◌∙◌, true, some, ◌==◌, get_elem?, arith, Bool-cases,
  Option-cases, get_elem?-set_self, u64,
}
use ray_vault.Cache.{Entry, WaveCache, WaveBlock, find, free_from}
use ray_vault.Cache.{insert, fresh, refresh, make_room, put_from_block, get}
use ray_vault.Cache.Slots.{holds_weight, total-two, total-ge, Holds, get_elem?-lt}
use ray_vault.Cache.Inv.{IsValid, find-some, find-none, free-some}
use ray_vault.Cache.Keep.{put_from_block-IsValid}

-- A slot in use by a block is the one that `rv_cache_find` gives.
pub find-at :
    (c : WaveCache) (i id : ℕ) (e : Entry)
    → IsValid c
    → get_elem? c.entries i ≡ some e
    → Holds id e
    → find c id ≡ some i
find-at c i id e v at holds = elim (Option-cases (find c id)) [
  | inl miss ↦ absurd (
      omega
        (arith, find-none c id miss, total-ge (holds_weight id) c.entries i e at, weight e holds))
  | inr (j, hit) ↦
      let (e', at', holds') = find-some c id j hit in
      let same : j ≡ i = elim (Bool-cases (i == j)) [
        | inl eq ↦ ground arith
        | inr ne ↦ absurd (
            omega (
              arith,
              total-two (holds_weight id) c.entries i j e e' at at' (ground arith),
              weight e holds,
              weight e' holds',
              v.unique id,
            ))
      ] in
      hit ∙ ap some same
]
  where
    weight : (x : Entry) → Holds id x → holds_weight id x ≡ 1
    weight x h = ground arith

-- The entry carries the block's slice.
abbrev pub Carries : WaveBlock → Entry → Type 0
Carries b e =
    (e.samples ≡ b.samples)
    × (e.sample_count ≡ b.sample_count)
    × (e.start_m ≡ b.start_m)
    × (e.step_m ≡ b.step_m)
    × (e.window_id ≡ b.window_id)

-- Where `rv_cache_put_from_block` succeeds, a slot of the current generation carries the block.
record Stored (b : WaveBlock) (c' : WaveCache) : Type 0 where
  at : ℕ
  entry : Entry
  there : get_elem? c'.entries at ≡ some entry
  holds : Holds b.block_id entry
  carries : Carries b entry
  current : entry.generation ≡ c'.generation

insert-Stored : (c : WaveCache) (b : WaveBlock) → (insert c b).0 ≡ true → Stored b (insert c b).1
unfolding insert
insert-Stored c b done = elim (Option-cases (free_from c.entries 0)) [
  | inl full ↦ ground arith
  | inr (i, free) ↦
      let (e, at, idle) = free-some c i free in
      rw (free, insert)
        (record {
          at = i;
          entry = fresh c b;
          there = get_elem?-set_self c.entries i (fresh c b) (get_elem?-lt c.entries i e at);
          holds = unfold fresh in (refl, refl);
          carries = unfold fresh in (refl, refl, refl, refl, refl);
          current = unfold fresh in refl;
        })
]

put_from_block-Stored :
    (c : WaveCache) (b : WaveBlock)
    → (put_from_block c b).0 ≡ true
    → Stored b (put_from_block c b).1
unfolding put_from_block
put_from_block-Stored c b done = elim (Option-cases (find c b.block_id)) [
  | inl absent ↦ elim (Bool-cases (make_room c).0) [
    | inl room ↦ rw (absent, put_from_block, room) (insert-Stored (make_room c).1 b (ground arith))
    | inr none_left ↦ ground arith
  ]
  | inr (i, present) ↦
      let (e, at, holds) = find-some c b.block_id i present in
      rw (present, put_from_block, at)
        (record {
          at = i;
          entry = refresh c b e;
          there = get_elem?-set_self c.entries i (refresh c b e) (get_elem?-lt c.entries i e at);
          holds = unfold refresh in holds;
          carries = unfold refresh in (refl, refl, refl, refl, refl);
          current = unfold refresh in refl;
        })
]

get-Stored :
    (c : WaveCache) (b : WaveBlock)
    → IsValid c
    → Stored b c
    → (i : ℕ) × (e : Entry) × ((get c b.block_id).0 ≡ some i)
      × (get_elem? (get c b.block_id).1.entries i ≡ some e)
      × Carries b e
unfolding get
get-Stored c b v s =
    let hit : find c b.block_id ≡ some s.at = find-at c s.at b.block_id s.entry v s.there s.holds in
    let touched : Entry = record (s.entry) { last_tick = u64 (c.tick + 1) } in
    let there =
      get_elem?-set_self c.entries s.at touched (get_elem?-lt c.entries s.at s.entry s.there) in
    (
      s.at,
      touched,
      ground (arith, hit, s.there, s.current),
      ground (arith, hit, s.there, s.current, there),
      s.carries,
    )

-- Where `rv_cache_put_from_block` of a block into a valid cache succeeds, and the clock does not wrap,
-- the next `rv_cache_get` of the block's id finds a slot that carries the block's slice.
pub get-put_from_block :
    (c : WaveCache) (b : WaveBlock)
    → IsValid c
    → c.tick + 1 < 2 ^ 64
    → (put_from_block c b).0 ≡ true
    → (i : ℕ) × (e : Entry) × ((get (put_from_block c b).1 b.block_id).0 ≡ some i)
      × (get_elem? (get (put_from_block c b).1 b.block_id).1.entries i ≡ some e)
      × Carries b e
get-put_from_block c b v t done =
    get-Stored (put_from_block c b).1 b (put_from_block-IsValid c b v t)
      (put_from_block-Stored c b done)
