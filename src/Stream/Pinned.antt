-- ===== src/Stream/Pinned.antt =====
-- The wave that a stream or a cursor hands out stays in its slot of the cache.
use ray_vault.Base.{
  ℕ, ◌+◌, ◌^◌, ◌<◌, ◌≡◌, ◌≢◌, inl, inr, refl, ◌∙◌, ap, sym, subst, Bool, true, false, not, ◌&&◌,
  ◌==◌, leb, none, some, List, get_elem?, get_elem?-set_self, get_elem?-set_ne, arith, Bool-cases,
  Option-cases, u64, u64,
}
use ray_vault.Cache.{
  invalidate, next_generation, WaveCache, WaveBlock, Entry, find, get, put_from_block, set_pin, pin,
  unpin, evict_lru, empty_slot,
}
use ray_vault.Cache.Slots.{Holds, get_elem?-lt}
use ray_vault.Cache.Inv.{IsValid, find-some, set_pin-IsValid}
use ray_vault.Cache.Evict.{Evicted, nobody, slot, evict_lru-Evicted}
use ray_vault.Cache.Keep.{get-IsValid, put_from_block-IsValid, put_from_block-tick}
use ray_vault.Cache.Use.{find-at}
use ray_vault.Stream.{Pin, get_or_put, repin, pressure, slice_of, fill_slice, Stream, next_wave}
use ray_vault.Xref.{Index}

-- Slot i of the cache has the entry.
abbrev pub InSlot : WaveCache → ℕ → Entry → Type 0
InSlot c i e = get_elem? c.entries i ≡ some e

one_entry :
    (es : List Entry) (i j : ℕ) (e f : Entry)
    → get_elem? es i ≡ some e
    → get_elem? es j ≡ some f
    → j ≡ i
    → f ≡ e
one_entry es i j e f at there same =
    let here : get_elem? es i ≡ some f = subst (λ k. get_elem? es k ≡ some f) same there in cc

module _ (c : WaveCache) (v : IsValid c) (i : ℕ) (e : Entry) (at : InSlot c i e) where
  set_pin-other :
      (flag : Bool) (id other : ℕ) → Holds id e → other ≢ id → InSlot (set_pin flag c other).1 i e
  unfolding set_pin
  set_pin-other flag id other holds apart = elim (Option-cases (find c other)) [
    | inl miss ↦ rw (set_pin, miss) at
    | inr (j, hit) ↦
        let (f, there, own) = find-some c other j hit in
        rw (set_pin, hit, there)
          (get_elem?-set_ne c.entries j i (record f { pinned = flag })
              (λ same. apart (
                sym own.1
                ∙ ap (λ (x : Entry). x.block_id) (one_entry c.entries i j e f at there same)
                ∙ holds.1))
            ∙ at)
  ]

  set_pin-own :
      (flag : Bool) (id : ℕ)
      → Holds id e
      → ((set_pin flag c id).0 ≡ true) × InSlot (set_pin flag c id).1 i (record e { pinned = flag })
  unfolding set_pin
  set_pin-own flag id holds =
      rw (set_pin, find-at c i id e v at holds, at)
        (
          refl,
          get_elem?-set_self c.entries i (record e { pinned = flag })
              (get_elem?-lt c.entries i e at),
        )

module _ (c : WaveCache) (i : ℕ) (e : Entry) (at : InSlot c i e) where
  Evicted-pinned : (r : Bool × WaveCache) → Evicted c r → e.pinned ≡ true → InSlot r.1 i e
  Evicted-pinned r (nobody same none_older) held = rw same at
  Evicted-pinned r (slot j f done there ev none_older entries count capacity tick generation) held =
      rw entries (
        get_elem?-set_ne c.entries j i empty_slot (λ same. ground (
          arith,
          ap (λ (x : Entry). x.pinned) (one_entry c.entries i j e f at there same),
          ev,
          held,
        ))
        ∙ at)

  pressure-pinned : e.pinned ≡ true → InSlot (pressure c) i e
  unfolding pressure
  pressure-pinned held = elim (Bool-cases (leb c.capacity (u64 (c.count + 1)))) [
    | inl full ↦ rw (pressure, full) (Evicted-pinned (evict_lru c) (evict_lru-Evicted c) held)
    | inr room ↦ rw (pressure, room) at
  ]

-- A hit is a slot that holds the block.
get-some :
    (c : WaveCache) (id i : ℕ)
    → IsValid c
    → (get c id).0 ≡ some i
    → (e : Entry) × InSlot (get c id).1 i e × Holds id e
unfolding get
get-some c id i v h = elim (Option-cases (find c id)) [
  | inl miss ↦ ground (arith, miss, h)
  | inr (j, hit) ↦
      let (f, there, own) = find-some c id j hit in
      elim (Bool-cases (f.generation == c.generation)) [
        | inl current ↦
            let here : j ≡ i = ground (arith, hit, there, current, h) in
            subst (λ k. (e : Entry) × InSlot (get c id).1 k e × Holds id e) here
              (rw (get, hit, there, current)
                (
                  record f { last_tick = u64 (c.tick + 1) },
                  get_elem?-set_self c.entries j (record f { last_tick = u64 (c.tick + 1) })
                      (get_elem?-lt c.entries j f there),
                  own,
                ))
        | inr stale ↦ ground (arith, hit, there, stale, h)
      ]
]

get-tick : (c : WaveCache) (id : ℕ) → (get c id).0 ≡ none → (get c id).1.tick ≡ c.tick
unfolding get
get-tick c id h = elim (Option-cases (find c id)) [
  | inl miss ↦ rw (get, miss) refl
  | inr (j, hit) ↦
      let (f, there, own) = find-some c id j hit in
      elim (Bool-cases (f.generation == c.generation)) [
        | inl current ↦ ground (arith, hit, there, current, h)
        | inr stale ↦ rw (get, hit, there, stale) refl
      ]
]

-- What `rv_cache_get` or `rv_cache_put_from_block` brings is in its slot.
get_or_put-InSlot :
    (c : WaveCache) (b : WaveBlock) (i : ℕ)
    → IsValid c
    → c.tick + 2 < 2 ^ 64
    → (get_or_put c b).0 ≡ some i
    → IsValid (get_or_put c b).1
      × ((e : Entry) × InSlot (get_or_put c b).1 i e × Holds b.block_id e)
unfolding get_or_put
get_or_put-InSlot c b i v t h = elim (Option-cases (get c b.block_id).0) [
  | inr (j, hit) ↦
      let found : (get c b.block_id).0 ≡ some i = ground (arith, hit, h) in
      rw (get_or_put, hit)
        (get-IsValid c b.block_id v (omega arith), get-some c b.block_id i v found)
  | inl miss ↦
      let c₁ = (get c b.block_id).1 in
      let v₁ = get-IsValid c b.block_id v (omega arith) in
      let same = get-tick c b.block_id miss in
      let c₂ = (put_from_block c₁ b).1 in
      let v₂ = put_from_block-IsValid c₁ b v₁ (omega (arith, same)) in
      let later = put_from_block-tick c₁ b v₁ (omega (arith, same)) in
      elim (Bool-cases (put_from_block c₁ b).0) [
        | inl stored ↦
            let found : (get c₂ b.block_id).0 ≡ some i = ground (arith, miss, stored, h) in
            rw (get_or_put, miss, stored)
              (
                get-IsValid c₂ b.block_id v₂ (omega (arith, later, same)),
                get-some c₂ b.block_id i v₂ found,
              )
        | inr refused ↦ ground (arith, miss, refused, h)
      ]
]

-- The pin moves to the block, whose slot stays.
repin-pinned :
    (c : WaveCache) (p : Pin) (id i : ℕ) (e : Entry)
    → IsValid c
    → InSlot c i e
    → Holds id e
    → InSlot (repin c p id).0 i (record e { pinned = true })
      × ((repin c p id).1 ≡ record { pinned_block = id; has_pin = true })
unfolding repin pin unpin
repin-pinned c p id i e v at holds = elim (Bool-cases (p.has_pin && not (p.pinned_block == id))) [
  | inl other ↦
      let apart : p.pinned_block ≢ id = λ same. ground (arith, other, same) in
      let c₁ = (set_pin false c p.pinned_block).1 in
      let (held, here) =
        set_pin-own c₁ (set_pin-IsValid false c p.pinned_block v) i e
          (set_pin-other c v i e at false id p.pinned_block holds apart) true id holds in
      rw (repin, other, pin, unpin, held) (here, refl)
  | inr own ↦
      let (held, here) = set_pin-own c v i e at true id holds in
      rw (repin, own, pin, held) (here, refl)
]

-- Where the cache is valid and its clock does not wrap, and the block is in the cache or is taken in,
-- the slice has the fields of the block's entry; the eviction that follows spares this entry, which
-- stays in its slot, pinned, and the stream's pin is on the block.
pub fill_slice-pinned :
    (c : WaveCache) (p : Pin) (b : WaveBlock) (i : ℕ)
    → IsValid c
    → c.tick + 2 < 2 ^ 64
    → (get_or_put c b).0 ≡ some i
    → (e : Entry) × Holds b.block_id e
      × InSlot (get_or_put c b).1 i e
      × InSlot (fill_slice c p b).1 i (record e { pinned = true })
      × ((fill_slice c p b).0 ≡ some (slice_of e))
      × ((fill_slice c p b).2 ≡ record { pinned_block = b.block_id; has_pin = true })
unfolding fill_slice
fill_slice-pinned c p b i v t got =
    let (v₁, (e, at, holds)) = get_or_put-InSlot c b i v t got in
    let c₁ = (get_or_put c b).1 in
    let (here, pin_is) = repin-pinned c₁ p b.block_id i e v₁ at holds in
    let c₂ = (repin c₁ p b.block_id).0 in
    let there = pressure-pinned c₂ i (record e { pinned = true }) here refl in
    (
      e,
      holds,
      at,
      rw (fill_slice, got, there) there,
      rw (fill_slice, got, there) refl,
      rw (fill_slice, got, there) pin_is,
    )

-- A stream that was opened on a cache hands out no wave after the cache has been invalidated, and
-- changes nothing.
pub next_wave-invalidate :
    (address : ℕ → ℕ) (idx : Index) (c : WaveCache) (st : Stream)
    → c.generation < 2 ^ 32
    → st.cache_generation_at_open ≡ c.generation
    → next_wave address idx (invalidate c) st ≡ (none, invalidate c, st)
unfolding next_wave invalidate next_generation
next_wave-invalidate address idx c st small opened = ground (arith, small, opened)
