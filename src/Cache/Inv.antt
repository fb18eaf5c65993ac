-- ===== src/Cache/Inv.antt =====
-- The invariant of the cache: the count is right, no block has two slots, and no slot was used
-- later than the clock says. `rv_cache_*` keeps it while the clock does not wrap.
use ray_vault.Base.{
  ℕ, zero, suc, ◌+◌, ◌-◌, ◌^◌, ◌≤◌, ◌<◌, ◌≡◌, refl, Bool, true, false, none, some, List, [], ◌∷◌,
  ◌⊎◌, length, get_elem?, set, arith, length-set, length-replicate, Option-cases, inl, inr, ltb,
  if◌then◌else◌, replicate, ◌==◌, u64,
}
use ray_vault.Cache.{Entry, WaveCache, WaveBlock, empty_slot, init, find, invalidate}
use ray_vault.Cache.{insert, fresh, set_pin, free_from}
use ray_vault.Cache.Slots.{
  Found-first, used, holding, in_use_weight, holds_weight, total-set, total-replicate,
  find_from-some, find_from-none, free_from-some, total-ge, Holds,
}

-- `at` of an entry below a bound on its tick.
abbrev pub Recent : ℕ → List Entry → Type 0
Recent now [] = Unit {0}
Recent now (e ∷ es) = (e.last_tick ≤ now) × Recent now es

pub record IsValid (c : WaveCache) : Type 0 where
  pub slots : length c.entries ≡ c.capacity
  pub two : 2 ≤ c.capacity
  pub counted : c.count ≡ used c.entries
  pub unique : (id : ℕ) → holding id c.entries ≤ 1
  pub recent : Recent c.tick c.entries

pub Recent-set :
    (now : ℕ) (es : List Entry) (i : ℕ) (e : Entry)
    → Recent now es
    → e.last_tick ≤ now
    → Recent now (set es i e)
Recent-set now [] i e r h = r
Recent-set now (x ∷ es) zero e r h = (h, r.1)
Recent-set now (x ∷ es) (suc i) e r h = (r.0, Recent-set now es i e r.1 h)

pub Recent-later : (now later : ℕ) (es : List Entry) → now ≤ later → Recent now es → Recent later es
Recent-later now later [] h r = r
Recent-later now later (e ∷ es) h r = (omega arith, Recent-later now later es h r.1)

pub Recent-get_elem? :
    (now : ℕ) (es : List Entry) (i : ℕ) (e : Entry)
    → Recent now es
    → get_elem? es i ≡ some e
    → e.last_tick ≤ now
Recent-get_elem? now [] i e r h = cc
Recent-get_elem? now (x ∷ es) zero e r h = let p : x ≡ e = ground arith in rw (← p) r.0
Recent-get_elem? now (x ∷ es) (suc i) e r h = Recent-get_elem? now es i e r.1 h

Recent-replicate : (now n : ℕ) → Recent now (replicate n empty_slot)
Recent-replicate now zero = tt
Recent-replicate now (suc n) = (omega arith, Recent-replicate now n)

-- A cleared array is valid.
cleared-IsValid :
    (c : WaveCache) (n : ℕ)
    → c.entries ≡ replicate n empty_slot
    → n ≡ c.capacity
    → 2 ≤ n
    → c.count ≡ 0
    → IsValid c
cleared-IsValid c n e size two empty = record {
  slots = rw e (omega (arith, length-replicate n empty_slot));
  two = omega arith;
  counted = rw e (omega (arith, total-replicate in_use_weight n refl));
  unique = λ id. rw e (omega (arith, total-replicate (holds_weight id) n refl));
  recent = rw e (Recent-replicate c.tick n);
}

pub init-IsValid : (capacity : ℕ) → IsValid (init capacity)
unfolding init
init-IsValid capacity =
    cleared-IsValid (init capacity) (if ltb capacity 2 then 2 else capacity) refl refl
      (ground arith) refl

pub invalidate-IsValid : (c : WaveCache) → IsValid c → IsValid (invalidate c)
unfolding invalidate
invalidate-IsValid c v =
    cleared-IsValid (invalidate c) (length c.entries) refl v.slots (omega (arith, v.slots, v.two))
      refl

-- Writing one slot, with the count and the clock that go with it.
pub slot-IsValid :
    (c c' : WaveCache) (i : ℕ) (e e' : Entry)
    → IsValid c
    → get_elem? c.entries i ≡ some e
    → c'.entries ≡ set c.entries i e'
    → c'.capacity ≡ c.capacity
    → c'.count + in_use_weight e ≡ c.count + in_use_weight e'
    → c.tick ≤ c'.tick
    → e'.last_tick ≤ c'.tick
    → ((id : ℕ) → (holds_weight id e' ≤ holds_weight id e) ⊎ (holding id c.entries ≡ 0))
    → IsValid c'
slot-IsValid c c' i e e' v at entries capacity count tick late ids = record {
  slots = rw entries (omega (arith, length-set c.entries i e', v.slots));
  two = omega (arith, v.two);
  counted = rw entries (omega (arith, total-set in_use_weight c.entries i e e' at, v.counted));
  unique = λ id.
      rw entries
        (grind (arith, total-set (holds_weight id) c.entries i e e' at, v.unique id, ids id));
  recent = rw entries (
      Recent-set c'.tick c.entries i e' (Recent-later c.tick c'.tick c.entries tick v.recent) late);
}

pub evict_at-IsValid :
    (c : WaveCache) (i : ℕ) (e : Entry)
    → IsValid c
    → get_elem? c.entries i ≡ some e
    → e.in_use ≡ true
    → IsValid (record c {
      entries = set c.entries i empty_slot;
      count = if c.count == 0 then 0 else c.count - 1;
      evictions = u64 (c.evictions + 1);
    })
evict_at-IsValid c i e v at live =
    let here : in_use_weight e ≤ used c.entries = total-ge in_use_weight c.entries i e at in
    slot-IsValid c _ i e empty_slot v at refl refl (ground (arith, v.counted)) (omega arith)
      (omega arith) (λ id. inl (omega arith))

pub free-some :
    (c : WaveCache) (i : ℕ)
    → free_from c.entries 0 ≡ some i
    → (e : Entry) × (get_elem? c.entries i ≡ some e) × (e.in_use ≡ false)
free-some c i h = Found-first c.entries (λ e. e.in_use ≡ false) i (free_from-some c.entries 0 i h)

pub insert-IsValid :
    (c : WaveCache) (b : WaveBlock)
    → IsValid c
    → c.tick + 1 < 2 ^ 64
    → holding b.block_id c.entries ≡ 0
    → IsValid (insert c b).1
unfolding insert fresh
insert-IsValid c b v t absent = elim (Option-cases (free_from c.entries 0)) [
  | inl full ↦ rw (full, insert) v
  | inr (i, free) ↦
      let (e, at, idle) = free-some c i free in
      rw (free, insert)
        (slot-IsValid c _ i e (fresh c b) v at refl refl (ground arith) (omega arith) (omega arith)
          (λ id. ground (arith, absent)))
]

-- What `rv_cache_find` finds is in use by the block; where it finds nothing, no slot is.
pub find-some :
    (c : WaveCache) (id i : ℕ)
    → find c id ≡ some i
    → (e : Entry) × (get_elem? c.entries i ≡ some e) × Holds id e
unfolding find
find-some c id i h = Found-first c.entries (Holds id) i (find_from-some c.entries id 0 i h)

pub find-none : (c : WaveCache) (id : ℕ) → find c id ≡ none → holding id c.entries ≡ 0
unfolding find
find-none c id h = find_from-none c.entries id 0 h

-- Rewriting a slot that stays with its block.
pub same_block-IsValid :
    (c c' : WaveCache) (i : ℕ) (e e' : Entry)
    → IsValid c
    → get_elem? c.entries i ≡ some e
    → c'.entries ≡ set c.entries i e'
    → c'.capacity ≡ c.capacity
    → c'.count ≡ c.count
    → c.tick ≤ c'.tick
    → e'.last_tick ≤ c'.tick
    → e'.in_use ≡ e.in_use
    → e'.block_id ≡ e.block_id
    → IsValid c'
same_block-IsValid c c' i e e' v at entries capacity count tick late live block =
    slot-IsValid c c' i e e' v at entries capacity (rw (live, count)) tick late
      (λ id. inl (rw (live, block) (omega arith)))

pub set_pin-IsValid :
    (flag : Bool) (c : WaveCache) (id : ℕ) → IsValid c → IsValid (set_pin flag c id).1
unfolding set_pin
set_pin-IsValid flag c id v = elim (Option-cases (find c id)) [
  | inl miss ↦ rw (miss, set_pin) v
  | inr (i, hit) ↦
      let (e, at, holds) = find-some c id i hit in
      rw (hit, set_pin, at)
        (same_block-IsValid c _ i e (record e { pinned = flag }) v at refl refl refl (omega arith)
          (Recent-get_elem? c.tick c.entries i e v.recent at) refl refl)
]
