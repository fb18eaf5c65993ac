-- ===== src/Cache/Evict.antt =====
-- `rv_cache_evict_lru`: whom it evicts, and when it evicts nobody.
use ray_vault.Base.{
  ℕ, ◌+◌, ◌-◌, ◌^◌, ◌≤◌, ◌<◌, ◌≡◌, ◌⊎◌, inl, inr, refl, ap, suc, ◌∙◌, Bool, true, false, not, ◌&&◌,
  ltb, Option, none, some, List, [], ◌∷◌, get_elem?, set, arith, Bool-cases,
}
use ray_vault.Cache.{Entry, WaveCache, empty_slot, scan, evict_lru}
use ray_vault.Cache.Inv.{IsValid, Recent, slot-IsValid}
use ray_vault.Cache.Slots.{used, in_use_weight, total-ge}

-- A slot that may be evicted.
abbrev pub Evictable : Entry → Type 0
Evictable e = (e.in_use ≡ true) × (e.pinned ≡ false)

-- Every slot that may be evicted was used at `tick` or later.
abbrev pub NoneOlder : ℕ → List Entry → Type 0
NoneOlder tick [] = Unit {0}
NoneOlder tick (e ∷ es) = (Evictable e → tick ≤ e.last_tick) × NoneOlder tick es

-- What the scan has found from slot i on, begun with `oldest` and `victim`.
data Scanned (es : List Entry) (i oldest : ℕ) (victim : Option ℕ) : Option ℕ → Type 0 where
  kept : {out : Option ℕ} → out ≡ victim → NoneOlder oldest es → Scanned es i oldest victim out
  older :
      {out : Option ℕ} (k : ℕ) (e : Entry)
      → out ≡ some (i + k)
      → get_elem? es k ≡ some e
      → Evictable e
      → e.last_tick < oldest
      → NoneOlder e.last_tick es
      → Scanned es i oldest victim out

abbrev better : Entry → ℕ → Bool
better e oldest = e.in_use && not e.pinned && ltb e.last_tick oldest

better→fits :
    (e : Entry) (oldest : ℕ) → better e oldest ≡ true → Evictable e × (e.last_tick < oldest)
better→fits e oldest h = ((ground arith, ground arith), ground arith)

worse→late : (e : Entry) (oldest : ℕ) → better e oldest ≡ false → Evictable e → oldest ≤ e.last_tick
worse→late e oldest h ev = ground arith

Scanned-better :
    (e : Entry) (es : List Entry) (i oldest : ℕ) (victim : Option ℕ) {out : Option ℕ}
    → better e oldest ≡ true
    → Scanned es (i + 1) e.last_tick (some i) out
    → Scanned (e ∷ es) i oldest victim out
Scanned-better e es i oldest victim h (kept same none_older) =
    let (ev, lt) = better→fits e oldest h in
    older 0 e (rw same (ap some (omega arith))) refl ev lt ((λ _. omega arith), none_older)
Scanned-better e es i oldest victim h (older k e' same at ev' lt' none_older) =
    let (ev, lt) = better→fits e oldest h in
    older (suc k) e' (rw same (ap some (omega arith))) at ev' (omega arith)
      ((λ _. omega arith), none_older)

Scanned-worse :
    (e : Entry) (es : List Entry) (i oldest : ℕ) (victim : Option ℕ) {out : Option ℕ}
    → better e oldest ≡ false
    → Scanned es (i + 1) oldest victim out
    → Scanned (e ∷ es) i oldest victim out
Scanned-worse e es i oldest victim h (kept same none_older) =
    kept same (worse→late e oldest h, none_older)
Scanned-worse e es i oldest victim h (older k e' same at ev' lt' none_older) =
    older (suc k) e' (rw same (ap some (omega arith))) at ev' lt'
      ((λ ev. omega (arith, worse→late e oldest h ev)), none_older)

scan-Scanned :
    (es : List Entry) (i oldest : ℕ) (victim : Option ℕ)
    → Scanned es i oldest victim (scan es i oldest victim)
unfolding scan
scan-Scanned [] i oldest victim = kept refl tt
scan-Scanned (e ∷ es) i oldest victim = elim (Bool-cases (better e oldest)) [
  | inl yes_it ↦
      rw yes_it
        (Scanned-better e es i oldest victim yes_it (scan-Scanned es (i + 1) e.last_tick (some i)))
  | inr not_it ↦
      rw not_it (Scanned-worse e es i oldest victim not_it (scan-Scanned es (i + 1) oldest victim))
]

-- What `rv_cache_evict_lru` does: it fails on a cache where no slot may be evicted, which it leaves
-- alone; or it clears one slot, which was not pinned and was used longest ago of those that may be.
pub data Evicted (c : WaveCache) : Bool × WaveCache → Type 0 where
  nobody : {r : Bool × WaveCache} → r ≡ (false, c) → NoneOlder (2 ^ 64 - 1) c.entries → Evicted c r
  slot :
      {r : Bool × WaveCache} (i : ℕ) (e : Entry)
      → r.0 ≡ true
      → get_elem? c.entries i ≡ some e
      → Evictable e
      → NoneOlder e.last_tick c.entries
      → r.1.entries ≡ set c.entries i empty_slot
      → r.1.count ≡ c.count - 1
      → r.1.capacity ≡ c.capacity
      → r.1.tick ≡ c.tick
      → r.1.generation ≡ c.generation
      → Evicted c r

evicted :
    (c : WaveCache) (out : Option ℕ)
    → scan c.entries 0 (2 ^ 64 - 1) none ≡ out
    → Scanned c.entries 0 (2 ^ 64 - 1) none out
    → Evicted c (evict_lru c)
unfolding evict_lru
evicted c out h (kept same none_older) = nobody (rw (h, evict_lru, same)) none_older
evicted c out h (older k e same at ev lt none_older) =
    let found : scan c.entries 0 (2 ^ 64 - 1) none ≡ some k = h ∙ same ∙ ap some (omega arith) in
    rw (found, evict_lru) (slot k e refl at ev none_older refl (ground arith) refl refl refl)

pub evict_lru-Evicted : (c : WaveCache) → Evicted c (evict_lru c)
evict_lru-Evicted c = evicted c _ refl (scan-Scanned c.entries 0 (2 ^ 64 - 1) none)

pub Evicted-IsValid : (c : WaveCache) (r : Bool × WaveCache) → IsValid c → Evicted c r → IsValid r.1
Evicted-IsValid c r v (nobody same none_older) = rw same v
Evicted-IsValid c r v (slot i e done at ev none_older entries count capacity tick generation) =
    let here : in_use_weight e ≤ used c.entries = total-ge in_use_weight c.entries i e at in
    slot-IsValid c r.1 i e empty_slot v at entries capacity (ground (arith, v.counted))
      (omega arith) (omega arith) (λ id. inl (omega arith))

-- Where nobody can be evicted, every slot in use is pinned, if no slot was used at the last tick
-- that 64 bits hold.
abbrev pub AllPinned : List Entry → Type 0
AllPinned [] = Unit {0}
AllPinned (e ∷ es) = (e.in_use ≡ true → e.pinned ≡ true) × AllPinned es

NoneOlder-AllPinned :
    (now : ℕ) (es : List Entry)
    → now < 2 ^ 64 - 1
    → Recent now es
    → NoneOlder (2 ^ 64 - 1) es
    → AllPinned es
NoneOlder-AllPinned now [] h r n = tt
NoneOlder-AllPinned now (e ∷ es) h r n =
    ((λ live. pinned_of live), NoneOlder-AllPinned now es h r.1 n.1)
  where
    pinned_of : e.in_use ≡ true → e.pinned ≡ true
    pinned_of live = elim (Bool-cases e.pinned) [
      | inl held ↦ held
      | inr loose ↦ absurd (omega (arith, n.0 (live, loose), r.0))
    ]

-- `rv_cache_evict_lru` on a valid cache, whose clock has not reached the last tick of 64 bits, either
-- fails and changes nothing, with all slots in use pinned; or it succeeds and clears one slot, in use
-- and not pinned, such that no other of that kind was used before it, and counts one entry less.
pub evict_lru_lem :
    (c : WaveCache)
    → IsValid c
    → c.tick < 2 ^ 64 - 1
    → ((evict_lru c ≡ (false, c)) × AllPinned c.entries)
      ⊎ ((i : ℕ) × (e : Entry) × (get_elem? c.entries i ≡ some e)
          × (Evictable e × NoneOlder e.last_tick c.entries)
          × ((evict_lru c).0 ≡ true)
          × ((evict_lru c).1.entries ≡ set c.entries i empty_slot)
          × ((evict_lru c).1.count + 1 ≡ c.count)
          × ((evict_lru c).1.capacity ≡ c.capacity))
evict_lru_lem c v t = cases (evict_lru c) (evict_lru-Evicted c)
  where
    cases :
        (r : Bool × WaveCache)
        → Evicted c r
        → ((r ≡ (false, c)) × AllPinned c.entries)
          ⊎ ((i : ℕ) × (e : Entry) × (get_elem? c.entries i ≡ some e)
              × (Evictable e × NoneOlder e.last_tick c.entries)
              × (r.0 ≡ true)
              × (r.1.entries ≡ set c.entries i empty_slot)
              × (r.1.count + 1 ≡ c.count)
              × (r.1.capacity ≡ c.capacity))
    cases r (nobody same n) = inl (same, NoneOlder-AllPinned c.tick c.entries t v.recent n)
    cases r (slot i e done at ev n entries count capacity tick generation) =
        let here : in_use_weight e ≤ used c.entries = total-ge in_use_weight c.entries i e at in
        inr (i, e, at, (ev, n), done, entries, ground (arith, v.counted), capacity)
