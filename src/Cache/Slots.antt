-- ===== src/Cache/Slots.antt =====
-- The slots of the cache, counted by weights, and what the searches over them find.
use ray_vault.Base.{
  ℕ, zero, suc, ◌+◌, ◌≤◌, ◌<◌, ◌≡◌, ◌≢◌, inl, inr, refl, subst, ap, true, false, ◌&&◌, ◌==◌,
  if◌then◌else◌, none, some, List, [], ◌∷◌, length, get_elem?, set, arith, Bool-cases, replicate,
}
use ray_vault.Cache.{Entry, find_from, free_from, empty_slot}

-- The sum of the weights of the slots.
pub total : (Entry → ℕ) → List Entry → ℕ
total w [] = 0
total w (e ∷ es) = w e + total w es

-- One for a slot in use; one for a slot in use by a block.
abbrev pub in_use_weight : Entry → ℕ
in_use_weight e = if e.in_use then 1 else 0

abbrev pub holds_weight : ℕ → Entry → ℕ
holds_weight id e = if e.in_use && e.block_id == id then 1 else 0

abbrev pub used : List Entry → ℕ
used es = total in_use_weight es

abbrev pub holding : ℕ → List Entry → ℕ
holding id es = total (holds_weight id) es

pub total-set :
    (w : Entry → ℕ) (es : List Entry) (i : ℕ) (e e' : Entry)
    → get_elem? es i ≡ some e
    → total w (set es i e') + w e ≡ total w es + w e'
unfolding total
total-set w [] i e e' h = cc
total-set w (x ∷ es) zero e e' h = let p : x ≡ e = ground arith in rw p (omega arith)
total-set w (x ∷ es) (suc i) e e' h = omega (arith, total-set w es i e e' h)

pub total-ge :
    (w : Entry → ℕ) (es : List Entry) (i : ℕ) (e : Entry)
    → get_elem? es i ≡ some e
    → w e ≤ total w es
unfolding total
total-ge w [] i e h = cc
total-ge w (x ∷ es) zero e h = let p : x ≡ e = ground arith in rw p (omega arith)
total-ge w (x ∷ es) (suc i) e h = omega (arith, total-ge w es i e h)

pub total-replicate :
    (w : Entry → ℕ) (n : ℕ) → w empty_slot ≡ 0 → total w (replicate n empty_slot) ≡ 0
unfolding total
total-replicate w zero h = refl
total-replicate w (suc n) h = omega (arith, total-replicate w n h)

pub get_elem?-lt : (es : List Entry) (i : ℕ) (e : Entry) → get_elem? es i ≡ some e → i < length es
get_elem?-lt [] i e h = cc
get_elem?-lt (x ∷ es) zero e h = omega arith
get_elem?-lt (x ∷ es) (suc i) e h = omega (arith, get_elem?-lt es i e h)

-- What stands at an index that a search gave.
pub record Found (es : List Entry) (P : Entry → Type 0) (i j : ℕ) : Type 0 where
  pub at : ℕ
  pub shifted : j ≡ i + at
  pub entry : Entry
  pub there : get_elem? es at ≡ some entry
  pub fits : P entry

abbrev pub Holds : ℕ → Entry → Type 0
Holds id e = (e.in_use ≡ true) × (e.block_id ≡ id)

pub Found-first :
    (es : List Entry) (P : Entry → Type 0) (j : ℕ)
    → Found es P 0 j
    → (e : Entry) × (get_elem? es j ≡ some e) × P e
Found-first es P j f =
    let same : f.at ≡ j = omega (arith, f.shifted) in
    (f.entry, subst (λ (n : ℕ). get_elem? es n ≡ some f.entry) same f.there, f.fits)

Found-cons :
    (e : Entry) (es : List Entry) (P : Entry → Type 0) (i j : ℕ)
    → Found es P (i + 1) j
    → Found (e ∷ es) P i j
Found-cons e es P i j f = record {
  at = suc f.at;
  shifted = omega (arith, f.shifted);
  entry = f.entry;
  there = f.there;
  fits = f.fits;
}

pub find_from-some :
    (es : List Entry) (id i j : ℕ) → find_from es id i ≡ some j → Found es (Holds id) i j
unfolding find_from
find_from-some [] id i j h = cc
find_from-some (e ∷ es) id i j h = elim (Bool-cases (e.in_use && e.block_id == id)) [
  | inl here ↦ record {
    at = 0;
    shifted = ground arith;
    entry = e;
    there = refl;
    fits = (ground arith, ground arith);
  }
  | inr later ↦ Found-cons e es (Holds id) i j (find_from-some es id (i + 1) j (ground arith))
]

pub find_from-none : (es : List Entry) (id i : ℕ) → find_from es id i ≡ none → holding id es ≡ 0
unfolding find_from total
find_from-none [] id i h = refl
find_from-none (e ∷ es) id i h = ground (arith, find_from-none es id (i + 1))

pub find_from_of_holding :
    (es : List Entry) (id i : ℕ) → 0 < holding id es → find_from es id i ≢ none
find_from_of_holding es id i h e = omega (arith, find_from-none es id i e)

pub free_from-some :
    (es : List Entry) (i j : ℕ) → free_from es i ≡ some j → Found es (λ e. e.in_use ≡ false) i j
unfolding free_from
free_from-some [] i j h = cc
free_from-some (e ∷ es) i j h = elim (Bool-cases e.in_use) [
  | inr here ↦ record { at = 0; shifted = ground arith; entry = e; there = refl; fits = here }
  | inl later ↦
      Found-cons e es (λ e'. e'.in_use ≡ false) i j (free_from-some es (i + 1) j (ground arith))
]

pub free_from-none : (es : List Entry) (i : ℕ) → free_from es i ≡ none → used es ≡ length es
unfolding free_from total
free_from-none [] i h = refl
free_from-none (e ∷ es) i h = ground (arith, free_from-none es (i + 1))

-- Two slots weigh no more than all.
pub total-two :
    (w : Entry → ℕ) (es : List Entry) (i j : ℕ) (e e' : Entry)
    → get_elem? es i ≡ some e
    → get_elem? es j ≡ some e'
    → i ≢ j
    → w e + w e' ≤ total w es
unfolding total
total-two w [] i j e e' h k ne = cc
total-two w (x ∷ es) zero zero e e' h k ne = absurd (ne refl)
total-two w (x ∷ es) zero (suc j) e e' h k ne =
    let p : x ≡ e = ground arith in rw p (omega (arith, total-ge w es j e' k))
total-two w (x ∷ es) (suc i) zero e e' h k ne =
    let p : x ≡ e' = ground arith in rw p (omega (arith, total-ge w es i e h))
total-two w (x ∷ es) (suc i) (suc j) e e' h k ne =
    omega (arith, total-two w es i j e e' h k (λ q. ne (ap suc q)))

pub used-le-length : (es : List Entry) → used es ≤ length es
unfolding total
used-le-length [] = omega arith
used-le-length (e ∷ es) = ground (arith, used-le-length es)
