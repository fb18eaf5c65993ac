-- ===== src/Dict/Filled.antt =====
-- The buckets that the decoder fills: each entry stands on the path of its hash, and before it on the
-- path stand entries of smaller positions.
use ray_vault.Base.{
  ℕ, zero, suc, ◌+◌, ◌-◌, ◌^◌, ◌≤◌, ◌<◌, ◌≡◌, ◌⊎◌, inl, inr, refl, ◌∙◌, ap, sym, subst, some, List,
  [], ◌∷◌, ◌++◌, append_assoc, append-nil, length, length-append, length-set, length-replicate,
  replicate, set, get_elem?, bit_and, arith, Bool-cases, ◌==◌, ==→eq, ==→ne,
}
use ray_vault.Section.Blobs.{NameEntry, cell, free_slot, fill_buckets}
use ray_vault.Dict.Probes.{
  cell-set_self, cell-set_ne, occupied, occupied-set, wrap, wrap-lt, home_slot, free_slot-free,
}

-- Entry j stands on the path from `home`, behind smaller positions.
abbrev pub Placed : ℕ → List ℕ → ℕ → ℕ → Type 0
Placed m bucket home j =
    (d : ℕ) × (d < m)
    × (cell bucket (wrap m (home + d)) ≡ suc j)
    × ((c : ℕ)
        → c < d
        → (0 < cell bucket (wrap m (home + c))) × (cell bucket (wrap m (home + c)) ≤ j))

pub record IsFilled (m : ℕ) (es : List NameEntry) (bucket : List ℕ) : Type 0 where
  pub size : length bucket ≡ m
  pub room : occupied bucket ≤ length es
  pub below : (x : ℕ) → cell bucket x ≤ length es
  pub placed :
      (j : ℕ) (e : NameEntry) → get_elem? es j ≡ some e → Placed m bucket (bit_and e.hash (m - 1)) j

get_elem?-snoc :
    (es : List NameEntry) (e f : NameEntry) (j : ℕ)
    → get_elem? (es ++ e ∷ []) j ≡ some f
    → (get_elem? es j ≡ some f) ⊎ ((j ≡ length es) × (f ≡ e))
get_elem?-snoc [] e f zero h = inr (refl, cc)
get_elem?-snoc [] e f (suc j) h = cc
get_elem?-snoc (x ∷ es) e f zero h = inl h
get_elem?-snoc (x ∷ es) e f (suc j) h = elim (get_elem?-snoc es e f j h) [
  | inl before ↦ inl before
  | inr (last, same) ↦ inr (ap suc last, same)
]

kept :
    (bucket : List ℕ) (slot v : ℕ)
    → cell bucket slot ≡ 0
    → (x : ℕ) → 0 < cell bucket x
    → cell (set bucket slot v) x ≡ cell bucket x
kept bucket slot v free x used =
    cell-set_ne bucket slot x v λ e. omega (arith, ap (cell bucket) e, free, used)

-- A write to a free cell leaves the entries in their places.
Placed-set :
    (m : ℕ) (bucket : List ℕ) (home j slot v : ℕ)
    → cell bucket slot ≡ 0
    → Placed m bucket home j
    → Placed m (set bucket slot v) home j
Placed-set m bucket home j slot v free (d, l, at, before) = (
  d,
  l,
  kept bucket slot v free (wrap m (home + d)) (omega (arith, at)) ∙ at,
  λ c b.
      let (used, small) = before c b in
      let same = kept bucket slot v free (wrap m (home + c)) used in
      (omega (arith, same, used), omega (arith, same, small)),
)

module _ (m k : ℕ) (power : m ≡ 2 ^ k) (small : m < 2 ^ 32) where
  insert-IsFilled :
      (es : List NameEntry) (e : NameEntry) (bucket : List ℕ)
      → IsFilled m es bucket
      → length es < m
      → IsFilled m
          (es ++ e ∷ [])
          (set bucket (free_slot m bucket (m - 1) (bit_and e.hash (m - 1))) (length es + 1))
  insert-IsFilled es e bucket filled few =
      let home = bit_and e.hash (m - 1) in
      let near = home_slot m k power small e.hash in
      let (d, l, at, used, free) =
        free_slot-free m k power small bucket home near filled.size
          (omega (arith, filled.room, few)) in
      let slot = free_slot m bucket (m - 1) home in
      let vacant : cell bucket slot ≡ 0 = ap (cell bucket) at ∙ free in
      let inside : slot < length bucket =
        omega (arith, at, filled.size, wrap-lt m home d near (omega (arith, l))) in
      record {
        size = length-set bucket slot (length es + 1) ∙ filled.size;
        room = omega (
          arith,
          occupied-set bucket slot (length es + 1),
          filled.room,
          length-append es (e ∷ []),
        );
        below = λ x. elim (Bool-cases (slot == x)) [
          | inl here ↦
              let written = ap (cell (set bucket slot (length es + 1))) (sym (==→eq slot x here)) in
              omega (
                arith,
                written,
                cell-set_self bucket slot (length es + 1) inside,
                length-append es (e ∷ []),
              )
          | inr elsewhere ↦ omega (
            arith,
            cell-set_ne bucket slot x (length es + 1) (==→ne slot x elsewhere),
            filled.below x,
            length-append es (e ∷ []),
          )
        ];
        placed = λ j f here. elim (get_elem?-snoc es e f j here) [
          | inl before ↦
              Placed-set m bucket (bit_and f.hash (m - 1)) j slot (length es + 1) vacant
                (filled.placed j f before)
          | inr (last, same) ↦
              let own : Placed m (set bucket slot (length es + 1)) home (length es) = (
                d,
                l,
                ap (cell (set bucket slot (length es + 1))) (sym at)
                    ∙ cell-set_self bucket slot (length es + 1) inside
                    ∙ omega arith,
                λ c b.
                    let same =
                      kept bucket slot (length es + 1) vacant (wrap m (home + c)) (used c b) in
                    (
                      omega (arith, same, used c b),
                      omega (arith, same, filled.below (wrap m (home + c))),
                    ),
              ) in
              subst (λ i. Placed m (set bucket slot (length es + 1)) (bit_and f.hash (m - 1)) i)
                (sym last)
                (subst
                  (λ g.
                    Placed m (set bucket slot (length es + 1)) (bit_and g.hash (m - 1)) (length es))
                  (sym same) own)
        ];
      }

  pub fill_buckets-IsFilled :
      (rest es : List NameEntry) (i : ℕ) (bucket : List ℕ)
      → i ≡ length es
      → IsFilled m es bucket
      → length es + length rest < m
      → IsFilled m (es ++ rest) (fill_buckets m (m - 1) i rest bucket)
  unfolding fill_buckets
  fill_buckets-IsFilled [] es i bucket at filled few = rw append-nil filled
  fill_buckets-IsFilled (e ∷ rest) es i bucket at filled few =
      rw (← append_assoc es (e ∷ []) rest, at)
        (fill_buckets-IsFilled rest (es ++ e ∷ []) (length es + 1) _
          (omega (arith, length-append es (e ∷ [])))
          (insert-IsFilled es e bucket filled (omega (arith, few)))
          (omega (arith, few, length-append es (e ∷ []))))

cell-replicate : (n x : ℕ) → cell (replicate n 0) x ≡ 0
unfolding cell
cell-replicate zero x = refl
cell-replicate (suc n) zero = refl
cell-replicate (suc n) (suc x) = cell-replicate n x

occupied-replicate : (n : ℕ) → occupied (replicate n 0) ≡ 0
occupied-replicate zero = refl
occupied-replicate (suc n) = omega (arith, occupied-replicate n)

pub empty-IsFilled : (m : ℕ) → IsFilled m [] (replicate m 0)
empty-IsFilled m = record {
  size = length-replicate m 0;
  room = omega (arith, occupied-replicate m);
  below = λ x. omega (arith, cell-replicate m x);
  placed = λ j e h. cc;
}
