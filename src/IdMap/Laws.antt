-- ===== src/IdMap/Laws.antt =====
-- Lookups after `rv_idmap_put`.
use ray_vault.Base.{
  ℕ, zero, suc, ◌+◌, ◌-◌, ◌*◌, ◌^◌, ◌≤◌, ◌<◌, ◌≡◌, ◌≢◌, refl, ap, not, false, ◌&&◌, ◌==◌,
  if◌then◌else◌, Option, none, some, List, [], ◌∷◌, ◌++◌, length, get_elem?, set, replicate, u32,
  arith, Bool-cases, Option-cases, inl, inr,
}
use native.Mathlib.Nat.{pow-suc}
use ray_vault.Arena.{Arena, Heap, calloc}
use ray_vault.Decoding.{ok, >>=-eq-ok, touch}
use ray_vault.IdMap.{IdMap, fit, regrow, make_fit, store, put, put_all, build_map, find, no_map}

-- A capacity that the loop ends with fits.
pub fit_bounds : (fuel ncap need n : ℕ) → fit fuel ncap need ≡ some n → (need ≤ n) × (ncap ≤ n)
unfolding fit
fit_bounds zero ncap need n e = cc
fit_bounds (suc fuel) ncap need n e = ground (arith, fit_bounds fuel (ncap * 2) need n)

-- The doubling loop of `rv_idmap_put` ends with a capacity, for every need up to 2^30 cells that the
-- positive starting capacity reaches in as many doublings as the fuel has rounds, less one.
pub fit_total :
    (fuel ncap need : ℕ)
    → 0 < ncap
    → need ≤ 2 ^ 30
    → need ≤ ncap * 2 ^ fuel
    → fit (suc fuel) ncap need ≢ none
unfolding fit
fit_total zero ncap need p h e = ground arith
fit_total (suc fuel) ncap need p h e =
    let s : ncap * 2 ^ suc fuel ≡ ncap * 2 * 2 ^ fuel =
      omega (arith, ap (λ (t : ℕ). ncap * t) (pow-suc 2 fuel)) in
    ground (arith, fit_total fuel (ncap * 2) need)

-- Cells past the end read as 0, so growing a map changes no lookup.
cell : List ℕ → ℕ → ℕ
cell cells id = elim (get_elem? cells id) [ none ↦ 0 | some c ↦ c ]

cell-append_zeros : (cells : List ℕ) (n id : ℕ) → cell (cells ++ replicate n 0) id ≡ cell cells id
unfolding cell
cell-append_zeros [] zero id = refl
cell-append_zeros [] (suc n) zero = refl
cell-append_zeros [] (suc n) (suc id) = cell-append_zeros [] n id
cell-append_zeros (c ∷ cells) n zero = refl
cell-append_zeros (c ∷ cells) n (suc id) = cell-append_zeros cells n id

cell-set :
    (cells : List ℕ) (i j v : ℕ)
    → i < length cells
    → cell (set cells i v) j ≡ (if i == j then v else cell cells j)
unfolding cell
cell-set [] i j v h = absurd (omega arith)
cell-set (c ∷ cells) zero zero v h = refl
cell-set (c ∷ cells) zero (suc j) v h = ground arith
cell-set (c ∷ cells) (suc i) zero v h = ground arith
cell-set (c ∷ cells) (suc i) (suc j) v h = ground (arith, cell-set cells i j v)

cell-past : (cells : List ℕ) (id : ℕ) → length cells ≤ id → cell cells id ≡ 0
unfolding cell
cell-past [] id h = refl
cell-past (c ∷ cells) zero h = absurd (omega arith)
cell-past (c ∷ cells) (suc id) h = cell-past cells id (omega arith)

find-cell :
    (m : IdMap) (id : ℕ)
    → find m id ≡ (if cell m.cells id == 0 then none else some (cell m.cells id - 1))
unfolding find cell
find-cell m id = elim (Option-cases (get_elem? m.cells id)) [
  | inl out ↦ ground (arith, out)
  | inr (c, there) ↦ ground (arith, there, cell-past m.cells id)
]

regrow-cell :
    (h : Heap) (ncap : ℕ) (m m' : IdMap) (a a' : Arena) (id : ℕ)
    → regrow h ncap m a ≡ (ok m', a')
    → cell m'.cells id ≡ cell m.cells id
unfolding regrow
regrow-cell h ncap m m' a a' id e =
    ground (arith, cell-append_zeros m.cells (ncap - length m.cells) id)

make_fit-cell :
    (h : Heap) (need : ℕ) (m m' : IdMap) (a a' : Arena) (id : ℕ)
    → make_fit h need m a ≡ (ok m', a')
    → cell m'.cells id ≡ cell m.cells id
unfolding make_fit
make_fit-cell h need m m' a a' id e =
    elim (Option-cases (fit 33 (if length m.cells == 0 then 32 else length m.cells) need)) [
      | inl too_large ↦ ground (arith, too_large)
      | inr (ncap, fitted) ↦ ground (arith, fitted, regrow-cell h ncap m m' a a' id)
    ]

store-cell :
    (id pos_plus j : ℕ) (m m' : IdMap) (a a' : Arena)
    → store id pos_plus m a ≡ (ok m', a')
    → cell m'.cells j ≡ (if id == j then pos_plus else cell m.cells j)
unfolding store
store-cell id pos_plus j m m' a a' e = ground (arith, cell-set m.cells id j pos_plus)

-- After an `rv_idmap_put` that succeeds, the lookup of the id gives its position and the lookup of
-- another id what it gave before; the id 0 is not entered.
pub find-put :
    (h : Heap) (id i : ℕ) (m m' : IdMap) (a a' : Arena) (j : ℕ)
    → put h id (i + 1) m a ≡ (ok m', a')
    → find m' j ≡ (if not (id == 0) && id == j then some i else find m j)
unfolding put
find-put h id i m m' a a' j e = elim (Bool-cases (id == 0)) [
  | inl zero_id ↦ ground arith
  | inr other ↦
      let (grown, a₁, first, second) =
        >>=-eq-ok (make_fit h (u32 (id + 1)) m) (store id (i + 1)) a m' a' (rw other at e) in
      ground (
        arith,
        find-cell m j,
        find-cell m' j,
        make_fit-cell h (u32 (id + 1)) m grown a a₁ j first,
        store-cell id (i + 1) j grown m' a₁ a' second,
      )
]

-- The last position from `i` on that holds the id, `d` where none does.
pub last_at : ℕ → List ℕ → ℕ → Option ℕ → Option ℕ
last_at i [] j d = d
last_at i (id ∷ ids) j d = last_at (i + 1) ids j (if not (id == 0) && id == j then some i else d)

find-put_all :
    (h : Heap) (table nodes : Option ℕ) (i : ℕ) (ids : List ℕ) (m m' : IdMap) (a a' : Arena) (j : ℕ)
    → put_all h table nodes i ids m a ≡ (ok m', a')
    → find m' j ≡ last_at i ids j (find m j)
unfolding put_all last_at
find-put_all h table nodes i [] m m' a a' j e = ground arith
find-put_all h table nodes i (id ∷ ids) m m' a a' j e =
    let (read, a₁, e₁, r₁) = >>=-eq-ok (touch table) _ a m' a' e in
    let (written, a₂, e₂, r₂) = >>=-eq-ok (touch nodes) _ a₁ m' a' r₁ in
    let (next, a₃, first, rest) = >>=-eq-ok (put h id (i + 1) m) _ a₂ m' a' r₂ in
    rw (← find-put h id i m next a₂ a₃ j first)
      (find-put_all h table nodes (i + 1) ids next m' a₃ a' j rest)

-- Where `rv_index_build` makes the map of a table (of its routes, windows or waves) without a failure,
-- the lookup of an id gives its last position in the table, and nothing for the id 0 or an id that is
-- not in the table.
pub find-build_map :
    (h : Heap) (node_size : ℕ) (table : Option ℕ) (ids : List ℕ) (m : IdMap) (a a' : Arena) (j : ℕ)
    → build_map h node_size table ids a ≡ (ok m, a')
    → find m j ≡ last_at 0 ids j none
unfolding build_map last_at
find-build_map h node_size table [] m a a' j e =
    let empty : find no_map j ≡ none = unfold find in ground arith in
    let same : no_map ≡ m = ground arith in rw (← same) empty
find-build_map h node_size table (id ∷ ids) m a a' j e =
    let empty : find no_map j ≡ none = unfold find in ground arith in
    let some_id : (length (id ∷ ids) == 0) ≡ false = ground arith in
    elim (Option-cases (calloc h a (length (id ∷ ids)) node_size 8).0) [
      | inl refused ↦ absurd (ground (arith, refused))
      | inr (p, made) ↦
          let a₁ : Arena = (calloc h a (length (id ∷ ids)) node_size 8).1 in
          rw empty at
            (find-put_all h table a₁.base 0 (id ∷ ids) no_map m a₁ a' j (rw (made, some_id) at e))
    ]
