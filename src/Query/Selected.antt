-- ===== src/Query/Selected.antt =====
-- What the selecting loops give back.
use ray_vault.Base.{
  ap₂, ◌∙◌, ◌↔◌, ◌≤◌, ℕ, zero, suc, ◌+◌, ◌-◌, ◌≡◌, inl, inr, refl, ap, Bool, true, false, ltb→lt,
  ltb→le, Bool-cases, if◌then◌else◌, Option, none, some, List, [], ◌∷◌, ◌++◌, length, take, All,
  arith,
}
use mathlib.Core.List.{map, Perm, perm_middle}
use mathlib.Core.List.Perm
use ray_vault.Picked.{Picked, Picked-loop}
use ray_vault.Query.{has_room, select}

module _ {A : Type 0} (test : A → Bool) where
  -- The items that pass, and the others.
  abbrev pub kept : List A → List A
  kept [] = []
  kept (x ∷ xs) = if test x then x ∷ kept xs else kept xs

  abbrev pub others : List A → List A
  others [] = []
  others (x ∷ xs) = if test x then others xs else x ∷ others xs

  pub kept-perm : (xs : List A) → Perm (kept xs ++ others xs) xs
  kept-perm [] = Perm.rfl
  kept-perm (x ∷ xs) = elim (Bool-cases (test x)) [
    | inl passed ↦ rw (passed) (Perm.cons x (kept-perm xs))
    | inr failed ↦
        rw failed (Perm.trans (perm_middle (kept xs) (others xs)) (Perm.cons x (kept-perm xs)))
  ]

  pub All-kept :
      (P : A → Type 0) → ((x : A) → test x ≡ true → P x) → (xs : List A) → All P (kept xs)
  All-kept P h [] = tt
  All-kept P h (x ∷ xs) = elim (Bool-cases (test x)) [
    | inl passed ↦ rw passed (h x passed, All-kept P h xs)
    | inr failed ↦ rw failed (All-kept P h xs)
  ]

  pub All-others :
      (P : A → Type 0) → ((x : A) → test x ≡ false → P x) → (xs : List A) → All P (others xs)
  All-others P h [] = tt
  All-others P h (x ∷ xs) = elim (Bool-cases (test x)) [
    | inl passed ↦ rw passed (All-others P h xs)
    | inr failed ↦ rw failed (h x failed, All-others P h xs)
  ]

-- What is put into an array from place n on.
abbrev pub cut : {B : Type 0} → Option ℕ → ℕ → List B → List B
cut none n rows = []
cut (some cap) n rows = take (cap - n) rows

take_nil : {B : Type 0} (k : ℕ) → take {A = B} k [] ≡ []
take_nil zero = refl
take_nil (suc k) = refl

cut_nil : {B : Type 0} (out : Option ℕ) (n : ℕ) → cut {B = B} out n [] ≡ []
cut_nil none n = refl
cut_nil (some cap) n = take_nil (cap - n)

cut_room :
    {B : Type 0} (out : Option ℕ) (n : ℕ) (r : B) (rows : List B)
    → has_room out n ≡ true
    → cut out n (r ∷ rows) ≡ r ∷ cut out (n + 1) rows
cut_room none n r rows room = cc
cut_room (some cap) n r rows room =
    let more : cap - n ≡ suc (cap - (n + 1)) = omega (arith, ltb→lt n cap room) in rw more refl

cut_full :
    {B : Type 0} (out : Option ℕ) (n : ℕ) (rows : List B)
    → has_room out n ≡ false
    → cut out n rows ≡ []
cut_full none n rows full = refl
cut_full (some cap) n rows full =
    let no_more : cap - n ≡ zero = omega (arith, ltb→le n cap full) in rw no_more refl

cut_beyond :
    {B : Type 0} (out : Option ℕ) (n : ℕ) (rows : List B)
    → has_room out n ≡ false
    → cut out (n + 1) rows ≡ []
cut_beyond none n rows full = refl
cut_beyond (some cap) n rows full =
    let no_more : cap - (n + 1) ≡ zero = omega (arith, ltb→le n cap full) in rw no_more refl

module _ {A B : Type 0} (test : A → Bool) (row : A → B) (out : Option ℕ) where
  select_kept :
      (n : ℕ) (x : A) (xs : List A)
      → select test row out (n + 1) xs
        ≡ (cut out (n + 1) (map row (kept test xs)), n + 1 + length (kept test xs))
      → test x ≡ true
      → select test row out n (x ∷ xs)
        ≡ (cut out n (map row (kept test (x ∷ xs))), n + length (kept test (x ∷ xs)))
  unfolding select
  select_kept n x xs ih passed = elim (Bool-cases (has_room out n)) [
    | inl room ↦
        rw (passed, room, ih, cut_room out n (row x) (map row (kept test xs)) room)
          (ap (λ k. (row x ∷ cut out (n + 1) (map row (kept test xs)), k)) (omega arith))
    | inr full ↦
        rw
          (
            passed,
            full,
            ih,
            cut_full out n (row x ∷ map row (kept test xs)) full,
            cut_beyond out n (map row (kept test xs)) full,
          )
          (ap (λ k. ([], k)) (omega arith))
  ]

  -- A loop puts the rows of the items that pass, in their order, as far as there is room, and counts
  -- those items.
  pub select_lem :
      (n : ℕ) (xs : List A)
      → select test row out n xs ≡ (cut out n (map row (kept test xs)), n + length (kept test xs))
  unfolding select
  select_lem n [] = rw cut_nil (ap (λ k. ([], k)) (omega arith))
  select_lem n (x ∷ xs) = elim (Bool-cases (test x)) [
    | inl passed ↦ select_kept n x xs (select_lem (n + 1) xs) passed
    | inr failed ↦ rw (failed, select_lem n xs) refl
  ]

pub length-map : {A B : Type 0} (row : A → B) (xs : List A) → length (map row xs) ≡ length xs
length-map row [] = refl
length-map row (x ∷ xs) = ap suc (length-map row xs)

pub kept-few : {A : Type 0} (test : A → Bool) (xs : List A) → length (kept test xs) ≤ length xs
kept-few test [] = omega arith
kept-few test (x ∷ xs) =
    let few = kept-few test xs in
    elim (Bool-cases (test x)) [
      | inl passed ↦ rw passed (omega (arith, few))
      | inr failed ↦ rw failed (omega (arith, few))
    ]

pub take_enough : {A : Type 0} (xs : List A) (n : ℕ) → length xs ≤ n → take n xs ≡ xs
take_enough [] zero h = refl
take_enough [] (suc n) h = refl
take_enough (x ∷ xs) zero h = absurd (omega (arith, h))
take_enough (x ∷ xs) (suc n) h = ap (λ t. x ∷ t) (take_enough xs n (omega (arith, h)))

-- With room for as many rows as there are items, none is left out.
pub select_all_lem :
    {A B : Type 0} (test : A → Bool) (row : A → B) (xs : List A) (cap : ℕ)
    → length xs ≤ cap
    → select test row (some cap) 0 xs ≡ (map row (kept test xs), length (map row (kept test xs)))
select_all_lem test row xs cap room =
    let few = kept-few test xs in
    let size = length-map row (kept test xs) in
    select_lem test row (some cap) 0 xs
    ∙ ap₂ (λ ys k. (ys, k))
        (take_enough (map row (kept test xs)) (cap - 0) (omega (arith, room, few, size)))
        (omega (arith, size))

-- The items that pass are those of which the predicate holds.
pub kept-Picked :
    {A B : Type 0} (P : A → Type 0) (test : A → Bool) (row : A → B)
    → ((x : A) → (test x ≡ true) ↔ P x)
    → (xs : List A) → Picked P row xs (map row (kept test xs))
kept-Picked P test row iff =
    Picked-loop P test row (λ xs. map row (kept test xs)) iff refl
      (λ x xs passed. ground (arith, passed)) (λ x xs failed. ground (arith, failed))

-- The same of the items themselves.
pub kept-Picked_self :
    {A : Type 0} (P : A → Type 0) (test : A → Bool)
    → ((x : A) → (test x ≡ true) ↔ P x)
    → (xs : List A) → Picked P (λ x. x) xs (kept test xs)
kept-Picked_self P test iff =
    Picked-loop P test (λ x. x) (kept test) iff refl (λ x xs passed. ground (arith, passed))
      (λ x xs failed. ground (arith, failed))
