-- ===== src/Picked.antt =====
-- The rows of the items that satisfy a predicate, in the order of the items.
use ray_vault.Base.{Bool, true, false, ◌≡◌, ◌⊎◌, inl, inr, List, [], ◌∷◌, Bool-cases, ◌↔◌}

abbrev pub Picked : {A B : Type 0} → (A → Type 0) → (A → B) → List A → List B → Type 0
Picked P row [] ys = ys ≡ []
Picked {A} {B} P row (x ∷ xs) ys =
    (P x × ((zs : List B) × (ys ≡ row x ∷ zs) × Picked P row xs zs))
    ⊎ ((¬ P x) × Picked P row xs ys)

-- A loop that puts the row of each item that passes a test.
pub Picked-loop :
    {A B : Type 0} (P : A → Type 0) (test : A → Bool) (row : A → B) (loop : List A → List B)
    → ((x : A) → (test x ≡ true) ↔ P x)
    → loop [] ≡ []
    → ((x : A) (xs : List A) → test x ≡ true → loop (x ∷ xs) ≡ row x ∷ loop xs)
    → ((x : A) (xs : List A) → test x ≡ false → loop (x ∷ xs) ≡ loop xs)
    → (xs : List A) → Picked P row xs (loop xs)
Picked-loop P test row loop iff ends puts skips [] = ends
Picked-loop P test row loop iff ends puts skips (x ∷ xs) =
    let rest = Picked-loop P test row loop iff ends puts skips xs in
    elim (Bool-cases (test x)) [
      | inl passed ↦ inl ((iff x).0 passed, (loop xs, puts x xs passed, rest))
      | inr failed ↦ inr (λ p. (let t = (iff x).1 p in cc), rw (skips x xs failed) rest)
    ]
