-- ===== src/Builder/Names/Ids.antt =====
-- The ids that `rv_builder_add_name` gives: 1, 2, 3, .. in the order of the table.
use ray_vault.Base.{
  ℕ, zero, suc, ◌+◌, ◌^◌, ◌≤◌, ◌<◌, ◌≡◌, refl, Bool, true, ==-refl, none, some, List, [], ◌∷◌, ◌++◌,
  length, length-append, take, arith, Option-cases, Bool-cases, inl, inr,
}
use ray_vault.Builder.{Name, Builder, Table, push, grow}
use ray_vault.Builder.Names.{same_bytes, find_name, add_name}

-- The names from id `i` on, each of 127 bytes at most.
abbrev pub Numbered : ℕ → List Name → Type 0
Numbered i [] = Unit
Numbered i (n ∷ ns) = (n.id ≡ i) × (length n.str ≤ 127) × Numbered (i + 1) ns

pub record IsNumbered (b : Builder) : Type 0 where
  pub numbered : Numbered 1 b.names.items
  pub next_is : b.next_name_id ≡ length b.names.items + 1

Numbered-append :
    (i : ℕ) (ns : List Name) (n : Name)
    → Numbered i ns
    → n.id ≡ i + length ns
    → length n.str ≤ 127
    → Numbered i (ns ++ n ∷ [])
Numbered-append i [] n h e l = (omega arith, l, tt)
Numbered-append i (m ∷ ns) n h e l = (h.0, h.1, Numbered-append (i + 1) ns n h.2 (omega arith) l)

length-take_le : (n : ℕ) (xs : List ℕ) → length (take n xs) ≤ n
length-take_le zero xs = omega arith
length-take_le (suc n) [] = omega arith
length-take_le (suc n) (x ∷ xs) = omega (arith, length-take_le n xs)

same_bytes_refl : (xs : List ℕ) → same_bytes xs xs ≡ true
unfolding same_bytes
same_bytes_refl [] = refl
same_bytes_refl (x ∷ xs) = rw (==-refl x, same_bytes_refl xs) refl

find_name-append :
    (ns : List Name) (n : Name)
    → find_name ns n.str ≡ none
    → find_name (ns ++ n ∷ []) n.str ≡ some n.id
unfolding find_name
find_name-append [] n h = rw (same_bytes_refl n.str) refl
find_name-append (m ∷ ns) n h = elim (Bool-cases (same_bytes m.str n.str)) [
  | inl same ↦ absurd (ground (arith, same))
  | inr other ↦ ground (arith, other, find_name-append ns n)
]

pub push-items :
    (grants : ℕ → Bool) {A : Type 0} (elem : ℕ) (x : A) (t t' : Table A)
    → push grants elem x t ≡ some t'
    → t'.items ≡ t.items ++ x ∷ []
unfolding push grow
push-items grants elem x t t' e = ground arith

-- A name that was taken in is found, with its id.
pub add_name-found :
    (grants : ℕ → Bool) (b : Builder) (str : List ℕ) (id : ℕ)
    → (add_name grants b str).0 ≡ some id
    → find_name (add_name grants b str).1.names.items (take 127 str) ≡ some id
unfolding add_name
add_name-found grants b str id e =
    let n : Name = record { id = b.next_name_id; str = take 127 str } in
    elim (Option-cases (find_name b.names.items (take 127 str))) [
      | inr (old_id, old) ↦ ground (arith, old)
      | inl absent ↦ elim (Option-cases (push grants 136 n b.names)) [
        | inl refused ↦ absurd (ground (arith, absent, refused))
        | inr (t, pushed) ↦
            let found : find_name t.items (take 127 str) ≡ some b.next_name_id =
              rw (push-items grants 136 n b.names t pushed)
                (find_name-append b.names.items n absent) in
            ground (arith, absent, pushed, found)
      ]
    ]

add_name_old :
    (grants : ℕ → Bool) (b : Builder) (str : List ℕ) (id : ℕ)
    → find_name b.names.items (take 127 str) ≡ some id
    → add_name grants b str ≡ (some id, b)
unfolding add_name
add_name_old grants b str id old = rw (add_name, old) refl

-- A name that `rv_builder_add_name` takes in has the id it is found by from then on: adding it again
-- gives the same id and changes nothing, whatever the allocator says then.
pub add_name-again :
    (grants grants' : ℕ → Bool) (b : Builder) (str : List ℕ) (id : ℕ)
    → (add_name grants b str).0 ≡ some id
    → add_name grants' (add_name grants b str).1 str ≡ (some id, (add_name grants b str).1)
add_name-again grants grants' b str id e =
    add_name_old grants' (add_name grants b str).1 str id (add_name-found grants b str id e)

-- `rv_builder_add_name` keeps the names numbered by their places, each of 127 bytes at most, where
-- the ids do not reach 2^32 - 1.
pub add_name-IsNumbered :
    (grants : ℕ → Bool) (b : Builder) (str : List ℕ)
    → IsNumbered b
    → length b.names.items + 2 < 2 ^ 32
    → IsNumbered (add_name grants b str).1
unfolding add_name
add_name-IsNumbered grants b str v few =
    let n : Name = record { id = b.next_name_id; str = take 127 str } in
    elim (Option-cases (find_name b.names.items (take 127 str))) [
      | inr (id, old) ↦ rw (add_name, old) v
      | inl absent ↦ elim (Option-cases (push grants 136 n b.names)) [
        | inl refused ↦ rw (add_name, absent, refused) v
        | inr (t, pushed) ↦
            let items = push-items grants 136 n b.names t pushed in
            rw (add_name, absent, pushed)
              (record {
                numbered = rw items (
                    Numbered-append 1 b.names.items n v.numbered (omega (arith, v.next_is))
                      (length-take_le 127 str));
                next_is = rw items (omega (arith, v.next_is, length-append b.names.items (n ∷ [])));
              })
      ]
    ]
