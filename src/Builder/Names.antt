-- ===== src/Builder/Names.antt =====
-- src/internal/rv_builder.c: `rv_builder_add_name`, the table of names without duplicates.
-- A C string is its bytes before the terminator.
pub mod Ids
mod Examples
use ray_vault.Base.{
  ℕ, ◌+◌, Bool, true, false, ◌&&◌, ◌==◌, if◌then◌else◌, Option, none, some, List, [], ◌∷◌, take,
  u32,
}
use ray_vault.Builder.{Name, Builder, push}

-- The test on the lengths and `memcmp`.
unfoldable pub same_bytes : List ℕ → List ℕ → Bool
same_bytes [] [] = true
same_bytes (x ∷ xs) (y ∷ ys) = (x == y) && same_bytes xs ys
same_bytes _ _ = false

unfoldable pub find_name : List Name → List ℕ → Option ℕ
find_name [] str = none
find_name (n ∷ ns) str = if same_bytes n.str str then some n.id else find_name ns str

-- The id, or `none` for -1. A name has 127 bytes at most, its array 128.
unfoldable pub add_name : (ℕ → Bool) → Builder → List ℕ → Option ℕ × Builder
add_name grants b str =
    let n = take 127 str in
    elim (find_name b.names.items n) [
      | some id ↦ (some id, b)
      | none ↦ elim (push grants 136 (record { id = b.next_name_id; str = n }) b.names) [
        | none ↦ (none, b)
        | some t ↦
            (some b.next_name_id, record b { names = t; next_name_id = u32 (b.next_name_id + 1) })
      ]
    ]
