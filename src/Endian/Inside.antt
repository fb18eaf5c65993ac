-- ===== src/Endian/Inside.antt =====
-- A read inside the array gives a number.
use ray_vault.Base.{ℕ, ◌+◌, ◌≤◌, ◌≢◌, List, [], ◌∷◌, none, length, drop, length-drop, arith}
use ray_vault.Endian.{split_at, read_le16, read_le32, read_le64, read_f32}

le16_inside : (p : List ℕ) → 2 ≤ length p → read_le16 p ≢ none
unfolding read_le16
le16_inside [] h = absurd (omega arith)
le16_inside (a ∷ []) h = absurd (omega arith)
le16_inside (a ∷ b ∷ p) h = ground arith

le32_inside : (p : List ℕ) → 4 ≤ length p → read_le32 p ≢ none
unfolding read_le32
le32_inside [] h = absurd (omega arith)
le32_inside (a ∷ []) h = absurd (omega arith)
le32_inside (a ∷ b ∷ []) h = absurd (omega arith)
le32_inside (a ∷ b ∷ c ∷ []) h = absurd (omega arith)
le32_inside (a ∷ b ∷ c ∷ d ∷ p) h = ground arith

le64_inside : (p : List ℕ) → 8 ≤ length p → read_le64 p ≢ none
unfolding read_le64
le64_inside [] h = absurd (omega arith)
le64_inside (a ∷ []) h = absurd (omega arith)
le64_inside (a ∷ b ∷ []) h = absurd (omega arith)
le64_inside (a ∷ b ∷ c ∷ []) h = absurd (omega arith)
le64_inside (a ∷ b ∷ c ∷ d ∷ []) h = absurd (omega arith)
le64_inside (a ∷ b ∷ c ∷ d ∷ e ∷ []) h = absurd (omega arith)
le64_inside (a ∷ b ∷ c ∷ d ∷ e ∷ f ∷ []) h = absurd (omega arith)
le64_inside (a ∷ b ∷ c ∷ d ∷ e ∷ f ∷ g ∷ []) h = absurd (omega arith)
le64_inside (a ∷ b ∷ c ∷ d ∷ e ∷ f ∷ g ∷ h ∷ p) i = ground arith

-- The same at an offset.
module _ (k : ℕ) (p : List ℕ) where
  pub read_le16_inside : k + 2 ≤ length p → read_le16 (drop k p) ≢ none
  read_le16_inside h = le16_inside (drop k p) (omega (arith, length-drop k p))

  pub read_le32_inside : k + 4 ≤ length p → read_le32 (drop k p) ≢ none
  read_le32_inside h = le32_inside (drop k p) (omega (arith, length-drop k p))

  pub read_f32_inside : k + 4 ≤ length p → read_f32 (drop k p) ≢ none
  unfolding read_f32
  read_f32_inside h = read_le32_inside h

  pub read_le64_inside : k + 8 ≤ length p → read_le64 (drop k p) ≢ none
  read_le64_inside h = le64_inside (drop k p) (omega (arith, length-drop k p))

pub split_at_inside : (n : ℕ) (p : List ℕ) → n ≤ length p → split_at n p ≢ none
unfolding split_at
split_at_inside n p fits = ground (arith, fits)
