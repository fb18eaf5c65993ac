-- ===== src/Buf.antt =====
-- src/internal/rv_buf.c: a growable byte buffer.
-- `data` holds the bytes in use, so `b->size` is its length. `grants n` says whether `malloc` or
-- `realloc` of n bytes succeeds; a buffer asks for a larger block each time, so a function of n
-- covers every heap. Pointer arguments are not NULL. `false` is the status -1.
pub mod Writes
use ray_vault.Base.{
  ℕ, zero, suc, ◌+◌, ◌-◌, ◌*◌, ◌/◌, ◌^◌, Bool, true, false, Option, none, some, List, [], ◌∷◌, ◌++◌,
  length, take, drop, ltb, leb, ◌==◌, ◌||◌, not, if◌then◌else◌, u8, u64, size_max,
}
use ray_vault.Endian.{write_le16, write_le32, write_le64, write_f32}

pub record Buf : Type 0 where
  pub data_bytes : List ℕ
  pub cap : ℕ
  pub owned : Bool

pub size : Buf → ℕ
size b = length b.data_bytes

abbrev pub released : Buf
released = record { data_bytes = []; cap = 0; owned = false }

module _ (grants : ℕ → Bool) where
  unfoldable pub init : ℕ → Bool × Buf
  init cap =
      let cap = if cap == 0 then 64 else cap in
      if grants cap
      then (true, record { data_bytes = []; cap = cap; owned = true })
      else (false, released)

unfoldable pub wrap : List ℕ → Bool → Buf
wrap bytes take_ownership = record {
  data_bytes = bytes;
  cap = length bytes;
  owned = take_ownership;
}

-- The loop of `rv_buf_reserve`, with fuel; `none` is its early return.
unfoldable pub reserve_loop : ℕ → ℕ → ℕ → Option ℕ
reserve_loop zero ncap need = none
reserve_loop (suc fuel) ncap need = elim (ltb ncap need) [
  | false ↦ some ncap
  | true ↦ elim (ltb (size_max / 2) ncap) [
    | true ↦ none
    | false ↦ reserve_loop fuel (u64 (ncap * 2)) need
  ]
]

module _ (grants : ℕ → Bool) where
  -- A `size_t` doubles at most 64 times.
  unfoldable pub reserve : Buf → ℕ → Bool × Buf
  reserve b need =
      if leb need b.cap
      then (true, b)
      else if not b.owned
      then (false, b)
      else elim (reserve_loop 65 (if b.cap == 0 then 64 else b.cap) need) [
        | none ↦ (false, b)
        | some ncap ↦ if grants ncap then (true, record b { cap = ncap }) else (false, b)
      ]

  unfoldable pub append : List ℕ → Buf → Bool × Buf
  append src b =
      if length src == 0
      then (true, b)
      else if ltb (size_max - length src) (length b.data_bytes)
      then (false, b)
      else let (done, b') = reserve b (length b.data_bytes + length src) in
        if done then (true, record b' { data_bytes = b'.data_bytes ++ src }) else (false, b')

  unfoldable pub append_u8 : ℕ → Buf → Bool × Buf
  append_u8 v = append (v ∷ [])

  unfoldable pub append_u16 : ℕ → Buf → Bool × Buf
  append_u16 v = append (write_le16 v)

  unfoldable pub append_u32 : ℕ → Buf → Bool × Buf
  append_u32 v = append (write_le32 v)

  unfoldable pub append_u64 : ℕ → Buf → Bool × Buf
  append_u64 v = append (write_le64 v)

  unfoldable pub append_f32 : ℕ → Buf → Bool × Buf
  append_f32 v = append (write_f32 v)

pub clear : Buf → Buf
clear b = record b { data_bytes = [] }

pub release : Buf → Buf
release b = released

-- A chain `a != 0 || b != 0`: the first failure ends it.
infixl 5 ◌>>◌
abbrev pub ◌>>◌ : (Buf → Bool × Buf) → (Buf → Bool × Buf) → Buf → Bool × Buf
◌>>◌ m k b = let (done, b') = m b in if done then k b' else (false, b')

-- `for (i = 0; i < n; i++) if (put(&items[i]) != 0) return -1;`
unfoldable pub for_each : {A : Type 0} → (A → Buf → Bool × Buf) → List A → Buf → Bool × Buf
for_each put [] b = (true, b)
for_each put (x ∷ xs) b = (put x >> for_each put xs) b

-- `rv_slice_sub` on the bytes of the base slice; `none` is -1.
unfoldable pub slice_sub : List ℕ → ℕ → ℕ → Option (List ℕ)
slice_sub base off len =
    if ltb (length base) off || ltb (length base - off) len
    then none
    else some (take len (drop off base))
