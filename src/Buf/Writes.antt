-- ===== src/Buf/Writes.antt =====
-- What the appending functions write, alone and in chains.
use ray_vault.Base.{
  ℕ, zero, suc, ◌+◌, ◌*◌, ◌^◌, ◌≤◌, ◌<◌, ◌≡◌, refl, ap, sym, Bool, true, List, [], ◌∷◌, ◌++◌, none,
  some, length, length-append, arith, append-nil, append_assoc, Option-cases, inl, inr,
  if◌then◌else◌, ◌==◌, ◌≢◌, ◌⊎◌, Bool-cases, ltb, ltb→lt, ltb→le, false,
}
use native.Mathlib.Nat.{pow-suc}
use ray_vault.Endian.{write_le16, write_le32, write_le64, write_f32}
use ray_vault.Buf.{Buf, reserve_loop, reserve, append, append_u8, append_u16, append_u32}
use ray_vault.Buf.{append_u64, append_f32, ◌>>◌, for_each}

pub record IsValid (b : Buf) : Type 0 where
  pub fits : length b.data_bytes ≤ b.cap
  pub word : b.cap < 2 ^ 64

-- A writer `w` stands for the bytes `bs`: when it succeeds it has put exactly these behind the
-- buffer's, it keeps the buffer valid, never shrinks it, and succeeds where they fit the capacity.
pub record Writes (w : Buf → Bool × Buf) (bs : List ℕ) : Type 0 where
  pub keeps : (b : Buf) → IsValid b → IsValid (w b).1
  pub puts : (b : Buf) → (w b).0 ≡ true → (w b).1.data_bytes ≡ b.data_bytes ++ bs
  pub grows : (b : Buf) → b.cap ≤ (w b).1.cap
  pub works : (b : Buf) → IsValid b → length b.data_bytes + length bs ≤ b.cap → (w b).0 ≡ true

refuted : {x : Bool} → x ≡ true → x ≡ false → ⊥
refuted t f = cc

nil-cases : (xs : List ℕ) → (xs ≡ []) ⊎ (length xs ≢ 0)
nil-cases [] = inl refl
nil-cases (x ∷ xs) = inr (omega arith)

reserve_loop_bounds :
    (fuel ncap need n : ℕ)
    → reserve_loop fuel ncap need ≡ some n
    → (need ≤ n) × (ncap ≤ n) × (ncap < 2 ^ 64 → n < 2 ^ 64)
unfolding reserve_loop
reserve_loop_bounds zero ncap need n e = cc
reserve_loop_bounds (suc fuel) ncap need n e =
    ground (arith, reserve_loop_bounds fuel (ncap * 2) need n)

-- The loop of `rv_buf_reserve` ends with a capacity for every need up to 2^63 that the positive
-- starting capacity reaches in as many doublings as the fuel has rounds, less one.
pub reserve_loop_total :
    (fuel ncap need : ℕ)
    → 0 < ncap
    → need ≤ 2 ^ 63
    → need ≤ ncap * 2 ^ fuel
    → reserve_loop (suc fuel) ncap need ≢ none
unfolding reserve_loop
reserve_loop_total zero ncap need p h e = ground arith
reserve_loop_total (suc fuel) ncap need p h e =
    let s : ncap * 2 ^ suc fuel ≡ ncap * 2 * 2 ^ fuel =
      omega (arith, ap (λ (t : ℕ). ncap * t) (pow-suc 2 fuel)) in
    ground (arith, reserve_loop_total fuel (ncap * 2) need)

module _ (grants : ℕ → Bool) where
  pub reserve_lem :
      (b : Buf) (need : ℕ)
      → (b.cap ≤ (reserve grants b need).1.cap)
        × (b.cap < 2 ^ 64 → (reserve grants b need).1.cap < 2 ^ 64)
        × ((reserve grants b need).1.data_bytes ≡ b.data_bytes)
        × ((reserve grants b need).0 ≡ true → need ≤ (reserve grants b need).1.cap)
  unfolding reserve
  reserve_lem b need =
      elim (Option-cases (reserve_loop 65 (if b.cap == 0 then 64 else b.cap) need)) [
        | inl early ↦ (ground arith, ground arith, ground arith, ground arith)
        | inr (n, e) ↦
            let bounds = reserve_loop_bounds 65 (if b.cap == 0 then 64 else b.cap) need n e in
            (ground (arith, bounds), ground (arith, bounds), ground arith, ground (arith, bounds))
      ]

  module _ (src : List ℕ) (b : Buf) where
    append_keeps : IsValid b → IsValid (append grants src b).1
    unfolding append
    append_keeps v =
        ground
          (arith, reserve_lem b (length b.data_bytes + length src), length-append b.data_bytes src)

    append_puts :
        (append grants src b).0 ≡ true → (append grants src b).1.data_bytes ≡ b.data_bytes ++ src
    unfolding append
    append_puts e = elim (nil-cases src) [
      | inl empty ↦ rw (empty, append-nil)
      | inr more ↦ ground (arith, reserve_lem b (length b.data_bytes + length src))
    ]

    append_grows : b.cap ≤ (append grants src b).1.cap
    unfolding append
    append_grows = ground (arith, reserve_lem b (length b.data_bytes + length src))

    append_works :
        IsValid b → length b.data_bytes + length src ≤ b.cap → (append grants src b).0 ≡ true
    unfolding append reserve
    append_works v h = ground arith

  -- `rv_buf_append` to a valid buffer keeps it valid; it succeeds and puts the bytes behind those of
  -- the buffer, or it fails, the buffer has its bytes as before, and they did not fit its capacity.
  pub append_lem :
      (src : List ℕ) (b : Buf)
      → IsValid b
      → IsValid (append grants src b).1
        × ((((append grants src b).0 ≡ true)
              × ((append grants src b).1.data_bytes ≡ b.data_bytes ++ src))
            ⊎ (((append grants src b).0 ≡ false)
                × ((append grants src b).1.data_bytes ≡ b.data_bytes)
                × (b.cap < length b.data_bytes + length src)))
  unfolding append
  append_lem src b v = elim (Bool-cases (append grants src b).0) [
    | inl done ↦ (append_keeps src b v, inl (done, append_puts src b done))
    | inr failed ↦
        let (larger, word, same, enough) = reserve_lem b (length b.data_bytes + length src) in
        let over : b.cap < length b.data_bytes + length src =
          elim (Bool-cases (ltb b.cap (length b.data_bytes + length src))) [
            | inl more ↦ ltb→lt b.cap _ more
            | inr fits ↦ absurd (refuted (append_works src b v (ltb→le b.cap _ fits)) failed)
          ] in
        (append_keeps src b v, inr (failed, ground (arith, same), over))
  ]

  pub append-Writes : (src : List ℕ) → Writes (append grants src) src
  append-Writes src = record {
    keeps = λ b v. append_keeps src b v;
    puts = λ b e. append_puts src b e;
    grows = λ b. append_grows src b;
    works = λ b v h. append_works src b v h;
  }

-- One writer after another.
pub then-Writes :
    (m k : Buf → Bool × Buf) (xs ys : List ℕ)
    → Writes m xs
    → Writes k ys
    → Writes (m >> k) (xs ++ ys)
then-Writes m k xs ys a c = record {
  keeps = λ b v. ground (arith, a.keeps b v, c.keeps (m b).1 (a.keeps b v));
  puts = λ b e. ground (arith, a.puts b, c.puts (m b).1, append_assoc b.data_bytes xs ys);
  grows = λ b. ground (arith, a.grows b, c.grows (m b).1);
  works = λ b v h.
      let room : length b.data_bytes + length xs + length ys ≤ b.cap =
        omega (arith, length-append xs ys) in
      let first : (m b).0 ≡ true = a.works b v (omega arith) in
      let count : length (m b).1.data_bytes ≡ length b.data_bytes + length xs =
        rw (a.puts b first) (length-append b.data_bytes xs) in
      rw first (c.works (m b).1 (a.keeps b v) (omega (arith, a.grows b)));
}

pub nothing-Writes : Writes (λ b. (true, b)) []
nothing-Writes = record {
  keeps = λ b v. v;
  puts = λ b e. sym (append-nil b.data_bytes);
  grows = λ b. omega arith;
  works = λ b v h. refl;
}

-- The bytes of a list of records, one after the other.
abbrev pub concat_map : {A : Type 0} → (A → List ℕ) → List A → List ℕ
concat_map enc [] = []
concat_map enc (x ∷ xs) = enc x ++ concat_map enc xs

pub for_each-Writes :
    {A : Type 0} (put : A → Buf → Bool × Buf) (enc : A → List ℕ)
    → ((x : A) → Writes (put x) (enc x))
    → (xs : List A) → Writes (for_each put xs) (concat_map enc xs)
unfolding for_each
for_each-Writes put enc w [] = nothing-Writes
for_each-Writes put enc w (x ∷ xs) =
    then-Writes (put x) (for_each put xs) (enc x) (concat_map enc xs) (w x)
      (for_each-Writes put enc w xs)

module _ (grants : ℕ → Bool) where
  pub append_u8-Writes : (v : ℕ) → Writes (append_u8 grants v) (v ∷ [])
  unfolding append_u8
  append_u8-Writes v = append-Writes grants (v ∷ [])

  pub append_u16-Writes : (v : ℕ) → Writes (append_u16 grants v) (write_le16 v)
  unfolding append_u16
  append_u16-Writes v = append-Writes grants (write_le16 v)

  pub append_u32-Writes : (v : ℕ) → Writes (append_u32 grants v) (write_le32 v)
  unfolding append_u32
  append_u32-Writes v = append-Writes grants (write_le32 v)

  pub append_u64-Writes : (v : ℕ) → Writes (append_u64 grants v) (write_le64 v)
  unfolding append_u64
  append_u64-Writes v = append-Writes grants (write_le64 v)

  pub append_f32-Writes : (v : ℕ) → Writes (append_f32 grants v) (write_f32 v)
  unfolding append_f32
  append_f32-Writes v = append-Writes grants (write_f32 v)
