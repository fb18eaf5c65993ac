-- ===== src/Section/Rows.antt =====
-- The loop over the records and the frame of a table, for any kind of record.
use ray_vault.Base.{
  ℕ, zero, suc, ◌+◌, ◌*◌, ◌≤◌, ◌≡◌, ◌≢◌, refl, Option, none, some, List, [], ◌∷◌, ◌++◌, length,
  length-append, length-drop, drop, drop-append, All, arith, append_assoc, append-nil, Option-cases,
  inl, inr, IsU32,
}
use ray_vault.Arena.{Arena, Heap}
use ray_vault.Endian.{read_le32}
use ray_vault.Endian.RoundTrip.{join32-bytes}
use ray_vault.Endian.Inside.{read_le32_inside}
use ray_vault.Decoding.{ok, fault, new_items}
use ray_vault.Buf.Writes.{concat_map}
use ray_vault.Records.Bytes.{table_bytes}
use ray_vault.Section.{read_rows, decode_table}

pub length-concat_map :
    {A : Type 0} (enc : A → List ℕ) (rec : ℕ)
    → ((x : A) → length (enc x) ≡ rec)
    → (xs : List A) → length (concat_map enc xs) ≡ length xs * rec
length-concat_map enc rec size [] = omega arith
length-concat_map enc rec size (x ∷ xs) =
    omega
      (arith, length-append (enc x) (concat_map enc xs), size x, length-concat_map enc rec size xs)

module _ {A : Type 0} (read : List ℕ → Option A) (rec : ℕ) where
  -- A loop with whole records before it does not read past them.
  pub read_rows_inside :
      ((p : List ℕ) → rec ≤ length p → read p ≢ none)
      → (n : ℕ) (p : List ℕ) → n * rec ≤ length p
      → read_rows read rec n p ≢ none
  unfolding read_rows
  read_rows_inside inside zero p h = cc
  read_rows_inside inside (suc n) p h =
      ground
        (arith, inside p (omega arith), length-drop rec p, read_rows_inside inside n (drop rec p))

  pub length-read_rows :
      (n : ℕ) (p : List ℕ) (xs : List A) → read_rows read rec n p ≡ some xs → length xs ≡ n
  unfolding read_rows
  length-read_rows zero p xs e = ground arith
  length-read_rows (suc n) p xs e = elim (Option-cases (read p)) [
    | inl out ↦ ground arith
    | inr (x, here) ↦ elim (Option-cases (read_rows read rec n (drop rec p))) [
      | inl out ↦ ground arith
      | inr (ys, there) ↦ ground (arith, length-read_rows n (drop rec p) ys there)
    ]
  ]

  module _ (enc : A → List ℕ) (IsIn : A → Type 0) where
    pub read_rows-concat_map :
        ((x : A) (rest : List ℕ) → IsIn x → read (enc x ++ rest) ≡ some x)
        → ((x : A) → length (enc x) ≡ rec)
        → (xs : List A) (rest : List ℕ) → All IsIn xs
        → read_rows read rec (length xs) (concat_map enc xs ++ rest) ≡ some xs
    unfolding read_rows
    read_rows-concat_map back size [] rest h = refl
    read_rows-concat_map back size (x ∷ xs) rest h =
        let split : (enc x ++ concat_map enc xs) ++ rest ≡ enc x ++ (concat_map enc xs ++ rest) =
          append_assoc (enc x) (concat_map enc xs) rest in
        let here : read ((enc x ++ concat_map enc xs) ++ rest) ≡ some x =
          rw split (back x (concat_map enc xs ++ rest) h.0) in
        let next : drop rec ((enc x ++ concat_map enc xs) ++ rest) ≡ concat_map enc xs ++ rest =
          rw (split, ← size x) (drop-append (enc x) (concat_map enc xs ++ rest)) in
        ground (arith, here, next, read_rows-concat_map back size xs rest h.1)

module _ (magic limit rec item_size : ℕ) {A : Type 0} (read : List ℕ → Option A) (h : Heap) where
  -- Whatever the payload, a table's decoder reads only inside it.
  pub decode_table-ne-fault :
      ((p : List ℕ) → rec ≤ length p → read p ≢ none)
      → (payload : List ℕ) (a : Arena)
      → (decode_table magic limit rec item_size read h payload a).0 ≢ fault
  unfolding decode_table new_items
  decode_table-ne-fault inside payload a = elim (Option-cases (read_le32 (drop 4 payload))) [
    | inl out ↦ ground (arith, read_le32_inside 0 payload, read_le32_inside 4 payload)
    | inr (count, there) ↦ ground (
      arith,
      there,
      read_le32_inside 0 payload,
      length-drop 8 payload,
      read_rows_inside read rec inside count (drop 8 payload),
    )
  ]

  -- A decoded table is within the limit, and its records were all in the payload.
  pub length-decode_table :
      (payload : List ℕ) (a a' : Arena) (xs : List A)
      → decode_table magic limit rec item_size read h payload a ≡ (ok xs, a')
      → (length xs ≤ limit) × (8 + length xs * rec ≤ length payload)
  unfolding decode_table new_items
  length-decode_table payload a a' xs e = elim (Option-cases (read_le32 (drop 4 payload))) [
    | inl out ↦ ground arith
    | inr (count, there) ↦ elim (Option-cases (read_rows read rec count (drop 8 payload))) [
      | inl short ↦ ground (arith, there, short)
      | inr (ys, rows) ↦
          ground (arith, there, rows, length-read_rows read rec count (drop 8 payload) ys rows)
    ]
  ]

  module _ (enc : A → List ℕ) (IsIn : A → Type 0) where
    pub decode_table-bytes :
        ((x : A) (rest : List ℕ) → IsIn x → read (enc x ++ rest) ≡ some x)
        → ((x : A) → length (enc x) ≡ rec)
        → IsU32 magic
        → IsU32 limit
        → (xs : List A) (a : Arena) → All IsIn xs
        → length xs ≤ limit
        → (new_items h (length xs) item_size 8 a).0 ≡ ok tt
        → decode_table magic limit rec item_size read h (table_bytes magic enc xs) a
          ≡ (ok xs, (new_items h (length xs) item_size 8 a).1)
    unfolding decode_table read_le32
    decode_table-bytes back size m l xs a n fits room =
        let rows : read_rows read rec (length xs) (concat_map enc xs) ≡ some xs =
          rw append-nil at (read_rows-concat_map read rec enc IsIn back size xs [] n) in
        let bytes : length (concat_map enc xs) ≡ length xs * rec =
          length-concat_map enc rec size xs in
        ground (arith, rows, bytes, room, join32-bytes magic m, join32-bytes (length xs))
