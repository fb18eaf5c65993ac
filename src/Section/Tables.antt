-- ===== src/Section/Tables.antt =====
-- Memory safety and bounds of the decoders of fixed-size records.
use ray_vault.Base.{ℕ, ◌+◌, ◌*◌, ◌≤◌, ◌≡◌, ◌≢◌, refl, List, Option, none, length, arith}
use ray_vault.Arena.{Arena, Heap}
use ray_vault.Endian.Inside.{read_le32_inside, read_le64_inside}
use ray_vault.Decoding.{Result, ok, err, fault}
use ray_vault.Records.Inside.{
  read_route_inside, read_inst_inside, read_calib_inside, read_window_inside, read_marker_inside,
  read_link_inside, read_note_inside,
}
use ray_vault.Records.Read.{
  read_route, read_inst, read_calib, read_window, read_marker, read_link, read_note,
}
use ray_vault.Section.{
  decode_table, decode_rout, decode_inst, decode_clbr, decode_wind, decode_mark, decode_link,
  decode_note, decode_summ,
}
use ray_vault.Section.Rows.{decode_table-ne-fault, length-decode_table}

-- A decoder's outcome keeps inside the payload: it reads nothing past it, and a decoded table has at
-- most `limit` records, which the payload holds at `rec` bytes each behind its frame.
abbrev pub Inside : {A : Type 0} → ℕ → ℕ → List ℕ → Result (List A) → Type 0
Inside limit rec payload (ok xs) = (length xs ≤ limit) × (8 + length xs * rec ≤ length payload)
Inside limit rec payload err = Unit
Inside limit rec payload fault = ⊥

decode_table-Inside :
    (magic limit rec item_size : ℕ) {A : Type 0} (read : List ℕ → Option A) (h : Heap)
    → ((p : List ℕ) → rec ≤ length p → read p ≢ none)
    → (payload : List ℕ) (a : Arena)
    → Inside limit rec payload (decode_table magic limit rec item_size read h payload a).0
decode_table-Inside magic limit rec item_size {A} read h inside payload a =
    cases (decode_table magic limit rec item_size read h payload a) refl
  where
    cases :
        (r : Result (List A) × Arena)
        → decode_table magic limit rec item_size read h payload a ≡ r
        → Inside limit rec payload r.0
    cases (ok xs, a') e = length-decode_table magic limit rec item_size read h payload a a' xs e
    cases (err, a') e = tt
    cases (fault, a') e =
        decode_table-ne-fault magic limit rec item_size read h inside payload a (rw e)

-- For every payload, arena and heap, no decoder of a table with fixed-size records, nor that of
-- SUMM, reads past the payload, and a table that is decoded is within its limit and had all of its
-- records in the payload.
pub decode_tables-Inside :
    (h : Heap) (payload : List ℕ) (a : Arena)
    → Inside 50000 24 payload (decode_rout h payload a).0
      × Inside 10000 24 payload (decode_inst h payload a).0
      × Inside 10000 32 payload (decode_clbr h payload a).0
      × Inside 200000 40 payload (decode_wind h payload a).0
      × Inside 500000 32 payload (decode_mark h payload a).0
      × Inside 200000 24 payload (decode_link h payload a).0
      × Inside 50000 20 payload (decode_note h payload a).0
      × ((decode_summ payload a).0 ≢ fault)
unfolding decode_rout decode_inst decode_clbr decode_wind decode_mark decode_link decode_note
    decode_summ
decode_tables-Inside h payload a = (
  decode_table-Inside 0x31544f52 50000 24 24 read_route h read_route_inside payload a,
  decode_table-Inside 0x3154534e 10000 24 24 read_inst h read_inst_inside payload a,
  decode_table-Inside 0x31424c43 10000 32 32 read_calib h read_calib_inside payload a,
  decode_table-Inside 0x31444e49 200000 40 48 read_window h read_window_inside payload a,
  decode_table-Inside 0x314b524d 500000 32 32 read_marker h read_marker_inside payload a,
  decode_table-Inside 0x314b4e4c 200000 24 24 read_link h read_link_inside payload a,
  decode_table-Inside 0x3145544e 50000 20 20 read_note h read_note_inside payload a,
  ground (
    arith,
    read_le32_inside 0 payload,
    read_le32_inside 4 payload,
    read_le32_inside 8 payload,
    read_le32_inside 12 payload,
    read_le32_inside 16 payload,
    read_le32_inside 20 payload,
    read_le32_inside 24 payload,
    read_le64_inside 28 payload,
    read_le32_inside 36 payload,
  ),
)
