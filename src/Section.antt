-- ===== src/Section.antt =====
-- src/internal/rv_section.c: the decoders of the section payloads.
-- A payload is the list of its bytes; a table is the list of its records (`count` is its length).
-- The table's room comes from the arena; the heap answers the arena's calls.
pub mod Tables
pub mod Blobs
pub mod Rows
mod Examples
pub mod RoundTrip
use ray_vault.Base.{
  ℕ, zero, suc, ◌+◌, ◌*◌, Bool, not, ◌||◌, ◌==◌, ltb, Option, none, some, List, [], ◌∷◌, length,
  drop,
}
use ray_vault.Arena.{Arena, Heap}
use ray_vault.Endian.{read_le32, read_le64}
use ray_vault.Decoding.{
  Result, ok, err, fault, Decoder, ◌>>=◌, ◌>>◌, done, fail_if, load, new_items,
}
use ray_vault.Records.{RouteRec, InstRec, CalibRec, WindowRec, MarkerRec, LinkRec, NoteRec, SummRec}
use ray_vault.Records.Read.{
  read_route, read_inst, read_calib, read_window, read_marker, read_link, read_note,
}

-- `for (i = 0; i < count; i++) { items[i] = ...; p += rec; }`
unfoldable pub read_rows : {A : Type 0} → (List ℕ → Option A) → ℕ → ℕ → List ℕ → Option (List A)
read_rows read rec zero p = some []
read_rows read rec (suc n) p = elim (read p) [
  | none ↦ none
  | some x ↦ elim (read_rows read rec n (drop rec p)) [ none ↦ none | some xs ↦ some (x ∷ xs) ]
]

-- The decoders of fixed-size records have one text; they differ in the magic number, the limit on
-- the count, the size of a record in the file (`rec`) and in memory, and the fields.
unfoldable pub decode_table :
    {A : Type 0} → ℕ → ℕ → ℕ → ℕ → (List ℕ → Option A) → Heap → List ℕ → Decoder (List A)
decode_table magic limit rec item_size read h payload = do
  fail_if (ltb (length payload) 8)
  m ← load (read_le32 payload)
  fail_if (not (m == magic))
  count ← load (read_le32 (drop 4 payload))
  fail_if (ltb limit count || ltb (length payload) (8 + count * rec))
  new_items h count item_size 8
  load (read_rows read rec count (drop 8 payload))

unfoldable pub decode_rout : Heap → List ℕ → Decoder (List RouteRec)
decode_rout = decode_table 0x31544f52 50000 24 24 read_route

unfoldable pub decode_inst : Heap → List ℕ → Decoder (List InstRec)
decode_inst = decode_table 0x3154534e 10000 24 24 read_inst

unfoldable pub decode_clbr : Heap → List ℕ → Decoder (List CalibRec)
decode_clbr = decode_table 0x31424c43 10000 32 32 read_calib

unfoldable pub decode_wind : Heap → List ℕ → Decoder (List WindowRec)
decode_wind = decode_table 0x31444e49 200000 40 48 read_window

unfoldable pub decode_mark : Heap → List ℕ → Decoder (List MarkerRec)
decode_mark = decode_table 0x314b524d 500000 32 32 read_marker

unfoldable pub decode_link : Heap → List ℕ → Decoder (List LinkRec)
decode_link = decode_table 0x314b4e4c 200000 24 24 read_link

unfoldable pub decode_note : Heap → List ℕ → Decoder (List NoteRec)
decode_note = decode_table 0x3145544e 50000 20 20 read_note

-- `rv_decode_summ` allocates nothing; `has_summ` and the record are the caller's.
unfoldable pub decode_summ : List ℕ → Decoder SummRec
decode_summ payload = do
  fail_if (ltb (length payload) 40)
  m ← load (read_le32 payload)
  fail_if (not (m == 0x314d4d55))
  route_count ← load (read_le32 (drop 4 payload))
  window_count ← load (read_le32 (drop 8 payload))
  marker_count ← load (read_le32 (drop 12 payload))
  wave_count ← load (read_le32 (drop 16 payload))
  name_count ← load (read_le32 (drop 20 payload))
  package_crc ← load (read_le32 (drop 24 payload))
  payload_bytes ← load (read_le64 (drop 28 payload))
  flags ← load (read_le32 (drop 36 payload))
  done (record {
    route_count = route_count;
    window_count = window_count;
    marker_count = marker_count;
    wave_count = wave_count;
    name_count = name_count;
    package_crc = package_crc;
    payload_bytes = payload_bytes;
    flags = flags;
  })
