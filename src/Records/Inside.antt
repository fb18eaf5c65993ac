-- ===== src/Records/Inside.antt =====
-- Where a whole record is left, reading one stays inside the payload.
use ray_vault.Base.{ℕ, ◌≢◌, ◌≤◌, List, none, length, arith}
use ray_vault.Endian.Inside.{read_le16_inside, read_le32_inside, read_le64_inside, read_f32_inside}
use ray_vault.Records.Read.{
  read_route, read_inst, read_calib, read_window, read_marker, read_link, read_note, read_wave,
}

pub read_route_inside : (p : List ℕ) → 24 ≤ length p → read_route p ≢ none
unfolding read_route
read_route_inside p h = ground (
  arith,
  read_le32_inside 0 p,
  read_le32_inside 4 p,
  read_le32_inside 8 p,
  read_f32_inside 12 p,
  read_le32_inside 16 p,
  read_le32_inside 20 p,
)

pub read_inst_inside : (p : List ℕ) → 24 ≤ length p → read_inst p ≢ none
unfolding read_inst
read_inst_inside p h = ground (
  arith,
  read_le32_inside 0 p,
  read_le32_inside 4 p,
  read_le32_inside 8 p,
  read_le16_inside 12 p,
  read_le16_inside 14 p,
  read_f32_inside 16 p,
  read_le32_inside 20 p,
)

pub read_calib_inside : (p : List ℕ) → 32 ≤ length p → read_calib p ≢ none
unfolding read_calib
read_calib_inside p h = ground (
  arith,
  read_le32_inside 0 p,
  read_le32_inside 4 p,
  read_le64_inside 8 p,
  read_f32_inside 16 p,
  read_f32_inside 20 p,
  read_f32_inside 24 p,
  read_le32_inside 28 p,
)

pub read_window_inside : (p : List ℕ) → 40 ≤ length p → read_window p ≢ none
unfolding read_window
read_window_inside p h = ground (
  arith,
  read_le32_inside 0 p,
  read_le32_inside 4 p,
  read_le32_inside 8 p,
  read_le32_inside 12 p,
  read_le32_inside 16 p,
  read_f32_inside 20 p,
  read_f32_inside 24 p,
  read_f32_inside 28 p,
  read_le64_inside 32 p,
)

pub read_marker_inside : (p : List ℕ) → 32 ≤ length p → read_marker p ≢ none
unfolding read_marker
read_marker_inside p h = ground (
  arith,
  read_le32_inside 0 p,
  read_le32_inside 4 p,
  read_le32_inside 8 p,
  read_f32_inside 12 p,
  read_f32_inside 16 p,
  read_f32_inside 20 p,
  read_le16_inside 24 p,
  read_le16_inside 26 p,
  read_le32_inside 28 p,
)

pub read_link_inside : (p : List ℕ) → 24 ≤ length p → read_link p ≢ none
unfolding read_link
read_link_inside p h = ground (
  arith,
  read_le32_inside 0 p,
  read_le32_inside 4 p,
  read_le32_inside 8 p,
  read_le32_inside 12 p,
  read_le32_inside 16 p,
  read_le32_inside 20 p,
)

pub read_note_inside : (p : List ℕ) → 20 ≤ length p → read_note p ≢ none
unfolding read_note
read_note_inside p h = ground (
  arith,
  read_le32_inside 0 p,
  read_le32_inside 4 p,
  read_le32_inside 8 p,
  read_le32_inside 12 p,
  read_le32_inside 16 p,
)

pub read_wave_inside : (p : List ℕ) → 24 ≤ length p → read_wave p ≢ none
unfolding read_wave
read_wave_inside p h = ground (
  arith,
  read_le32_inside 0 p,
  read_le32_inside 4 p,
  read_le32_inside 8 p,
  read_f32_inside 12 p,
  read_f32_inside 16 p,
  read_le16_inside 20 p,
  read_le16_inside 22 p,
)
