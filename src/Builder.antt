-- ===== src/Builder.antt =====
-- src/internal/rv_builder.c: the package builder and its tables.
-- A table is the list of its records (its count is the length) beside the capacity of its array.
-- `grants n` says whether an allocation of n bytes succeeds; pointers are not NULL, and `false` is
-- the status -1. A name is its bytes without the terminator (`len` is their number), and the
-- samples of a wave are the bytes that `memcpy` moves. The private arena of the builder, which no
-- operation allocates from, is left out.
pub mod Emit
pub mod Names
pub mod Blobs
pub mod Emitted
pub mod Package
use ray_vault.Base.{
  ℕ, ◌+◌, ◌*◌, Bool, true, false, ◌==◌, ltb, leb, if◌then◌else◌, Option, none, some, List, [], ◌∷◌,
  ◌++◌, length, take, u32, u64,
}
use ray_vault.Records.{RouteRec, InstRec, CalibRec, WindowRec, MarkerRec, LinkRec, NoteRec}

pub record Name : Type 0 where
  pub id : ℕ
  pub str : List ℕ

pub record Wave : Type 0 where
  pub block_id : ℕ
  pub window_id : ℕ
  pub sample_count : ℕ
  pub start_m : ℕ
  pub step_m : ℕ
  pub samples : List ℕ
  pub samples_owned : Bool
  pub flags : ℕ

-- A growing array.
pub record Table (A : Type 0) : Type 0 where
  pub items : List A
  pub cap : ℕ

pub record Builder : Type 0 where
  pub names : Table Name
  pub routes : Table RouteRec
  pub insts : Table InstRec
  pub calibs : Table CalibRec
  pub windows : Table WindowRec
  pub waves : Table Wave
  pub markers : Table MarkerRec
  pub links : Table LinkRec
  pub notes : Table NoteRec
  pub next_name_id : ℕ
  pub ver_major : ℕ
  pub ver_minor : ℕ
  pub feature_bits : ℕ
  pub created_unix : ℕ
  pub include_summ : Bool
  pub include_notes : Bool

abbrev pub no_items : {A : Type 0} → Table A
no_items = record { items = []; cap = 0 }

-- `rv_builder_init`, where the arena's `malloc` succeeds.
unfoldable pub init : Builder
init = record {
  names = no_items;
  routes = no_items;
  insts = no_items;
  calibs = no_items;
  windows = no_items;
  waves = no_items;
  markers = no_items;
  links = no_items;
  notes = no_items;
  next_name_id = 1;
  ver_major = 2;
  ver_minor = 3;
  feature_bits = 0;
  created_unix = 0;
  include_summ = true;
  include_notes = true;
}

pub set_version : Builder → ℕ → ℕ → Builder
set_version b major minor = record b { ver_major = major; ver_minor = minor }

pub set_created : Builder → ℕ → Builder
set_created b unix_ts = record b { created_unix = unix_ts }

module _ (grants : ℕ → Bool) where
  -- `RV_BUILDER_GROW` for items of `elem` bytes; `none` is its `return -1`.
  pub grow : {A : Type 0} → ℕ → Table A → Option (Table A)
  grow elem t =
      let ncap = if t.cap == 0 then 8 else u32 (t.cap * 2) in
      let grown = if grants (u64 (ncap * elem)) then some (record t { cap = ncap }) else none in
      if leb t.cap (length t.items) then grown else some t

  -- `RV_BUILDER_GROW(...); b->items[b->count++] = *r;`
  unfoldable pub push : {A : Type 0} → ℕ → A → Table A → Option (Table A)
  unfolding grow
  push elem x t = elim (grow elem t) [
    | none ↦ none
    | some t' ↦ some (record t' { items = t'.items ++ x ∷ [] })
  ]

  unfoldable pub add_route : Builder → RouteRec → Bool × Builder
  add_route b r = elim (push 24 r b.routes) [
    | none ↦ (false, b)
    | some t ↦ (true, record b { routes = t })
  ]

  unfoldable pub add_inst : Builder → InstRec → Bool × Builder
  add_inst b i = elim (push 24 i b.insts) [
    | none ↦ (false, b)
    | some t ↦ (true, record b { insts = t })
  ]

  unfoldable pub add_calib : Builder → CalibRec → Bool × Builder
  add_calib b c = elim (push 32 c b.calibs) [
    | none ↦ (false, b)
    | some t ↦ (true, record b { calibs = t })
  ]

  unfoldable pub add_window : Builder → WindowRec → Bool × Builder
  add_window b w = elim (push 40 w b.windows) [
    | none ↦ (false, b)
    | some t ↦ (true, record b { windows = t })
  ]

  unfoldable pub add_marker : Builder → MarkerRec → Bool × Builder
  add_marker b m = elim (push 32 m b.markers) [
    | none ↦ (false, b)
    | some t ↦ (true, record b { markers = t })
  ]

  unfoldable pub add_link : Builder → LinkRec → Bool × Builder
  add_link b l = elim (push 24 l b.links) [
    | none ↦ (false, b)
    | some t ↦ (true, record b { links = t })
  ]

  unfoldable pub add_note : Builder → NoteRec → Bool × Builder
  add_note b n = elim (push 20 n b.notes) [
    | none ↦ (false, b)
    | some t ↦ (true, record b { notes = t })
  ]

  pub add_wave : Builder → Wave → Bool × Builder
  add_wave b w = elim (push 40 (record w { samples_owned = false }) b.waves) [
    | none ↦ (false, b)
    | some t ↦ (true, record b { waves = t })
  ]

  -- A copy that the growth of the table then refuses stays allocated in the source; the model keeps
  -- no account of the heap.
  unfoldable pub add_wave_copy : Builder → ℕ → ℕ → List ℕ → ℕ → ℕ → ℕ → Bool × Builder
  add_wave_copy b block_id window_id samples count start_m step_m =
      if count == 0
      then (false, b)
      else if grants (count * 2)
      then elim (push 40 (copy (take (count * 2) samples)) b.waves) [
        | none ↦ (false, b)
        | some t ↦ (true, record b { waves = t })
      ]
      else (false, b)
    where
      copy : List ℕ → Wave
      copy bytes = record {
        block_id = block_id;
        window_id = window_id;
        sample_count = count;
        start_m = start_m;
        step_m = step_m;
        samples = bytes;
        samples_owned = true;
        flags = 0;
      }
