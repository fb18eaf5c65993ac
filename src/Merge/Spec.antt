-- ===== src/Merge/Spec.antt =====
-- What a merge owes to a package, written out field by field.
use ray_vault.Base.{
  ℕ, true, false, not, ◌&&◌, ◌==◌, ◌≡◌, ◌≢◌, ◌⊎◌, ◌↔◌, inl, inr, refl, List, [], ◌∷◌, if◌then◌else◌,
  ◌+◌, ◌*◌, u32, take, arith, Bool-cases,
}
use mathlib.Core.List.{map}
use ray_vault.Picked.{Picked, Picked-loop}
use ray_vault.Records.{RouteRec, InstRec, CalibRec, WindowRec, WaveRec, MarkerRec, LinkRec, NoteRec}
use ray_vault.Parser.{Parsed}
use ray_vault.Builder.{Wave}
use ray_vault.Merge.{is_linked, MergeOptions}
use ray_vault.Merge.Rows.{Rows, concat}
use ray_vault.Merge.Shifted.{shifted_wave, shifted_marker, shifted}

module _ (bias : ℕ) where
  -- The record of a package as it stands in the builder; a reference to a name stands as 0.
  abbrev pub route_row : RouteRec → RouteRec
  route_row r = record {
    route_id = u32 (r.route_id + bias);
    site_name_id = 0;
    far_name_id = 0;
    length_km = r.length_km;
    fiber_count = r.fiber_count;
    flags = r.flags;
  }

  abbrev pub inst_row : InstRec → InstRec
  inst_row i = record {
    inst_id = u32 (i.inst_id + bias);
    model_name_id = 0;
    serial_name_id = 0;
    wavelength_nm = i.wavelength_nm;
    pulse_default_ns = i.pulse_default_ns;
    dynamic_range_db = i.dynamic_range_db;
    flags = i.flags;
  }

  abbrev pub calib_row : CalibRec → CalibRec
  calib_row c = record {
    calib_id = u32 (c.calib_id + bias);
    inst_id = u32 (c.inst_id + bias);
    calibrated_unix = c.calibrated_unix;
    refractive_index = c.refractive_index;
    backscatter_coef = c.backscatter_coef;
    splice_loss_db = c.splice_loss_db;
    flags = c.flags;
  }

  abbrev pub window_row : WindowRec → WindowRec
  window_row w = record {
    window_id = u32 (w.window_id + bias);
    route_id = u32 (w.route_id + bias);
    inst_id = u32 (w.inst_id + bias);
    calib_id = u32 (w.calib_id + bias);
    wave_block_id = u32 (w.wave_block_id + bias);
    pulse_ns = w.pulse_ns;
    range_km = w.range_km;
    resolution_m = w.resolution_m;
    acquired_unix = w.acquired_unix;
    flags = 0;
  }

  abbrev pub wave_row : WaveRec → Wave
  wave_row b = record {
    block_id = u32 (b.block_id + bias);
    window_id = u32 (b.window_id + bias);
    sample_count = b.sample_count;
    start_m = b.start_m;
    step_m = b.step_m;
    samples = take (b.sample_count * 2) b.samples;
    samples_owned = true;
    flags = 0;
  }

  abbrev pub marker_row : MarkerRec → MarkerRec
  marker_row k = record {
    marker_id = u32 (k.marker_id + bias);
    window_id = u32 (k.window_id + bias);
    label_name_id = 0;
    distance_m = k.distance_m;
    loss_db = k.loss_db;
    reflectance_db = k.reflectance_db;
    kind = k.kind;
    severity = k.severity;
    flags = k.flags;
  }

  abbrev pub link_row : LinkRec → LinkRec
  link_row l = record {
    link_id = u32 (l.link_id + bias);
    from_kind = l.from_kind;
    from_id = u32 (l.from_id + bias);
    to_kind = l.to_kind;
    to_id = u32 (l.to_id + bias);
    flags = l.flags;
  }

  abbrev pub note_row : NoteRec → NoteRec
  note_row n = record {
    note_id = u32 (n.note_id + bias);
    target_kind = n.target_kind;
    target_id = u32 (n.target_id + bias);
    text_name_id = 0;
    flags = n.flags;
  }

-- A window of the table has the id.
abbrev pub OnWindow : ℕ → List WindowRec → Type 0
OnWindow id [] = ⊥
OnWindow id (w ∷ ws) = (w.window_id ≡ id) ⊎ OnWindow id ws

-- The rows of a package: without the waves that have no samples, the markers of no window, where
-- those are dropped, and the notes, where they are not included.
pub record RowsOf (p : Parsed) (bias : ℕ) (opt : MergeOptions) (d : Rows) : Type 0 where
  pub all_routes : d.routes ≡ map (route_row bias) p.rout
  pub all_insts : d.insts ≡ map (inst_row bias) p.inst
  pub all_calibs : d.calibs ≡ map (calib_row bias) p.clbr
  pub all_windows : d.windows ≡ map (window_row bias) p.wind
  pub sampled_waves : Picked (λ b. b.sample_count ≢ 0) (wave_row bias) p.wave d.waves
  pub linked_markers :
      Picked
        (λ k. (opt.drop_unlinked_markers ≡ false) ⊎ OnWindow k.window_id p.wind)
        (marker_row bias)
        p.mark
        d.markers
  pub all_links : d.links ≡ map (link_row bias) p.link
  pub asked_notes : d.notes ≡ (if opt.include_notes then map (note_row bias) p.note else [])

is_linked_iff : (id : ℕ) (ws : List WindowRec) → (is_linked id ws ≡ true) ↔ OnWindow id ws
unfolding is_linked
is_linked_iff id [] = (λ e. cc, λ s. elim s [ ])
is_linked_iff id (w ∷ ws) = elim (Bool-cases (w.window_id == id)) [
  | inl same ↦ (λ e. inl (ground (arith, same)), λ s. rw same refl)
  | inr other ↦ (
    λ e. inr ((is_linked_iff id ws).0 (ground (arith, other, e))),
    λ s. elim s [
      | inl is_id ↦ ground (arith, other, is_id)
      | inr on ↦ let t = (is_linked_iff id ws).1 on in rw (other, t) refl
    ],
  )
]

module _ (p : Parsed) (bias : ℕ) (opt : MergeOptions) where
  kept_iff :
      (k : MarkerRec)
      → (not (opt.drop_unlinked_markers && not (is_linked k.window_id p.wind)) ≡ true)
        ↔ ((opt.drop_unlinked_markers ≡ false) ⊎ OnWindow k.window_id p.wind)
  kept_iff k = elim (Bool-cases opt.drop_unlinked_markers) [
    | inr keeps ↦ (λ e. inl keeps, λ s. rw keeps refl)
    | inl drops ↦ elim (Bool-cases (is_linked k.window_id p.wind)) [
      | inl on ↦ (λ e. inr ((is_linked_iff k.window_id p.wind).0 on), λ s. rw (drops, on) refl)
      | inr off ↦ (
        λ e. ground (arith, drops, off, e),
        λ s. elim s [
          | inl keeps ↦ ground (arith, drops, keeps)
          | inr there ↦ let t = (is_linked_iff k.window_id p.wind).1 there in ground (arith, off, t)
        ],
      )
    ]
  ]

  sampled_iff : (b : WaveRec) → (not (b.sample_count == 0) ≡ true) ↔ (b.sample_count ≢ 0)
  sampled_iff b = (λ e z. ground (arith, e, z), λ h. ground (arith, h))

  pub shifted-RowsOf : RowsOf p bias opt (shifted p bias opt)
  shifted-RowsOf = record {
    all_routes = refl;
    all_insts = refl;
    all_calibs = refl;
    all_windows = refl;
    sampled_waves =
        Picked-loop _ (λ b. not (b.sample_count == 0)) (wave_row bias)
          (λ bs. concat (map (shifted_wave p bias) bs)) sampled_iff refl
          (λ b bs given. ground (arith, given)) (λ b bs empty. ground (arith, empty)) p.wave;
    linked_markers =
        Picked-loop _ (λ k. not (opt.drop_unlinked_markers && not (is_linked k.window_id p.wind)))
          (marker_row bias) (λ ks. concat (map (shifted_marker p bias opt) ks)) kept_iff refl
          (λ k ks kept. ground (arith, kept)) (λ k ks dropped. ground (arith, dropped)) p.mark;
    all_links = refl;
    asked_notes = elim (Bool-cases opt.include_notes) [
      | inl asked ↦ rw asked refl
      | inr not_asked ↦ rw not_asked refl
    ];
  }
