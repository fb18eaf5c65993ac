-- ===== src/Merge/Steps.antt =====
-- The rows that each step of a merge adds.
use ray_vault.Base.{
  ℕ, Bool, true, not, ◌&&◌, ◌==◌, Bool-cases, Option, Option-cases, inl, inr, ◌≡◌, refl, ap, sym,
  ◌∙◌, some, none, List, [], ◌∷◌, arith, ◌+◌, u32, take,
}
use ray_vault.Records.{RouteRec, InstRec, CalibRec, WindowRec, WaveRec, MarkerRec, LinkRec, NoteRec}
use ray_vault.Section.Blobs.{SnamTable, NameEntry}
use ray_vault.Dict.{by_id}
use ray_vault.Parser.{Parsed}
use ray_vault.Builder.{Builder, add_wave_copy, add_marker, push}
use ray_vault.Builder.Names.{add_name, find_name}
use ray_vault.Merge.{
  Merge, count_wave, count_marker, added, mapped, c_string, map_name, merge_name, merge_route,
  merge_inst, merge_calib, merge_window, merge_wave, merge_marker, merge_link, merge_note,
  shift_calib, shift_window, shift_link, is_linked, MergeOptions,
}
use ray_vault.Merge.Rows.{
  rows, no_rows, ◌⊕◌, rows-nil, Adds, nameless_route, nameless_inst, nameless_marker, nameless_note,
}
use ray_vault.Merge.Added.{
  added_ok, add_route-rows, add_inst-rows, add_calib-rows, add_window-rows, add_wave_copy-rows,
  add_marker-rows, add_link-rows, add_note-rows,
}
use ray_vault.Merge.Shifted.{shifted_wave, shifted_marker}

module _ (grants : ℕ → Bool) where
  add_name-rows : (b : Builder) (str : List ℕ) → rows (add_name grants b str).1 ≡ rows b
  unfolding add_name
  add_name-rows b str = elim (Option-cases (find_name b.names.items (take 127 str))) [
    | inr (id, old) ↦ rw (add_name, old) refl
    | inl absent ↦
        elim (Option-cases
          (push grants 136 (record { id = b.next_name_id; str = take 127 str }) b.names)) [
            | inl refused ↦ rw (add_name, absent, refused) refl
            | inr (t, pushed) ↦ rw (add_name, absent, pushed) refl
          ]
  ]

  mapped_out : (id : ℕ) (m : Merge) (o : Option ℕ × Builder) → (mapped id m o).1.out ≡ o.1
  mapped_out id m (none, b) = refl
  mapped_out id m (some nid, b) = refl

  -- Names are no rows.
  pub map_name-rows :
      (snam : SnamTable) (id : ℕ) (m : Merge) → rows (map_name grants snam id m).1.out ≡ rows m.out
  unfolding map_name
  map_name-rows snam id m = elim (Bool-cases (id == 0)) [
    | inl no_ref ↦ rw no_ref refl
    | inr given ↦ elim (Option-cases (by_id snam id)) [
      | inl unknown ↦ rw (given, unknown) refl
      | inr (e, known) ↦
          rw (given, known, mapped_out id m (add_name grants m.out (c_string e.str)))
            (add_name-rows m.out (c_string e.str))
    ]
  ]

  pub merge_name-Adds : (e : NameEntry) → Adds (merge_name grants e) no_rows
  unfolding merge_name
  merge_name-Adds e = record {
    adds = λ m m' runs.
        let s = c_string e.str in
        let same : m'.out ≡ (add_name grants m.out s).1 =
          elim (Option-cases (add_name grants m.out s).0) [
            | inl refused ↦ absurd (ground (arith, refused, runs))
            | inr (id, given) ↦ ground (arith, given, runs)
          ] in
        ap rows same ∙ add_name-rows m.out s ∙ sym (rows-nil (rows m.out));
  }

  module _ (p : Parsed) (bias : ℕ) where
    pub merge_route-Adds :
        (r : RouteRec)
        → Adds (merge_route grants p bias r) (record no_rows {
          routes = nameless_route (record r { route_id = u32 (r.route_id + bias) }) ∷ [];
        })
    unfolding merge_route
    merge_route-Adds r = record {
      adds = λ m m' runs.
          let m₁ = (map_name grants p.snam r.site_name_id m).1 in
          let m₂ = (map_name grants p.snam r.far_name_id m₁).1 in
          add_route-rows grants m₂.out m'.out _ (added_ok _ _ m₂ m' runs)
          ∙ ap
              (λ all. all ⊕ (record no_rows {
                routes = nameless_route (record r { route_id = u32 (r.route_id + bias) }) ∷ [];
              }))
              (map_name-rows p.snam r.far_name_id m₁ ∙ map_name-rows p.snam r.site_name_id m);
    }

    pub merge_inst-Adds :
        (i : InstRec)
        → Adds (merge_inst grants p bias i) (record no_rows {
          insts = nameless_inst (record i { inst_id = u32 (i.inst_id + bias) }) ∷ [];
        })
    unfolding merge_inst
    merge_inst-Adds i = record {
      adds = λ m m' runs.
          let m₁ = (map_name grants p.snam i.model_name_id m).1 in
          let m₂ = (map_name grants p.snam i.serial_name_id m₁).1 in
          add_inst-rows grants m₂.out m'.out _ (added_ok _ _ m₂ m' runs)
          ∙ ap
              (λ all. all ⊕ (record no_rows {
                insts = nameless_inst (record i { inst_id = u32 (i.inst_id + bias) }) ∷ [];
              }))
              (map_name-rows p.snam i.serial_name_id m₁ ∙ map_name-rows p.snam i.model_name_id m);
    }

    pub merge_calib-Adds :
        (c : CalibRec)
        → Adds (merge_calib grants p bias c) (record no_rows { calibs = shift_calib bias c ∷ [] })
    unfolding merge_calib
    merge_calib-Adds c = record {
      adds = λ m m' runs. add_calib-rows grants m.out m'.out _ (added_ok _ _ m m' runs);
    }

    pub merge_window-Adds :
        (w : WindowRec)
        → Adds
            (merge_window grants p bias w)
            (record no_rows { windows = shift_window bias w ∷ [] })
    unfolding merge_window
    merge_window-Adds w = record {
      adds = λ m m' runs. add_window-rows grants m.out m'.out _ (added_ok _ _ m m' runs);
    }

    pub merge_link-Adds :
        (l : LinkRec)
        → Adds (merge_link grants p bias l) (record no_rows { links = shift_link bias l ∷ [] })
    unfolding merge_link
    merge_link-Adds l = record {
      adds = λ m m' runs. add_link-rows grants m.out m'.out _ (added_ok _ _ m m' runs);
    }

    pub merge_note-Adds :
        (n : NoteRec)
        → Adds (merge_note grants p bias n) (record no_rows {
          notes =
              nameless_note (record n {
                note_id = u32 (n.note_id + bias);
                target_id = u32 (n.target_id + bias);
              })
              ∷ [];
        })
    unfolding merge_note
    merge_note-Adds n = record {
      adds = λ m m' runs.
          let m₁ = (map_name grants p.snam n.text_name_id m).1 in
          add_note-rows grants m₁.out m'.out _ (added_ok _ _ m₁ m' runs)
          ∙ ap
              (λ all. all ⊕ (record no_rows {
                notes =
                    nameless_note (record n {
                      note_id = u32 (n.note_id + bias);
                      target_id = u32 (n.target_id + bias);
                    })
                    ∷ [];
              }))
              (map_name-rows p.snam n.text_name_id m);
    }

    pub merge_wave-Adds :
        (b : WaveRec)
        → Adds (merge_wave grants p bias b) (record no_rows { waves = shifted_wave p bias b })
    unfolding merge_wave
    merge_wave-Adds b = record {
      adds = λ m m' runs. elim (Bool-cases (b.sample_count == 0)) [
        | inl empty ↦
            let same : m ≡ m' = ground (arith, empty, runs) in
            rw empty (ap (λ (q : Merge). rows q.out) (sym same) ∙ sym (rows-nil (rows m.out)))
        | inr given ↦
            let o =
              add_wave_copy grants m.out (u32 (b.block_id + bias)) (u32 (b.window_id + bias))
                b.samples b.sample_count b.start_m b.step_m in
            let ran : added count_wave o m ≡ (true, m') = ground (arith, given, runs) in
            rw given (
              add_wave_copy-rows grants m.out m'.out _ _ b.samples b.sample_count b.start_m b.step_m
                (added_ok count_wave o m m' ran))
      ];
    }

    pub merge_marker-Adds :
        (opt : MergeOptions) (k : MarkerRec)
        → Adds
            (merge_marker grants p bias opt k)
            (record no_rows { markers = shifted_marker p bias opt k })
    unfolding merge_marker
    merge_marker-Adds opt k = record {
      adds = λ m m' runs.
          let m₁ = (map_name grants p.snam k.label_name_id m).1 in
          let kept = map_name-rows p.snam k.label_name_id m in
          elim (Bool-cases (opt.drop_unlinked_markers && not (is_linked k.window_id p.wind))) [
            | inl dropped ↦
                let same : m₁.out ≡ m'.out = ground (arith, dropped, runs) in
                rw dropped (ap rows (sym same) ∙ kept ∙ sym (rows-nil (rows m.out)))
            | inr linked ↦
                let k' = nameless_marker (record k {
                  marker_id = u32 (k.marker_id + bias);
                  window_id = u32 (k.window_id + bias);
                }) in
                let o = add_marker grants m₁.out (record k {
                  marker_id = u32 (k.marker_id + bias);
                  window_id = u32 (k.window_id + bias);
                  label_name_id = (map_name grants p.snam k.label_name_id m).0;
                }) in
                let ran : added count_marker o m₁ ≡ (true, m') = ground (arith, linked, runs) in
                rw linked (
                  add_marker-rows grants m₁.out m'.out _ (added_ok count_marker o m₁ m' ran)
                  ∙ ap (λ all. all ⊕ record no_rows { markers = k' ∷ [] }) kept)
          ];
    }
