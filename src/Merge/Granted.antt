-- ===== src/Merge/Granted.antt =====
-- A merge runs to its end where no allocation is refused.
use ray_vault.Base.{
  ℕ, Bool, true, false, not, ◌&&◌, ◌==◌, Bool-cases, Option-cases, inl, inr, ◌≡◌, refl, some, List,
  [], ◌∷◌, arith, if◌then◌else◌, ◌*◌, u32, u64, take,
}
use mathlib.Core.List.{map}
use ray_vault.Records.{RouteRec, InstRec, CalibRec, WindowRec, WaveRec, MarkerRec, LinkRec, NoteRec}
use ray_vault.Section.Blobs.{NameEntry}
use ray_vault.Parser.{Parsed}
use ray_vault.Builder.{
  Builder, Table, push, add_route, add_inst, add_calib, add_window, add_wave_copy, add_marker,
  add_link, add_note,
}
use ray_vault.Builder.Names.{add_name, find_name}
use ray_vault.Merge.{
  Merge, MergeStats, Step, added, all_of, c_string, merge_name, merge_route, merge_inst,
  merge_calib, merge_window, merge_wave, merge_marker, merge_link, merge_note, is_linked,
  MergeOptions, then_, merge_side, merge_into_builder,
}

record Runs (s : Step) : Type 0 where
  runs : (m : Merge) → (s m).0 ≡ true

then-Runs : {s k : Step} → Runs s → Runs k → Runs (then_ s k)
then-Runs {s} {k} a b = record { runs = λ m. ground (arith, a.runs m, b.runs (s m).1) }

done-Runs : Runs (all_of [])
done-Runs = record { runs = λ m. refl }

each-Runs :
    {A : Type 0} (step : A → Step)
    → ((x : A) → Runs (step x))
    → (xs : List A) → Runs (all_of (map step xs))
each-Runs step h [] = done-Runs
each-Runs step h (x ∷ xs) = then-Runs (h x) (each-Runs step h xs)

added-true :
    (f : MergeStats → MergeStats) (o : Bool × Builder) (m : Merge)
    → o.0 ≡ true
    → (added f o m).0 ≡ true
added-true f (true, b) m e = refl
added-true f (false, b) m e = e

module _ (grants : ℕ → Bool) (granted : (n : ℕ) → grants n ≡ true) where
  push-some :
      {A : Type 0} (elem : ℕ) (x : A) (t : Table A)
      → (t' : Table A) × (push grants elem x t ≡ some t')
  unfolding push
  push-some elem x t =
      let more = granted (u64 ((if t.cap == 0 then 8 else u32 (t.cap * 2)) * elem)) in
      elim (Option-cases (push grants elem x t)) [
        | inr pushed ↦ pushed
        | inl refused ↦ absurd (ground (arith, refused, more))
      ]

  add_route-true : (b : Builder) (r : RouteRec) → (add_route grants b r).0 ≡ true
  unfolding add_route
  add_route-true b r = let (t, e) = push-some 24 r b.routes in rw (add_route, e) refl

  add_inst-true : (b : Builder) (r : InstRec) → (add_inst grants b r).0 ≡ true
  unfolding add_inst
  add_inst-true b r = let (t, e) = push-some 24 r b.insts in rw (add_inst, e) refl

  add_calib-true : (b : Builder) (r : CalibRec) → (add_calib grants b r).0 ≡ true
  unfolding add_calib
  add_calib-true b r = let (t, e) = push-some 32 r b.calibs in rw (add_calib, e) refl

  add_window-true : (b : Builder) (r : WindowRec) → (add_window grants b r).0 ≡ true
  unfolding add_window
  add_window-true b r = let (t, e) = push-some 40 r b.windows in rw (add_window, e) refl

  add_marker-true : (b : Builder) (r : MarkerRec) → (add_marker grants b r).0 ≡ true
  unfolding add_marker
  add_marker-true b r = let (t, e) = push-some 32 r b.markers in rw (add_marker, e) refl

  add_link-true : (b : Builder) (r : LinkRec) → (add_link grants b r).0 ≡ true
  unfolding add_link
  add_link-true b r = let (t, e) = push-some 24 r b.links in rw (add_link, e) refl

  add_note-true : (b : Builder) (r : NoteRec) → (add_note grants b r).0 ≡ true
  unfolding add_note
  add_note-true b r = let (t, e) = push-some 20 r b.notes in rw (add_note, e) refl

  add_wave_copy-true :
      (b : Builder) (block_id window_id : ℕ) (samples : List ℕ) (count start_m step_m : ℕ)
      → (count == 0) ≡ false
      → (add_wave_copy grants b block_id window_id samples count start_m step_m).0 ≡ true
  unfolding add_wave_copy
  add_wave_copy-true b block_id window_id samples count start_m step_m some_samples =
      let (t, e) =
        push-some 40
          (record {
            block_id = block_id;
            window_id = window_id;
            sample_count = count;
            start_m = start_m;
            step_m = step_m;
            samples = take (count * 2) samples;
            samples_owned = true;
            flags = 0;
          })
          b.waves in
      rw (add_wave_copy, some_samples, granted (count * 2), e) refl

  pub add_name-some :
      (b : Builder) (str : List ℕ) → (id : ℕ) × ((add_name grants b str).0 ≡ some id)
  unfolding add_name
  add_name-some b str = elim (Option-cases (find_name b.names.items (take 127 str))) [
    | inr (id, old) ↦ (id, rw (add_name, old) refl)
    | inl absent ↦
        let (t, e) = push-some 136 (record { id = b.next_name_id; str = take 127 str }) b.names in
        (b.next_name_id, rw (add_name, absent, e) refl)
  ]

  merge_name-Runs : (e : NameEntry) → Runs (merge_name grants e)
  unfolding merge_name
  merge_name-Runs e = record {
    runs =
        λ m. let (id, given) = add_name-some m.out (c_string e.str) in rw (merge_name, given) refl;
  }

  module _ (p : Parsed) (bias : ℕ) where
    merge_route-Runs : (r : RouteRec) → Runs (merge_route grants p bias r)
    unfolding merge_route
    merge_route-Runs r = record { runs = λ m. added-true _ _ _ (add_route-true _ _) }

    merge_inst-Runs : (r : InstRec) → Runs (merge_inst grants p bias r)
    unfolding merge_inst
    merge_inst-Runs r = record { runs = λ m. added-true _ _ _ (add_inst-true _ _) }

    merge_calib-Runs : (r : CalibRec) → Runs (merge_calib grants p bias r)
    unfolding merge_calib
    merge_calib-Runs r = record { runs = λ m. added-true _ _ _ (add_calib-true _ _) }

    merge_window-Runs : (r : WindowRec) → Runs (merge_window grants p bias r)
    unfolding merge_window
    merge_window-Runs r = record { runs = λ m. added-true _ _ _ (add_window-true _ _) }

    merge_link-Runs : (r : LinkRec) → Runs (merge_link grants p bias r)
    unfolding merge_link
    merge_link-Runs r = record { runs = λ m. added-true _ _ _ (add_link-true _ _) }

    merge_note-Runs : (r : NoteRec) → Runs (merge_note grants p bias r)
    unfolding merge_note
    merge_note-Runs r = record { runs = λ m. added-true _ _ _ (add_note-true _ _) }

    merge_wave-Runs : (b : WaveRec) → Runs (merge_wave grants p bias b)
    unfolding merge_wave
    merge_wave-Runs b = record {
      runs = λ m. elim (Bool-cases (b.sample_count == 0)) [
        | inl empty ↦ rw empty refl
        | inr given ↦
            rw given
              (added-true _ _ _ (add_wave_copy-true _ _ _ b.samples b.sample_count _ _ given))
      ];
    }

    merge_marker-Runs :
        (opt : MergeOptions) (k : MarkerRec) → Runs (merge_marker grants p bias opt k)
    unfolding merge_marker
    merge_marker-Runs opt k = record {
      runs = λ m.
          elim (Bool-cases (opt.drop_unlinked_markers && not (is_linked k.window_id p.wind))) [
            | inl dropped ↦ rw dropped refl
            | inr linked ↦ rw linked (added-true _ _ _ (add_marker-true _ _))
          ];
    }

    merge_side-Runs : (opt : MergeOptions) → Runs (merge_side grants p bias opt)
    unfolding merge_side
    merge_side-Runs opt = then-Runs (each-Runs _ merge_name-Runs p.snam.entries) (
        then-Runs (each-Runs _ merge_route-Runs p.rout) (
          then-Runs (each-Runs _ merge_inst-Runs p.inst) (
            then-Runs (each-Runs _ merge_calib-Runs p.clbr) (
              then-Runs (each-Runs _ merge_window-Runs p.wind) (
                then-Runs (each-Runs _ merge_wave-Runs p.wave) (
                  then-Runs (each-Runs _ (merge_marker-Runs opt) p.mark) (
                    then-Runs (each-Runs _ merge_link-Runs p.link) (
                      then-Runs
                        (each-Runs _ merge_note-Runs (if opt.include_notes then p.note else []))
                        done-Runs))))))))

  -- Where no allocation is refused, a merge succeeds.
  pub merge_into_builder-granted :
      (out : Builder) (left right : Parsed) (opt : MergeOptions)
      → (merge_into_builder grants out left right opt).0 ≡ true
  unfolding merge_into_builder
  merge_into_builder-granted out left right opt =
      (then-Runs (merge_side-Runs left 0 opt)
          (merge_side-Runs right (if opt.remap_colliding_ids then 100000 else 0) opt)).runs
        _
