-- ===== src/Merge/Added.antt =====
-- The rows that a call of the builder adds, where it succeeds.
use ray_vault.Base.{
  ℕ, Bool, true, false, ◌==◌, Bool-cases, Option, inl, inr, ◌≡◌, refl, ap, sym, ◌∙◌, subst, some,
  none, List, [], ◌∷◌, ◌++◌, arith, ◌*◌, take,
}
use mathlib.Core.List.{map, map-append}
use ray_vault.Records.{RouteRec, InstRec, CalibRec, WindowRec, MarkerRec, LinkRec, NoteRec}
use ray_vault.Builder.{
  Builder, Table, Wave, push, add_route, add_inst, add_calib, add_window, add_wave_copy, add_marker,
  add_link, add_note,
}
use ray_vault.Builder.Names.Ids.{push-items}
use ray_vault.Merge.{Merge, MergeStats, added}
use ray_vault.Merge.Rows.{
  Rows, rows, no_rows, ◌⊕◌, rows-nil, nameless_route, nameless_inst, nameless_marker, nameless_note,
}

-- What a table that grew has, behind the call that grew it.
module _ {A : Type 0} (grants : ℕ → Bool) (elem : ℕ) (x : A) (t : Table A) (b b' : Builder)
    (grown : Table A → Builder) where
  push_ok :
      ◌≡◌ {A = Bool × Builder}
        (elim (push grants elem x t) [ none ↦ (false, b) | some t' ↦ (true, grown t') ])
        (true, b')
      → (t' : Table A) × (t'.items ≡ t.items ++ x ∷ []) × (grown t' ≡ b')
  push_ok e = go (push grants elem x t) refl e
    where
      go :
          (o : Option (Table A))
          → push grants elem x t ≡ o
          → ◌≡◌ {A = Bool × Builder}
              (elim o [ none ↦ (false, b) | some t' ↦ (true, grown t') ])
              (true, b')
          → (t' : Table A) × (t'.items ≡ t.items ++ x ∷ []) × (grown t' ≡ b')
      go none pushed r = absurd (ground (arith, r))
      go (some t') pushed r =
          (t', push-items grants elem x t t' pushed, ap (λ (q : Bool × Builder). q.1) r)

pub added_ok :
    (counted : MergeStats → MergeStats) (o : Bool × Builder) (m m' : Merge)
    → added counted o m ≡ (true, m')
    → (o ≡ (true, m'.out))
added_ok counted (true, b) m m' e = ap (λ (q : Bool × Merge). (true, q.1.out)) e
added_ok counted (false, b) m m' e = absurd (ground (arith, e))

module _ (grants : ℕ → Bool) (b b' : Builder) where
  pub add_route-rows :
      (r : RouteRec)
      → add_route grants b r ≡ (true, b')
      → rows b' ≡ rows b ⊕ record no_rows { routes = nameless_route r ∷ [] }
  unfolding add_route
  add_route-rows r e =
      let (t, items, same) = push_ok grants 24 r b.routes b b' (λ t. record b { routes = t }) e in
      subst (λ b'. rows b' ≡ rows b ⊕ record no_rows { routes = nameless_route r ∷ [] }) same
        (ap {B = Rows} (λ rs. record (rows b) { routes = map nameless_route rs }) items
          ∙ ap {B = Rows} (λ rs. record (rows b) { routes = rs })
              (map-append nameless_route b.routes.items (r ∷ []))
          ∙ sym (
              ap {B = Rows}
                (λ (all : Rows). record all {
                  routes = map nameless_route b.routes.items ++ nameless_route r ∷ [];
                })
                (rows-nil (rows b))))

  pub add_inst-rows :
      (i : InstRec)
      → add_inst grants b i ≡ (true, b')
      → rows b' ≡ rows b ⊕ record no_rows { insts = nameless_inst i ∷ [] }
  unfolding add_inst
  add_inst-rows i e =
      let (t, items, same) = push_ok grants 24 i b.insts b b' (λ t. record b { insts = t }) e in
      subst (λ b'. rows b' ≡ rows b ⊕ record no_rows { insts = nameless_inst i ∷ [] }) same
        (ap {B = Rows} (λ rs. record (rows b) { insts = map nameless_inst rs }) items
          ∙ ap {B = Rows} (λ rs. record (rows b) { insts = rs })
              (map-append nameless_inst b.insts.items (i ∷ []))
          ∙ sym (
              ap {B = Rows}
                (λ (all : Rows). record all {
                  insts = map nameless_inst b.insts.items ++ nameless_inst i ∷ [];
                })
                (rows-nil (rows b))))

  pub add_calib-rows :
      (c : CalibRec)
      → add_calib grants b c ≡ (true, b')
      → rows b' ≡ rows b ⊕ record no_rows { calibs = c ∷ [] }
  unfolding add_calib
  add_calib-rows c e =
      let (t, items, same) = push_ok grants 32 c b.calibs b b' (λ t. record b { calibs = t }) e in
      subst (λ b'. rows b' ≡ rows b ⊕ record no_rows { calibs = c ∷ [] }) same
        (ap {B = Rows} (λ rs. record (rows b) { calibs = rs }) items
          ∙ sym (
              ap {B = Rows} (λ (all : Rows). record all { calibs = b.calibs.items ++ c ∷ [] })
                (rows-nil (rows b))))

  pub add_window-rows :
      (w : WindowRec)
      → add_window grants b w ≡ (true, b')
      → rows b' ≡ rows b ⊕ record no_rows { windows = w ∷ [] }
  unfolding add_window
  add_window-rows w e =
      let (t, items, same) = push_ok grants 40 w b.windows b b' (λ t. record b { windows = t }) e in
      subst (λ b'. rows b' ≡ rows b ⊕ record no_rows { windows = w ∷ [] }) same
        (ap {B = Rows} (λ rs. record (rows b) { windows = rs }) items
          ∙ sym (
              ap {B = Rows} (λ (all : Rows). record all { windows = b.windows.items ++ w ∷ [] })
                (rows-nil (rows b))))

  pub add_marker-rows :
      (k : MarkerRec)
      → add_marker grants b k ≡ (true, b')
      → rows b' ≡ rows b ⊕ record no_rows { markers = nameless_marker k ∷ [] }
  unfolding add_marker
  add_marker-rows k e =
      let (t, items, same) = push_ok grants 32 k b.markers b b' (λ t. record b { markers = t }) e in
      subst (λ b'. rows b' ≡ rows b ⊕ record no_rows { markers = nameless_marker k ∷ [] }) same
        (ap {B = Rows} (λ rs. record (rows b) { markers = map nameless_marker rs }) items
          ∙ ap {B = Rows} (λ rs. record (rows b) { markers = rs })
              (map-append nameless_marker b.markers.items (k ∷ []))
          ∙ sym (
              ap {B = Rows}
                (λ (all : Rows). record all {
                  markers = map nameless_marker b.markers.items ++ nameless_marker k ∷ [];
                })
                (rows-nil (rows b))))

  pub add_link-rows :
      (l : LinkRec)
      → add_link grants b l ≡ (true, b')
      → rows b' ≡ rows b ⊕ record no_rows { links = l ∷ [] }
  unfolding add_link
  add_link-rows l e =
      let (t, items, same) = push_ok grants 24 l b.links b b' (λ t. record b { links = t }) e in
      subst (λ b'. rows b' ≡ rows b ⊕ record no_rows { links = l ∷ [] }) same
        (ap {B = Rows} (λ rs. record (rows b) { links = rs }) items
          ∙ sym (
              ap {B = Rows} (λ (all : Rows). record all { links = b.links.items ++ l ∷ [] })
                (rows-nil (rows b))))

  pub add_note-rows :
      (n : NoteRec)
      → add_note grants b n ≡ (true, b')
      → rows b' ≡ rows b ⊕ record no_rows { notes = nameless_note n ∷ [] }
  unfolding add_note
  add_note-rows n e =
      let (t, items, same) = push_ok grants 20 n b.notes b b' (λ t. record b { notes = t }) e in
      subst (λ b'. rows b' ≡ rows b ⊕ record no_rows { notes = nameless_note n ∷ [] }) same
        (ap {B = Rows} (λ rs. record (rows b) { notes = map nameless_note rs }) items
          ∙ ap {B = Rows} (λ rs. record (rows b) { notes = rs })
              (map-append nameless_note b.notes.items (n ∷ []))
          ∙ sym (
              ap {B = Rows}
                (λ (all : Rows). record all {
                  notes = map nameless_note b.notes.items ++ nameless_note n ∷ [];
                })
                (rows-nil (rows b))))

  pub add_wave_copy-rows :
      (block_id window_id : ℕ) (samples : List ℕ) (count start_m step_m : ℕ)
      → add_wave_copy grants b block_id window_id samples count start_m step_m ≡ (true, b')
      → rows b'
        ≡ rows b ⊕ record no_rows {
          waves =
              record {
                block_id = block_id;
                window_id = window_id;
                sample_count = count;
                start_m = start_m;
                step_m = step_m;
                samples = take (count * 2) samples;
                samples_owned = true;
                flags = 0;
              }
              ∷ [];
        }
  unfolding add_wave_copy
  add_wave_copy-rows block_id window_id samples count start_m step_m e =
      let w : Wave = record {
        block_id = block_id;
        window_id = window_id;
        sample_count = count;
        start_m = start_m;
        step_m = step_m;
        samples = take (count * 2) samples;
        samples_owned = true;
        flags = 0;
      } in
      elim (Bool-cases (count == 0)) [
        | inl empty ↦ absurd (ground (arith, empty, e))
        | inr given ↦ elim (Bool-cases (grants (count * 2))) [
          | inr refused ↦ absurd (ground (arith, given, refused, e))
          | inl granted ↦
              let (t, items, same) =
                push_ok grants 40 w b.waves b b' (λ t. record b { waves = t })
                  (ground (arith, given, granted, e)) in
              subst (λ b'. rows b' ≡ rows b ⊕ record no_rows { waves = w ∷ [] }) same
                (ap {B = Rows} (λ rs. record (rows b) { waves = rs }) items
                  ∙ sym (
                      ap {B = Rows} (λ (all : Rows). record all { waves = b.waves.items ++ w ∷ [] })
                        (rows-nil (rows b))))
        ]
      ]
