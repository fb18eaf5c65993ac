-- ===== src/Xref/Resolved.antt =====
-- A validation that succeeds has resolved every reference.
use ray_vault.Base.{
  ℕ, ◌+◌, ◌*◌, ◌^◌, ◌≤◌, ◌<◌, ◌≡◌, ◌≢◌, ◌⊎◌, inl, inr, refl, Bool, true, false, not, ◌&&◌, ◌==◌,
  Option, none, some, List, [], ◌∷◌, All, length, u32, arith, ==→eq,
}
use ray_vault.Records.{WindowRec, MarkerRec, WaveRec, LinkRec}
use ray_vault.Parser.{Parsed}
use ray_vault.Dict.{check_routes, check_instruments, check_markers}
use ray_vault.Xref.{
  Index, find_route, find_window, find_wave, find_inst, find_calib, XrefReport, is_none,
  window_tests, marker_tests, wave_tests, link_tests, name_tests, add_failures, check_rows,
  no_report, xref_validate,
}

abbrev one_if : Bool → ℕ
one_if true = 1
one_if false = 0

-- The number of tests that fail, for one record and for a table.
abbrev fails : List Bool → ℕ
fails [] = 0
fails (t ∷ ts) = one_if t + fails ts

abbrev all_fails : {A : Type 0} → (A → List Bool) → List A → ℕ
all_fails tests [] = 0
all_fails tests (x ∷ xs) = fails (tests x) + all_fails tests xs

add_failures-fails : (ts : List Bool) (n : ℕ) → n < 2 ^ 32 → add_failures ts n ≡ u32 (n + fails ts)
unfolding add_failures
add_failures-fails [] n h = omega (arith, h)
add_failures-fails (true ∷ ts) n h =
    omega (arith, add_failures-fails ts (u32 (n + 1)) (omega arith))
add_failures-fails (false ∷ ts) n h = omega (arith, add_failures-fails ts n h)

check_rows-fails :
    {A : Type 0} (tests : A → List Bool) (xs : List A) (rep : XrefReport)
    → rep.failures < 2 ^ 32
    → (check_rows tests xs rep).failures ≡ u32 (rep.failures + all_fails tests xs)
unfolding check_rows
check_rows-fails tests [] rep h = omega (arith, h)
check_rows-fails tests (x ∷ xs) rep h =
    let one = add_failures-fails (tests x) rep.failures h in
    let next : XrefReport = record rep {
      checked = u32 (rep.checked + 1);
      failures = add_failures (tests x) rep.failures;
    } in
    omega (arith, one, check_rows-fails tests xs next (omega (arith, one)))

all_fails-le :
    {A : Type 0} (tests : A → List Bool) (k : ℕ)
    → ((x : A) → fails (tests x) ≤ k)
    → (xs : List A) → all_fails tests xs ≤ length xs * k
all_fails-le tests k each [] = omega arith
all_fails-le tests k each (x ∷ xs) = omega (arith, each x, all_fails-le tests k each xs)

abbrev Quiet : List Bool → Type 0
Quiet ts = fails ts ≡ 0

all_fails-Quiet :
    {A : Type 0} (tests : A → List Bool) (P : A → Type 0)
    → ((x : A) → Quiet (tests x) → P x)
    → (xs : List A) → all_fails tests xs ≡ 0
    → All P xs
all_fails-Quiet tests P each [] none_is = tt
all_fails-Quiet tests P each (x ∷ xs) none_is =
    (each x (omega (arith, none_is)), all_fails-Quiet tests P each xs (omega (arith, none_is)))

fails-le : (ts : List Bool) → fails ts ≤ length ts
fails-le [] = omega arith
fails-le (true ∷ ts) = omega (arith, fails-le ts)
fails-le (false ∷ ts) = omega (arith, fails-le ts)

-- What a record's references owe.
abbrev pub WindowResolved : Index → Parsed → WindowRec → Type 0
WindowResolved idx p w =
    (find_route idx w.route_id ≢ none)
    × (find_inst p w.inst_id ≢ none)
    × ((w.calib_id ≡ 0) ⊎ (find_calib p w.calib_id ≢ none))
    × ((w.wave_block_id ≡ 0) ⊎ (find_wave idx w.wave_block_id ≢ none))

abbrev pub LinkResolved : Index → LinkRec → Type 0
LinkResolved idx l =
    ((l.from_kind ≢ 1) ⊎ (find_route idx l.from_id ≢ none))
    × ((l.to_kind ≢ 2) ⊎ (find_window idx l.to_id ≢ none))

abbrev pub Resolved : Index → Parsed → Type 0
Resolved idx p =
    All (WindowResolved idx p) p.wind
    × All (λ m. find_window idx m.window_id ≢ none) p.mark
    × All (λ b. (b.window_id ≡ 0) ⊎ (find_window idx b.window_id ≢ none)) p.wave
    × All (LinkResolved idx) p.link
    × (check_routes p.snam p.rout ≡ none)
    × (check_instruments p.snam p.inst ≡ none)
    × (check_markers p.snam p.mark ≡ none)

present : {A : Type 0} (o : Option A) → one_if (is_none o) ≡ 0 → o ≢ none
present none h e = absurd (omega (arith, h))
present (some x) h e = cc

optional :
    {A : Type 0} (id : ℕ) (o : Option A)
    → one_if (not (id == 0) && is_none o) ≡ 0
    → (id ≡ 0) ⊎ (o ≢ none)
optional id none h = inl (ground arith)
optional id (some x) h = inr λ e. cc

unreported : {A : Type 0} (o : Option A) → one_if (not (is_none o)) ≡ 0 → o ≡ none
unreported none h = refl
unreported (some x) h = absurd (omega (arith, h))

of_kind :
    {A : Type 0} (kind k : ℕ) (o : Option A)
    → one_if ((kind == k) && is_none o) ≡ 0
    → (kind ≢ k) ⊎ (o ≢ none)
of_kind kind k none h = inl λ e. ground (arith, h, e)
of_kind kind k (some x) h = inr λ e. cc

module _ (idx : Index) (p : Parsed) where
  window_tests-Quiet : (w : WindowRec) → Quiet (window_tests idx p w) → WindowResolved idx p w
  unfolding window_tests
  window_tests-Quiet w q = (
    present (find_route idx w.route_id) (omega (arith, q)),
    present (find_inst p w.inst_id) (omega (arith, q)),
    optional w.calib_id (find_calib p w.calib_id) (omega (arith, q)),
    optional w.wave_block_id (find_wave idx w.wave_block_id) (omega (arith, q)),
  )

  link_tests-Quiet : (l : LinkRec) → Quiet (link_tests idx l) → LinkResolved idx l
  unfolding link_tests
  link_tests-Quiet l q = (
    of_kind l.from_kind 1 (find_route idx l.from_id) (omega (arith, q)),
    of_kind l.to_kind 2 (find_window idx l.to_id) (omega (arith, q)),
  )

  marker_tests-Quiet :
      (m : MarkerRec) → Quiet (marker_tests idx m) → find_window idx m.window_id ≢ none
  unfolding marker_tests
  marker_tests-Quiet m q = present (find_window idx m.window_id) (omega (arith, q))

  wave_tests-Quiet :
      (b : WaveRec)
      → Quiet (wave_tests idx b)
      → (b.window_id ≡ 0) ⊎ (find_window idx b.window_id ≢ none)
  unfolding wave_tests
  wave_tests-Quiet b q = optional b.window_id (find_window idx b.window_id) (omega (arith, q))

  name_tests-Quiet :
      Quiet (name_tests p)
      → (check_routes p.snam p.rout ≡ none)
        × (check_instruments p.snam p.inst ≡ none)
        × (check_markers p.snam p.mark ≡ none)
  unfolding name_tests
  name_tests-Quiet q = (
    unreported (check_routes p.snam p.rout) (omega (arith, q)),
    unreported (check_instruments p.snam p.inst) (omega (arith, q)),
    unreported (check_markers p.snam p.mark) (omega (arith, q)),
  )

  -- All the failures of a validation.
  abbrev dangling : ℕ
  dangling =
      all_fails (window_tests idx p) p.wind
      + all_fails (marker_tests idx) p.mark
      + all_fails (wave_tests idx) p.wave
      + all_fails (link_tests idx) p.link
      + fails (name_tests p)

  -- The tables are within the limits of their decoders.
  abbrev pub Limited : Type 0
  Limited =
      (length p.wind ≤ 200000)
      × (length p.mark ≤ 500000)
      × (length p.wave ≤ 50000)
      × (length p.link ≤ 200000)

  dangling-lt : Limited → dangling < 2 ^ 32
  unfolding window_tests marker_tests wave_tests link_tests name_tests
  dangling-lt (winds, marks, waves, links) = omega (
    arith,
    winds,
    marks,
    waves,
    links,
    all_fails-le (window_tests idx p) 4 (λ w. fails-le (window_tests idx p w)) p.wind,
    all_fails-le (marker_tests idx) 1 (λ m. fails-le (marker_tests idx m)) p.mark,
    all_fails-le (wave_tests idx) 1 (λ b. fails-le (wave_tests idx b)) p.wave,
    all_fails-le (link_tests idx) 2 (λ l. fails-le (link_tests idx l)) p.link,
    fails-le (name_tests p),
  )

  xref_validate-dangling : (xref_validate idx p).1.failures ≡ u32 dangling
  unfolding xref_validate
  xref_validate-dangling =
      let r1 = check_rows (window_tests idx p) p.wind no_report in
      let e1 = check_rows-fails (window_tests idx p) p.wind no_report (omega arith) in
      let r2 = check_rows (marker_tests idx) p.mark r1 in
      let e2 = check_rows-fails (marker_tests idx) p.mark r1 (omega (arith, e1)) in
      let r3 = check_rows (wave_tests idx) p.wave r2 in
      let e3 = check_rows-fails (wave_tests idx) p.wave r2 (omega (arith, e2)) in
      let r4 = check_rows (link_tests idx) p.link r3 in
      let e4 = check_rows-fails (link_tests idx) p.link r3 (omega (arith, e3)) in
      omega
        (arith, e1, e2, e3, e4, add_failures-fails (name_tests p) r4.failures (omega (arith, e4)))

  no_failures : (xref_validate idx p).0 ≡ true → (xref_validate idx p).1.failures ≡ 0
  unfolding xref_validate
  no_failures success = ==→eq _ 0 success

  -- Where the tables are within the limits of their decoders, a cross-reference check that succeeds
  -- has resolved these references: each window's route and instrument, and its calibration and its
  -- wave where they are not 0; each marker's window; each wave's window where it is not 0; of a link,
  -- `from_id` as a route where its from_kind is 1, and `to_id` as a window where its to_kind is 2; and
  -- the checks of the names of routes, instruments and markers report no bad id. Nothing is said of the
  -- instruments of calibrations, of the other kinds of link ends, of notes and of the other names.
  pub xref_validate-Resolved : Limited → (xref_validate idx p).0 ≡ true → Resolved idx p
  xref_validate-Resolved limited success =
      let none_is : dangling ≡ 0 =
        omega (arith, dangling-lt limited, xref_validate-dangling, no_failures success) in
      (
        all_fails-Quiet (window_tests idx p) (WindowResolved idx p) window_tests-Quiet p.wind
            (omega (arith, none_is)),
        all_fails-Quiet (marker_tests idx) _ marker_tests-Quiet p.mark (omega (arith, none_is)),
        all_fails-Quiet (wave_tests idx) _ wave_tests-Quiet p.wave (omega (arith, none_is)),
        all_fails-Quiet (link_tests idx) (LinkResolved idx) link_tests-Quiet p.link
            (omega (arith, none_is)),
        (name_tests-Quiet (omega (arith, none_is))).0,
        (name_tests-Quiet (omega (arith, none_is))).1,
        (name_tests-Quiet (omega (arith, none_is))).2,
      )
