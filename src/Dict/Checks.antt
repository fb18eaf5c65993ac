-- ===== src/Dict/Checks.antt =====
-- The checks of the references to names.
use ray_vault.Base.{
  ℕ, ◌≡◌, ◌≢◌, ◌⊎◌, inl, inr, ◌∙◌, ap, sym, true, false, ◌==◌, Bool-cases, Option-cases, Option,
  none, some, List, [], ◌∷◌, arith, All, ==→eq, ==→ne,
}
use mathlib.Core.List.{Memᴰ}
use mathlib.Core.List.Memᴰ.{head, tail}
use ray_vault.Records.{RouteRec, InstRec, MarkerRec}
use ray_vault.Section.Blobs.{NameEntry, SnamTable}
use ray_vault.Dict.{by_id, find_id, is_bad, check_routes, check_instruments, check_markers}

-- The reference is 0, or a name of the table has this id.
abbrev pub Named : SnamTable → ℕ → Type 0
Named t id = (id ≡ 0) ⊎ ((e : NameEntry) × Memᴰ e t.entries × (e.id ≡ id))

find_id-some :
    (id : ℕ) (es : List NameEntry) (e : NameEntry)
    → find_id id es ≡ some e
    → Memᴰ e es × (e.id ≡ id)
unfolding find_id
find_id-some id [] e h = cc
find_id-some id (x ∷ es) e h = elim (Bool-cases (x.id == id)) [
  | inl hit ↦
      let same : x ≡ e = ground (arith, hit, h) in
      (head (sym same), ap (λ (y : NameEntry). y.id) (sym same) ∙ ==→eq x.id id hit)
  | inr miss ↦ let (i, same) = find_id-some id es e (ground (arith, miss, h)) in (tail i, same)
]

find_id-none :
    (id : ℕ) (es : List NameEntry) → find_id id es ≡ none → (e : NameEntry) → Memᴰ e es → e.id ≢ id
unfolding find_id
find_id-none id [] h e m = elim m [ ]
find_id-none id (x ∷ es) h e m = elim (Bool-cases (x.id == id)) [
  | inl hit ↦ ground (arith, hit, h)
  | inr miss ↦ elim m [
    | head same ↦ λ at. ==→ne x.id id miss (ap (λ (y : NameEntry). y.id) (sym same) ∙ at)
    | tail i ↦ find_id-none id es (ground (arith, miss, h)) e i
  ]
]

is_bad-Named : (t : SnamTable) (id : ℕ) → is_bad t id ≡ false → Named t id
unfolding is_bad by_id
is_bad-Named t id h = elim (Bool-cases (id == 0)) [
  | inl zero_id ↦ inl (==→eq id 0 zero_id)
  | inr ref ↦ elim (Option-cases (find_id id t.entries)) [
    | inl gone ↦ ground (arith, ref, gone, h)
    | inr (e, there) ↦ let (i, same) = find_id-some id t.entries e there in inr (e, i, same)
  ]
]

is_bad-not_Named : (t : SnamTable) (id : ℕ) → is_bad t id ≡ true → Named t id → ⊥
unfolding is_bad by_id
is_bad-not_Named t id h (inl zero_id) = ground (arith, zero_id, h)
is_bad-not_Named t id h (inr (e, i, same)) = elim (Option-cases (find_id id t.entries)) [
  | inl gone ↦ find_id-none id t.entries gone e i same
  | inr (f, there) ↦ ground (arith, there, h)
]

-- The status 0 says that every record's references are named; a bad id is one that is not named.
abbrev pub Verdict : {A : Type 0} → SnamTable → (A → Type 0) → List A → Option ℕ → Type 0
Verdict t P xs none = All P xs
Verdict t P xs (some id) = Named t id → ⊥

-- A check of one more record, with the answer `rest` for the others.
one_more :
    {A : Type 0} (t : SnamTable) (P : A → Type 0) (x : A) (xs : List A) (rest : Option ℕ)
    → P x
    → Verdict t P xs rest
    → Verdict t P (x ∷ xs) rest
one_more t P x xs none p v = (p, v)
one_more t P x xs (some id) p v = v

abbrev pub RouteNamed : SnamTable → RouteRec → Type 0
RouteNamed t r = Named t r.site_name_id × Named t r.far_name_id

abbrev pub InstNamed : SnamTable → InstRec → Type 0
InstNamed t r = Named t r.model_name_id × Named t r.serial_name_id

abbrev pub MarkerNamed : SnamTable → MarkerRec → Type 0
MarkerNamed t m = Named t m.label_name_id

module _ (t : SnamTable) where
  check_routes-Verdict : (rs : List RouteRec) → Verdict t (RouteNamed t) rs (check_routes t rs)
  unfolding check_routes
  check_routes-Verdict [] = tt
  check_routes-Verdict (r ∷ rs) = elim (Bool-cases (is_bad t r.site_name_id)) [
    | inl bad ↦ rw (check_routes, bad) (is_bad-not_Named t r.site_name_id bad)
    | inr fine ↦ elim (Bool-cases (is_bad t r.far_name_id)) [
      | inl bad ↦ rw (check_routes, fine, bad) (is_bad-not_Named t r.far_name_id bad)
      | inr good ↦
          rw (check_routes, fine, good)
            (one_more t (RouteNamed t) r rs (check_routes t rs)
              (is_bad-Named t r.site_name_id fine, is_bad-Named t r.far_name_id good)
              (check_routes-Verdict rs))
    ]
  ]

  check_instruments-Verdict :
      (rs : List InstRec) → Verdict t (InstNamed t) rs (check_instruments t rs)
  unfolding check_instruments
  check_instruments-Verdict [] = tt
  check_instruments-Verdict (r ∷ rs) = elim (Bool-cases (is_bad t r.model_name_id)) [
    | inl bad ↦ rw (check_instruments, bad) (is_bad-not_Named t r.model_name_id bad)
    | inr fine ↦ elim (Bool-cases (is_bad t r.serial_name_id)) [
      | inl bad ↦ rw (check_instruments, fine, bad) (is_bad-not_Named t r.serial_name_id bad)
      | inr good ↦
          rw (check_instruments, fine, good)
            (one_more t (InstNamed t) r rs (check_instruments t rs)
              (is_bad-Named t r.model_name_id fine, is_bad-Named t r.serial_name_id good)
              (check_instruments-Verdict rs))
    ]
  ]

  check_markers-Verdict : (ms : List MarkerRec) → Verdict t (MarkerNamed t) ms (check_markers t ms)
  unfolding check_markers
  check_markers-Verdict [] = tt
  check_markers-Verdict (m ∷ ms) = elim (Bool-cases (is_bad t m.label_name_id)) [
    | inl bad ↦ rw (check_markers, bad) (is_bad-not_Named t m.label_name_id bad)
    | inr fine ↦
        rw (check_markers, fine)
          (one_more t (MarkerNamed t) m ms (check_markers t ms)
            (is_bad-Named t m.label_name_id fine) (check_markers-Verdict ms))
  ]

  -- The three checks of references to names: the status 0 says that each reference of each record is 0
  -- or the id of a name of the table, and a bad id that is reported is neither.
  pub checks-Verdict :
      (rs : List RouteRec) (is : List InstRec) (ms : List MarkerRec)
      → Verdict t (RouteNamed t) rs (check_routes t rs)
        × Verdict t (InstNamed t) is (check_instruments t is)
        × Verdict t (MarkerNamed t) ms (check_markers t ms)
  checks-Verdict rs is ms =
      (check_routes-Verdict rs, check_instruments-Verdict is, check_markers-Verdict ms)
