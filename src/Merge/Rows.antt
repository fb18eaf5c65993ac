-- ===== src/Merge/Rows.antt =====
-- The rows of a builder, and what a step of a merge adds to them. References to names are left out.
use ray_vault.Base.{
  Bool, true, false, ◌≡◌, refl, ap, sym, ◌∙◌, subst, List, [], ◌∷◌, ◌++◌, append-nil, append_assoc,
  arith, if◌then◌else◌,
}
use mathlib.Core.List.{map}
use ray_vault.Records.{RouteRec, InstRec, CalibRec, WindowRec, MarkerRec, LinkRec, NoteRec}
use ray_vault.Builder.{Builder, Wave}
use ray_vault.Merge.{Merge, Step, then_, all_of}

pub record Rows : Type 0 where
  pub routes : List RouteRec
  pub insts : List InstRec
  pub calibs : List CalibRec
  pub windows : List WindowRec
  pub waves : List Wave
  pub markers : List MarkerRec
  pub links : List LinkRec
  pub notes : List NoteRec

abbrev pub nameless_route : RouteRec → RouteRec
nameless_route r = record r { site_name_id = 0; far_name_id = 0 }

abbrev pub nameless_inst : InstRec → InstRec
nameless_inst i = record i { model_name_id = 0; serial_name_id = 0 }

abbrev pub nameless_marker : MarkerRec → MarkerRec
nameless_marker k = record k { label_name_id = 0 }

abbrev pub nameless_note : NoteRec → NoteRec
nameless_note n = record n { text_name_id = 0 }

abbrev pub rows : Builder → Rows
rows b = record {
  routes = map nameless_route b.routes.items;
  insts = map nameless_inst b.insts.items;
  calibs = b.calibs.items;
  windows = b.windows.items;
  waves = b.waves.items;
  markers = map nameless_marker b.markers.items;
  links = b.links.items;
  notes = map nameless_note b.notes.items;
}

abbrev pub no_rows : Rows
no_rows = record {
  routes = [];
  insts = [];
  calibs = [];
  windows = [];
  waves = [];
  markers = [];
  links = [];
  notes = [];
}

-- Rows behind rows.
infixl 6 ◌⊕◌
abbrev pub ◌⊕◌ : Rows → Rows → Rows
◌⊕◌ a b = record {
  routes = a.routes ++ b.routes;
  insts = a.insts ++ b.insts;
  calibs = a.calibs ++ b.calibs;
  windows = a.windows ++ b.windows;
  waves = a.waves ++ b.waves;
  markers = a.markers ++ b.markers;
  links = a.links ++ b.links;
  notes = a.notes ++ b.notes;
}

pub rows-nil : (a : Rows) → a ⊕ no_rows ≡ a
rows-nil a =
    rw
      (
        append-nil a.routes,
        append-nil a.insts,
        append-nil a.calibs,
        append-nil a.windows,
        append-nil a.waves,
        append-nil a.markers,
        append-nil a.links,
        append-nil a.notes,
      )
      refl

rows_assoc : (a b c : Rows) → (a ⊕ b) ⊕ c ≡ a ⊕ (b ⊕ c)
rows_assoc a b c =
    rw
      (
        append_assoc a.routes b.routes c.routes,
        append_assoc a.insts b.insts c.insts,
        append_assoc a.calibs b.calibs c.calibs,
        append_assoc a.windows b.windows c.windows,
        append_assoc a.waves b.waves c.waves,
        append_assoc a.markers b.markers c.markers,
        append_assoc a.links b.links c.links,
        append_assoc a.notes b.notes c.notes,
      )
      refl

-- A step that succeeds adds the rows d, behind those that were there.
pub record Adds (s : Step) (d : Rows) : Type 0 where
  pub adds : (m m' : Merge) → s m ≡ (true, m') → rows m'.out ≡ rows m.out ⊕ d

then_ok :
    (s k : Step) (m m' : Merge)
    → then_ s k m ≡ (true, m')
    → (m₁ : Merge) × (s m ≡ (true, m₁)) × (k m₁ ≡ (true, m'))
then_ok s k m m' e = go (s m) refl e
  where
    go :
        (r : Bool × Merge)
        → s m ≡ r
        → (if r.0 then k r.1 else (false, r.1)) ≡ (true, m')
        → (m₁ : Merge) × (s m ≡ (true, m₁)) × (k m₁ ≡ (true, m'))
    go (true, m₁) first rest = (m₁, first, rest)
    go (false, m₁) first rest = absurd (ground (arith, rest))

pub then-Adds : {s k : Step} {d e : Rows} → Adds s d → Adds k e → Adds (then_ s k) (d ⊕ e)
then-Adds {s} {k} {d} {e} a b = record {
  adds = λ m m' runs.
      let (m₁, first, rest) = then_ok s k m m' runs in
      b.adds m₁ m' rest ∙ ap (λ r. r ⊕ e) (a.adds m m₁ first) ∙ rows_assoc (rows m.out) d e;
}

pub done-Adds : Adds (all_of []) no_rows
done-Adds = record {
  adds =
      λ m m' runs. ap (λ (r : Bool × Merge). rows r.1.out) (sym runs) ∙ sym (rows-nil (rows m.out));
}

-- The lists of the rows of a loop.
abbrev pub concat : {B : Type 0} → List (List B) → List B
concat [] = []
concat (x ∷ xs) = x ++ concat xs

-- A loop adds the rows of its items to one table; `put` makes the rows of a table.
pub each-Adds :
    {A B : Type 0} (put : List B → Rows)
    → put [] ≡ no_rows
    → ((xs ys : List B) → put (xs ++ ys) ≡ put xs ⊕ put ys)
    → (step : A → Step) (new : A → List B) → ((x : A) → Adds (step x) (put (new x)))
    → (xs : List A) → Adds (all_of (map step xs)) (put (concat (map new xs)))
each-Adds put none_put more_put step new adds [] = rw none_put done-Adds
each-Adds put none_put more_put step new adds (x ∷ xs) =
    rw (more_put (new x) (concat (map new xs)))
      (then-Adds (adds x) (each-Adds put none_put more_put step new adds xs))

concat-one :
    {A B : Type 0} (new : A → B) (xs : List A) → concat (map (λ x. new x ∷ []) xs) ≡ map new xs
concat-one new [] = refl
concat-one new (x ∷ xs) = ap (λ ys. new x ∷ ys) (concat-one new xs)

-- The same for a step that adds one row.
pub each_one-Adds :
    {A B : Type 0} (put : List B → Rows)
    → put [] ≡ no_rows
    → ((xs ys : List B) → put (xs ++ ys) ≡ put xs ⊕ put ys)
    → (step : A → Step) (new : A → B) → ((x : A) → Adds (step x) (put (new x ∷ [])))
    → (xs : List A) → Adds (all_of (map step xs)) (put (map new xs))
each_one-Adds put none_put more_put step new adds xs =
    subst (λ ys. Adds (all_of (map step xs)) (put ys)) (concat-one new xs)
      (each-Adds put none_put more_put step (λ x. new x ∷ []) adds xs)

-- A loop that adds no rows.
pub each_none-Adds :
    {A : Type 0} (step : A → Step)
    → ((x : A) → Adds (step x) no_rows)
    → (xs : List A) → Adds (all_of (map step xs)) no_rows
each_none-Adds step adds [] = done-Adds
each_none-Adds step adds (x ∷ xs) = then-Adds (adds x) (each_none-Adds step adds xs)
