-- ===== src/Normalize/Sorting.antt =====
-- The sort of `rv_normalize_parsed`, and the pass done twice.
use ray_vault.Base.{
  ◌≤◌, ◌≡◌, refl, ap₂, All, Bool-cases, inl, inr, List, [], ◌∷◌, ◌++◌, ltb, append-nil, arith,
}
use mathlib.Core.List.{Perm, perm_middle}
use mathlib.Core.List.Perm
use ray_vault.Records.{WindowRec, MarkerRec, WaveRec}
use ray_vault.Parser.{Parsed}
use ray_vault.Normalize.{
  swap_down, turned, sort_from, sort_windows_by_id, clamp_severity, fill_link, each,
  normalize_parsed,
}

-- The ids rise along the list.
abbrev pub IsSorted : List WindowRec → Type 0
IsSorted [] = Unit
IsSorted (w ∷ []) = Unit
IsSorted (w ∷ v ∷ vs) = (w.window_id ≤ v.window_id) × IsSorted (v ∷ vs)

-- They fall along it.
abbrev Falls : List WindowRec → Type 0
Falls [] = Unit
Falls (w ∷ []) = Unit
Falls (w ∷ v ∷ vs) = (v.window_id ≤ w.window_id) × Falls (v ∷ vs)

abbrev Below : WindowRec → List WindowRec → Type 0
Below u [] = Unit
Below u (w ∷ ws) = w.window_id ≤ u.window_id

Falls-cons : (u : WindowRec) (ws : List WindowRec) → Below u ws → Falls ws → Falls (u ∷ ws)
Falls-cons u [] b h = tt
Falls-cons u (w ∷ ws) b h = (b, h)

swap_down-Below :
    (u w : WindowRec) (ws : List WindowRec)
    → w.window_id ≤ u.window_id
    → Below u ws
    → Below u (swap_down w ws)
unfolding swap_down
swap_down-Below u w [] h b = h
swap_down-Below u w (v ∷ vs) h b = elim (Bool-cases (ltb w.window_id v.window_id)) [
  | inl less ↦ rw less b
  | inr more ↦ rw more h
]

swap_down-Falls : (w : WindowRec) (ws : List WindowRec) → Falls ws → Falls (swap_down w ws)
unfolding swap_down
swap_down-Falls w [] h = tt
swap_down-Falls w (v ∷ []) h = ground arith
swap_down-Falls w (v ∷ u ∷ us) h = elim (Bool-cases (ltb w.window_id v.window_id)) [
  | inl less ↦ rw less (
      Falls-cons v (swap_down w (u ∷ us)) (swap_down-Below v w (u ∷ us) (ground (arith, less)) h.0)
        (swap_down-Falls w (u ∷ us) h.1))
  | inr more ↦ rw more (ground (arith, more), h)
]

sort_from-Falls : (front ws : List WindowRec) → Falls front → Falls (sort_from front ws)
unfolding sort_from
sort_from-Falls front [] h = h
sort_from-Falls front (w ∷ ws) h =
    sort_from-Falls (swap_down w front) ws (swap_down-Falls w front h)

swap_down-perm : (w : WindowRec) (ws : List WindowRec) → Perm (swap_down w ws) (w ∷ ws)
unfolding swap_down
swap_down-perm w [] = Perm.rfl
swap_down-perm w (v ∷ vs) = elim (Bool-cases (ltb w.window_id v.window_id)) [
  | inl less ↦ rw less (Perm.trans (Perm.cons v (swap_down-perm w vs)) (Perm.swap w v vs))
  | inr more ↦ rw more Perm.rfl
]

sort_from-perm : (front ws : List WindowRec) → Perm (sort_from front ws) (front ++ ws)
unfolding sort_from
sort_from-perm front [] = rw append-nil Perm.rfl
sort_from-perm front (w ∷ ws) =
    Perm.trans (sort_from-perm (swap_down w front) ws) (
      Perm.trans (Perm.append_right ws (swap_down-perm w front)) (Perm.symm (perm_middle front ws)))

turned-perm : (xs ys : List WindowRec) → Perm (turned xs ys) (xs ++ ys)
turned-perm [] ys = Perm.rfl
turned-perm (x ∷ xs) ys = Perm.trans (turned-perm xs (x ∷ ys)) (perm_middle xs ys)

-- The lists fall towards and rise from one another.
abbrev Meets : List WindowRec → List WindowRec → Type 0
Meets (x ∷ xs) (y ∷ ys) = x.window_id ≤ y.window_id
Meets xs ys = Unit

IsSorted-cons :
    (w : WindowRec) (ws : List WindowRec) → Meets (w ∷ []) ws → IsSorted ws → IsSorted (w ∷ ws)
IsSorted-cons w [] m h = tt
IsSorted-cons w (v ∷ vs) m h = (m, h)

turned-IsSorted :
    (xs ys : List WindowRec) → Falls xs → IsSorted ys → Meets xs ys → IsSorted (turned xs ys)
turned-IsSorted [] ys f h m = h
turned-IsSorted (x ∷ []) [] f h m = tt
turned-IsSorted (x ∷ []) (y ∷ ys) f h m = (m, h)
turned-IsSorted (x ∷ z ∷ zs) [] f h m = turned-IsSorted (z ∷ zs) (x ∷ []) f.1 tt f.0
turned-IsSorted (x ∷ z ∷ zs) (y ∷ ys) f h m = turned-IsSorted (z ∷ zs) (x ∷ y ∷ ys) f.1 (m, h) f.0

pub sort_windows_by_id-IsSorted : (ws : List WindowRec) → IsSorted (sort_windows_by_id ws)
unfolding sort_windows_by_id
sort_windows_by_id-IsSorted ws =
    turned-IsSorted (sort_from [] ws) [] (sort_from-Falls [] ws tt) tt (meets_nil (sort_from [] ws))
  where
    meets_nil : (xs : List WindowRec) → Meets xs []
    meets_nil [] = tt
    meets_nil (x ∷ xs) = tt

pub sort_windows_by_id-perm : (ws : List WindowRec) → Perm (sort_windows_by_id ws) ws
unfolding sort_windows_by_id
sort_windows_by_id-perm ws =
    Perm.trans (turned-perm (sort_from [] ws) []) (rw append-nil (sort_from-perm [] ws))

turned-turned : (xs ys zs : List WindowRec) → turned (turned xs ys) zs ≡ turned ys (xs ++ zs)
turned-turned [] ys zs = refl
turned-turned (x ∷ xs) ys zs = turned-turned xs (x ∷ ys) zs

swap_down-last :
    (w : WindowRec) (front : List WindowRec) → Meets front (w ∷ []) → swap_down w front ≡ w ∷ front
unfolding swap_down
swap_down-last w [] m = refl
swap_down-last w (v ∷ vs) m = ground arith

IsSorted-tail :
    (w : WindowRec) (ws : List WindowRec) → IsSorted (w ∷ ws) → IsSorted ws × Meets (w ∷ []) ws
IsSorted-tail w [] h = (tt, tt)
IsSorted-tail w (v ∷ vs) h = (h.1, h.0)

Meets-head :
    (front : List WindowRec) (w : WindowRec) (ws : List WindowRec)
    → Meets front (w ∷ ws)
    → Meets front (w ∷ [])
Meets-head [] w ws m = tt
Meets-head (v ∷ vs) w ws m = m

Meets-last : (w : WindowRec) (front ws : List WindowRec) → Meets (w ∷ []) ws → Meets (w ∷ front) ws
Meets-last w front [] m = tt
Meets-last w front (v ∷ vs) m = m

sort_from-sorted :
    (front ws : List WindowRec)
    → IsSorted ws
    → Meets front ws
    → sort_from front ws ≡ turned ws front
unfolding sort_from
sort_from-sorted front [] h m = refl
sort_from-sorted front (w ∷ ws) h m =
    let (later, step) = IsSorted-tail w ws h in
    rw (swap_down-last w front (Meets-head front w ws m))
      (sort_from-sorted (w ∷ front) ws later (Meets-last w front ws step))

-- A table that is sorted stays as it is.
pub sort_windows_by_id-sorted : (ws : List WindowRec) → IsSorted ws → sort_windows_by_id ws ≡ ws
unfolding sort_windows_by_id
sort_windows_by_id-sorted ws h =
    rw (sort_from-sorted [] ws h tt, turned-turned ws [] [], append-nil) refl

clamp_severity-again : (m : MarkerRec) → clamp_severity (clamp_severity m) ≡ clamp_severity m
unfolding clamp_severity
clamp_severity-again m = ground arith

fill_link-again :
    (ws : List WindowRec) (b : WaveRec) → fill_link ws (fill_link ws b) ≡ fill_link ws b
unfolding fill_link
fill_link-again [] b = refl
fill_link-again (w ∷ []) b = ground arith
fill_link-again (w ∷ v ∷ vs) b = refl

each-again :
    {A : Type 0} (f : A → A) (xs : List A)
    → ((x : A) → f (f x) ≡ f x)
    → each f (each f xs) ≡ each f xs
each-again f [] h = refl
each-again f (x ∷ xs) h = ap₂ ◌∷◌ (h x) (each-again f xs h)

All-clamp_severity :
    (ms : List MarkerRec) → All (λ (m : MarkerRec). m.severity ≤ 100) (each clamp_severity ms)
unfolding clamp_severity
All-clamp_severity [] = tt
All-clamp_severity (m ∷ ms) = (ground arith, All-clamp_severity ms)

normalize_parsed-again :
    (p : Parsed) → (normalize_parsed (normalize_parsed p).0).0 ≡ (normalize_parsed p).0
unfolding normalize_parsed
normalize_parsed-again p =
    let ws = sort_windows_by_id p.wind in
    let same = sort_windows_by_id-sorted ws (sort_windows_by_id-IsSorted p.wind) in
    let marks = each-again clamp_severity p.mark clamp_severity-again in
    let waves = each-again (fill_link ws) p.wave (fill_link-again ws) in
    rw (same, marks, waves) refl

-- `rv_normalize_parsed` sorts the windows by their ids and keeps each of them as often as it was
-- there, leaves no severity above 100, and leaves tables that it has been over as they are.
pub normalize_parsed_lem :
    (p : Parsed)
    → IsSorted (normalize_parsed p).0.wind
      × Perm (normalize_parsed p).0.wind p.wind
      × All (λ (m : MarkerRec). m.severity ≤ 100) (normalize_parsed p).0.mark
      × ((normalize_parsed (normalize_parsed p).0).0 ≡ (normalize_parsed p).0)
unfolding normalize_parsed
normalize_parsed_lem p = (
  sort_windows_by_id-IsSorted p.wind,
  sort_windows_by_id-perm p.wind,
  All-clamp_severity p.mark,
  normalize_parsed-again p,
)
