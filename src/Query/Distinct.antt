-- ===== src/Query/Distinct.antt =====
-- The instruments of a route's windows, each once.
use ray_vault.Base.{
  ℕ, zero, suc, ◌+◌, ◌≤◌, ◌<◌, ◌≡◌, ◌≢◌, ◌⊎◌, inl, inr, refl, sym, true, false, not, ◌&&◌, ◌==◌,
  Bool-cases, none, some, List, [], ◌∷◌, ◌++◌, length, length-append, All, arith,
}
use ray_vault.Records.{WindowRec}
use ray_vault.Xref.{Index}
use ray_vault.Query.{seen_in, is_seen, put_id, instruments_from, instruments_on_route}

abbrev pub In : ℕ → List ℕ → Type 0
In x [] = ⊥
In x (y ∷ ys) = (y ≡ x) ⊎ In x ys

abbrev pub AllDistinct : List ℕ → Type 0
AllDistinct [] = Unit
AllDistinct (x ∷ xs) = (¬ In x xs) × AllDistinct xs

-- A window of the route; route 0 has all of them.
abbrev pub OnRoute : ℕ → WindowRec → Type 0
OnRoute route_id w = (route_id ≡ 0) ⊎ (w.route_id ≡ route_id)

-- A window of the route has the instrument.
abbrev pub Uses : ℕ → ℕ → List WindowRec → Type 0
Uses route_id inst [] = ⊥
Uses route_id inst (w ∷ ws) = (OnRoute route_id w × (w.inst_id ≡ inst)) ⊎ Uses route_id inst ws

-- The window is not of the route, or its instrument is listed.
abbrev pub Listed : ℕ → List ℕ → WindowRec → Type 0
Listed route_id ids w = (¬ OnRoute route_id w) ⊎ In w.inst_id ids

seen_in_lem :
    (x : ℕ) (out : List ℕ)
    → ((seen_in x (length out) out ≡ some true) × In x out)
      ⊎ ((seen_in x (length out) out ≡ some false) × (¬ In x out))
unfolding seen_in
seen_in_lem x [] = inr (refl, λ h. h)
seen_in_lem x (y ∷ ys) = elim (Bool-cases (y == x)) [
  | inl same ↦ inl (rw same refl, inl (ground (arith, same)))
  | inr other ↦ elim (seen_in_lem x ys) [
    | inl (found, h) ↦ inl (rw other found, inr h)
    | inr (absent, h) ↦
        inr (rw other absent, λ m. elim m [ inl e ↦ ground (arith, other, e) | inr m' ↦ h m' ])
  ]
]

In-append_left : (x : ℕ) (xs ys : List ℕ) → In x xs → In x (xs ++ ys)
In-append_left x [] ys m = elim m [ ]
In-append_left x (z ∷ zs) ys (inl e) = inl e
In-append_left x (z ∷ zs) ys (inr m) = inr (In-append_left x zs ys m)

In-append_last : (x : ℕ) (xs : List ℕ) → In x (xs ++ x ∷ [])
In-append_last x [] = inl refl
In-append_last x (z ∷ zs) = inr (In-append_last x zs)

not-In-append : (x y : ℕ) (xs : List ℕ) → (¬ In x xs) → x ≢ y → ¬ In x (xs ++ y ∷ [])
not-In-append x y [] h d m = elim m [ inl e ↦ d (sym e) | inr m' ↦ m' ]
not-In-append x y (z ∷ zs) h d m = elim m [
  | inl e ↦ h (inl e)
  | inr m' ↦ not-In-append x y zs (λ k. h (inr k)) d m'
]

AllDistinct-append :
    (x : ℕ) (xs : List ℕ) → (¬ In x xs) → AllDistinct xs → AllDistinct (xs ++ x ∷ [])
AllDistinct-append x [] h d = (λ m. m, tt)
AllDistinct-append x (z ∷ zs) h d =
    (not-In-append z x zs d.0 (λ e. h (inl e)), AllDistinct-append x zs (λ m. h (inr m)) d.1)

All-append_last : (Q : ℕ → Type 0) (x : ℕ) (xs : List ℕ) → Q x → All Q xs → All Q (xs ++ x ∷ [])
All-append_last Q x [] q h = (q, tt)
All-append_last Q x (z ∷ zs) q h = (h.0, All-append_last Q x zs q h.1)

-- The ids that the loop ends with: those that it began with, and one for each window of the route.
record Ends (Q : ℕ → Type 0) (route_id : ℕ) (ws : List WindowRec) (out ids : List ℕ) : Type 0 where
  distinct : AllDistinct ids
  sound : All Q ids
  keeps : (x : ℕ) → In x out → In x ids
  complete : All (Listed route_id ids) ws

module _ (Q : ℕ → Type 0) (route_id cap : ℕ) where
  here_Q :
      (w : WindowRec)
      → (not (route_id == 0) && not (w.route_id == route_id)) ≡ false
      → (¬ OnRoute route_id w) ⊎ Q w.inst_id
      → Q w.inst_id
  here_Q w on (inr q) = q
  here_Q w on (inl off) = elim (Bool-cases (route_id == 0)) [
    | inl any ↦ absurd (off (inl (ground (arith, any))))
    | inr given ↦ absurd (off (inr (ground (arith, on, given))))
  ]

  put_room :
      (inst : ℕ) (out : List ℕ)
      → length out < cap
      → put_id cap inst (length out) (some out) ≡ some (out ++ inst ∷ [])
  unfolding put_id
  put_room inst out room = ground arith

  instruments_from_lem :
      (ws : List WindowRec) (out : List ℕ)
      → length out + length ws ≤ cap
      → AllDistinct out
      → All Q out
      → All (λ (w : WindowRec). (¬ OnRoute route_id w) ⊎ Q w.inst_id) ws
      → (ids : List ℕ) × (instruments_from route_id cap ws (length out) (some out)
          ≡ some (some ids, length ids))
        × Ends Q route_id ws out ids
  unfolding instruments_from is_seen put_id
  instruments_from_lem [] out room d q ws_q =
      (out, refl, record { distinct = d; sound = q; keeps = λ x m. m; complete = tt })
  instruments_from_lem (w ∷ ws) out room d q ws_q =
      elim (Bool-cases (not (route_id == 0) && not (w.route_id == route_id))) [
        | inl off ↦
            let (ids, runs, e) = instruments_from_lem ws out (omega (arith, room)) d q ws_q.1 in
            (
              ids,
              rw off runs,
              record {
                distinct = e.distinct;
                sound = e.sound;
                keeps = e.keeps;
                complete = (
                  inl (λ s. elim s [
                    | inl z ↦ ground (arith, off, z)
                    | inr r ↦ ground (arith, off, r)
                  ]),
                  e.complete,
                );
              },
            )
        | inr on ↦ elim (seen_in_lem w.inst_id out) [
          | inl (found, m) ↦
              let (ids, runs, e) = instruments_from_lem ws out (omega (arith, room)) d q ws_q.1 in
              (
                ids,
                rw (on, found) runs,
                record {
                  distinct = e.distinct;
                  sound = e.sound;
                  keeps = e.keeps;
                  complete = (inr (e.keeps w.inst_id m), e.complete);
                },
              )
          | inr (absent, new) ↦
              let next = out ++ w.inst_id ∷ [] in
              let size : length next ≡ length out + 1 = length-append out (w.inst_id ∷ []) in
              let here : Q w.inst_id = here_Q w on ws_q.0 in
              let put : put_id cap w.inst_id (length out) (some out) ≡ some next =
                put_room w.inst_id out (omega (arith, room)) in
              let (ids, runs, e) =
                instruments_from_lem ws next (omega (arith, room, size))
                  (AllDistinct-append w.inst_id out new d) (All-append_last Q w.inst_id out here q)
                  ws_q.1 in
              (
                ids,
                rw (on, absent, put, ← size) runs,
                record {
                  distinct = e.distinct;
                  sound = e.sound;
                  keeps = λ x m. e.keeps x (In-append_left x out (w.inst_id ∷ []) m);
                  complete = (inr (e.keeps w.inst_id (In-append_last w.inst_id out)), e.complete);
                },
              )
        ]
      ]

OnRoute-cases : (route_id : ℕ) (w : WindowRec) → OnRoute route_id w ⊎ (¬ OnRoute route_id w)
OnRoute-cases route_id w = elim (Bool-cases (route_id == 0)) [
  | inl any ↦ inl (inl (ground (arith, any)))
  | inr given ↦ elim (Bool-cases (w.route_id == route_id)) [
    | inl same ↦ inl (inr (ground (arith, same)))
    | inr other ↦
        inr (λ s. elim s [ inl z ↦ ground (arith, given, z) | inr r ↦ ground (arith, other, r) ])
  ]
]

All-mono :
    {A : Type 0} (P Q : A → Type 0) (xs : List A) → ((x : A) → P x → Q x) → All P xs → All Q xs
All-mono P Q [] h a = tt
All-mono P Q (x ∷ xs) h a = (h x a.0, All-mono P Q xs h a.1)

-- Each window of the table that is on the route uses its instrument.
windows_Uses :
    (route_id : ℕ) (ws : List WindowRec)
    → All (λ (w : WindowRec). (¬ OnRoute route_id w) ⊎ Uses route_id w.inst_id ws) ws
windows_Uses route_id [] = tt
windows_Uses route_id (w ∷ ws) = (
  elim (OnRoute-cases route_id w) [ inl on ↦ inr (inl (on, refl)) | inr off ↦ inl off ],
  All-mono _ _ ws (λ v s. elim s [ inl off ↦ inl off | inr u ↦ inr (inr u) ])
      (windows_Uses route_id ws),
)

-- With room for as many ids as the index has windows, `rv_query_instruments_on_route` reads only what
-- it has written, and puts the instrument of each window of the route, and no other, once.
pub instruments_on_route_lem :
    (idx : Index) (route_id cap : ℕ)
    → length idx.windows ≤ cap
    → (ids : List ℕ) × (instruments_on_route idx route_id cap (some [])
        ≡ some (some ids, length ids))
      × AllDistinct ids
      × All (λ id. Uses route_id id idx.windows) ids
      × All (Listed route_id ids) idx.windows
unfolding instruments_on_route
instruments_on_route_lem idx route_id cap room =
    let (ids, runs, e) =
      instruments_from_lem (λ id. Uses route_id id idx.windows) route_id cap idx.windows []
        (omega (arith, room)) tt tt (windows_Uses route_id idx.windows) in
    (ids, runs, e.distinct, e.sound, e.complete)

past_end : (x : ℕ) (out : List ℕ) (n : ℕ) → length out < n → (¬ In x out) → seen_in x n out ≡ none
unfolding seen_in
past_end x [] zero h new = absurd (omega (arith, h))
past_end x [] (suc n) h new = refl
past_end x (y ∷ ys) zero h new = absurd (omega (arith, h))
past_end x (y ∷ ys) (suc n) h new = elim (Bool-cases (y == x)) [
  | inl same ↦ absurd (new (inl (ground (arith, same))))
  | inr other ↦ rw other (past_end x ys n (omega (arith, h)) (λ m. new (inr m)))
]

-- Once more instruments are counted than the array has room for, the next window of the route makes
-- the loop read past the array, unless its instrument is in it.
pub instruments_from-past :
    (route_id cap : ℕ) (w : WindowRec) (ws : List WindowRec) (n : ℕ) (out : List ℕ)
    → length out ≤ cap
    → cap < n
    → OnRoute route_id w
    → (¬ In w.inst_id out)
    → instruments_from route_id cap (w ∷ ws) n (some out) ≡ none
unfolding instruments_from is_seen
instruments_from-past route_id cap w ws n out fits more on new =
    let past = past_end w.inst_id out n (omega (arith, fits, more)) new in
    elim on [ inl any ↦ ground (arith, any, past) | inr same ↦ ground (arith, same, past) ]
