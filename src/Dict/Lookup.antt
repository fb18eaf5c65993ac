-- ===== src/Dict/Lookup.antt =====
-- The search of the buckets against a search of the names in their order.
use ray_vault.Base.{
  ℕ, zero, suc, ◌+◌, ◌-◌, ◌*◌, ◌^◌, ◌≤◌, ◌<◌, ◌≡◌, inl, inr, refl, ◌∙◌, ap, ap₂, subst, true, false,
  ◌==◌, ltb, if◌then◌else◌, Bool-cases, Option-cases, ==→eq, ==→ne, ltb→lt, ltb→le, Option, none,
  some, List, [], ◌∷◌, All, length, replicate, get_elem?, bit_and, u32, arith,
}
use native.Mathlib.Nat.{pow-suc, pow-le-pow_right}
use ray_vault.Crc.{hash32}
use ray_vault.Builder.Names.{same_bytes}
use ray_vault.Section.Blobs.{NameEntry, SnamTable, cell, bucket_count, fill_buckets, snam_of}
use ray_vault.Dict.{Search, found, missing, is_name, probe, by_str}
use ray_vault.Dict.Probes.{wrap, wrap-lt, wrap-suc, next_slot, home_slot}
use ray_vault.Dict.Filled.{IsFilled, Placed, fill_buckets-IsFilled, empty-IsFilled}

-- The first name with the bytes `s`.
abbrev pub find_str : List ℕ → List NameEntry → Option NameEntry
find_str s [] = none
find_str s (e ∷ es) = if same_bytes e.str s then some e else find_str s es

abbrev pub answer : Option NameEntry → Search
answer none = missing
answer (some e) = found e

-- Each entry has the hash of its string.
abbrev pub Hashed : NameEntry → Type 0
Hashed e = e.hash ≡ hash32 e.str

same_bytes-eq : (xs ys : List ℕ) → same_bytes xs ys ≡ true → xs ≡ ys
unfolding same_bytes
same_bytes-eq [] [] h = refl
same_bytes-eq [] (y ∷ ys) h = cc
same_bytes-eq (x ∷ xs) [] h = cc
same_bytes-eq (x ∷ xs) (y ∷ ys) h =
    ap₂ (λ b bs. b ∷ bs) (==→eq x y (ground arith)) (same_bytes-eq xs ys (ground arith))

same_bytes-is_name :
    (s : List ℕ) (e : NameEntry) → Hashed e → is_name (hash32 s) s e ≡ same_bytes e.str s
same_bytes-is_name s e hashed = elim (Bool-cases (same_bytes e.str s)) [
  | inl same ↦
      let eq : e.hash ≡ hash32 s = hashed ∙ ap hash32 (same_bytes-eq e.str s same) in
      ground (arith, same, eq)
  | inr other ↦ ground (arith, other)
]

-- No entry before position j is the name.
abbrev NoneBefore : List NameEntry → List ℕ → ℕ → Type 0
NoneBefore es s j =
    (i : ℕ) (f : NameEntry) → i < j → get_elem? es i ≡ some f → same_bytes f.str s ≡ false

unlike :
    (es : List NameEntry) (x : NameEntry) (s : List ℕ) (j : ℕ)
    → NoneBefore es s j
    → same_bytes x.str s ≡ false
    → NoneBefore (x ∷ es) s (suc j)
unlike es x s j before there zero f l g =
    let same : x ≡ f = cc in subst (λ (y : NameEntry). same_bytes y.str s ≡ false) same there
unlike es x s j before there (suc i) f l g = before i f (omega arith) g

find_str-none :
    (s : List ℕ) (es : List NameEntry) → find_str s es ≡ none → (j : ℕ) → NoneBefore es s j
find_str-none s [] e j i f l h = cc
find_str-none s (x ∷ es) e j i f l h = elim (Bool-cases (same_bytes x.str s)) [
  | inl here ↦ ground (arith, here, e)
  | inr there ↦
      unlike es x s (suc i) (find_str-none s es (ground (arith, there, e)) (suc i)) there i f
        (omega arith) h
]

find_str-some :
    (s : List ℕ) (es : List NameEntry) (e : NameEntry)
    → find_str s es ≡ some e
    → (j : ℕ) × (get_elem? es j ≡ some e) × (same_bytes e.str s ≡ true) × NoneBefore es s j
find_str-some s [] e h = cc
find_str-some s (x ∷ es) e h = elim (Bool-cases (same_bytes x.str s)) [
  | inl here ↦ (0, ground (arith, here, h), ground (arith, here, h), λ i f l. absurd (omega arith))
  | inr there ↦
      let (j, at, same, before) = find_str-some s es e (ground (arith, there, h)) in
      (suc j, at, same, λ i f l g. unlike es x s j before there i f l g)
]

get_elem?-some :
    (es : List NameEntry) (i : ℕ) → i < length es → (e : NameEntry) × (get_elem? es i ≡ some e)
get_elem?-some [] i l = absurd (omega arith)
get_elem?-some (e ∷ es) zero l = (e, refl)
get_elem?-some (e ∷ es) (suc i) l = get_elem?-some es i (omega arith)

get_elem?-All :
    (P : NameEntry → Type 0) (es : List NameEntry) (i : ℕ) (e : NameEntry)
    → All P es
    → get_elem? es i ≡ some e
    → P e
get_elem?-All P [] i e h at = cc
get_elem?-All P (x ∷ es) zero e h at = let same : x ≡ e = cc in subst P same h.0
get_elem?-All P (x ∷ es) (suc i) e h at = get_elem?-All P es i e h.1 at

module _ (m k : ℕ) (power : m ≡ 2 ^ k) (small : m < 2 ^ 32) (es : List NameEntry) (bucket : List ℕ)
    (block : Option ℕ) (s : List ℕ) (filled : IsFilled m es bucket) (hashed : All Hashed es) where
  abbrev table : SnamTable
  table = record { entries = es; bucket = bucket; bucket_mask = m - 1; block = block }

  -- The entry that a cell in use names.
  named :
      (x : ℕ) → 0 < cell bucket x → (e : NameEntry) × (get_elem? es (cell bucket x - 1) ≡ some e)
  named x used = get_elem?-some es (cell bucket x - 1) (omega (arith, used, filled.below x))

  unnamed :
      (i : ℕ) (f : NameEntry)
      → get_elem? es i ≡ some f
      → same_bytes f.str s ≡ false
      → is_name (hash32 s) s f ≡ false
  unnamed i f at other = same_bytes-is_name s f (get_elem?-All Hashed es i f hashed at) ∙ other

  probe-missing :
      ((j : ℕ) → NoneBefore es s j) → (left slot : ℕ) → probe left table (hash32 s) s slot ≡ missing
  unfolding probe
  probe-missing none_is zero slot = refl
  probe-missing none_is (suc left) slot = elim (Bool-cases (cell bucket slot == 0)) [
    | inl free ↦ rw (probe, free) refl
    | inr used ↦
        let (f, at) = named slot (ground (arith, used)) in
        let other =
          unnamed (cell bucket slot - 1) f at
            (none_is (cell bucket slot) (cell bucket slot - 1) f (ground (arith, used)) at) in
        rw (probe, used, at, other) (probe-missing none_is left (bit_and (u32 (slot + 1)) (m - 1)))
  ]

  module _ (j : ℕ) (e : NameEntry) (same : is_name (hash32 s) s e ≡ true)
      (at : get_elem? es j ≡ some e) (before : NoneBefore es s j) where
    probe-found :
        (home d : ℕ)
        → home < m
        → d < m
        → cell bucket (wrap m (home + d)) ≡ suc j
        → ((c : ℕ)
            → c < d
            → (0 < cell bucket (wrap m (home + c))) × (cell bucket (wrap m (home + c)) ≤ j))
        → (left c : ℕ) → c ≤ d
        → c + left ≡ m
        → probe left table (hash32 s) s (wrap m (home + c)) ≡ found e
    unfolding probe
    probe-found home d near l here path zero c le sum = absurd (omega arith)
    probe-found home d near l here path (suc left) c le sum = elim (Bool-cases (c == d)) [
      | inl now ↦
          let there : cell bucket (wrap m (home + c)) ≡ suc j =
            ap (λ x. cell bucket (wrap m (home + x))) (==→eq c d now) ∙ here in
          let at' : get_elem? es (cell bucket (wrap m (home + c)) - 1) ≡ some e =
            ap (λ x. get_elem? es (x - 1)) there ∙ ap (get_elem? es) (omega arith) ∙ at in
          let taken : (cell bucket (wrap m (home + c)) == 0) ≡ false = ground (arith, there) in
          rw (probe, taken, at', same) refl
      | inr later ↦
          let slot = wrap m (home + c) in
          let (used, less) = path c (omega (arith, le, ==→ne c d later)) in
          let (f, at) = named slot used in
          let other =
            unnamed (cell bucket slot - 1) f at
              (before (cell bucket slot - 1) f (omega (arith, used, less)) at) in
          let taken : (cell bucket slot == 0) ≡ false = ground (arith, used) in
          let on =
            next_slot m k power small slot (wrap-lt m home c near (omega (arith, sum)))
            ∙ wrap-suc m home c near (omega (arith, sum)) in
          rw (probe, taken, at, other, on)
            (probe-found home d near l here path left (suc c) (omega (arith, le, ==→ne c d later))
              (omega (arith, sum)))
    ]

  by_str-table : 0 < m → by_str table s ≡ answer (find_str s es)
  unfolding by_str
  by_str-table positive = elim (Option-cases (find_str s es)) [
    | inl none_is ↦
        rw none_is
          (probe-missing (find_str-none s es none_is) (m - 1 + 1) (bit_and (hash32 s) (m - 1)))
    | inr (e, some_is) ↦
        let (j, at, same, before) = find_str-some s es e some_is in
        let is = same_bytes-is_name s e (get_elem?-All Hashed es j e hashed at) ∙ same in
        let home = bit_and (hash32 s) (m - 1) in
        let home_is : bit_and e.hash (m - 1) ≡ home =
          ap (λ x. bit_and x (m - 1))
            (get_elem?-All Hashed es j e hashed at ∙ ap hash32 (same_bytes-eq e.str s same)) in
        let (d, l, here, path) = subst (λ h. Placed m bucket h j) home_is (filled.placed j e at) in
        let start : wrap m (home + 0) ≡ home =
          ground (arith, home_slot m k power small (hash32 s)) in
        let all : m - 1 + 1 ≡ m = omega (arith, positive) in
        rw (some_is, all)
          (subst (λ x. probe m table (hash32 s) s x ≡ found e) start
            (probe-found j e is at before home d (home_slot m k power small (hash32 s)) l here path
              m 0 (omega arith) (omega arith)))
  ]

-- A power of two below 2 ^ 31 has a smaller exponent.
below_31 : (j : ℕ) {need : ℕ} → j ≤ 31 → 2 ^ j < need → need ≤ 2 ^ 31 → suc j ≤ 31
below_31 j low less fits = elim (Bool-cases (j == 31)) [
  | inl last ↦
      let top : 2 ^ j ≡ 2 ^ 31 = ap (λ i. 2 ^ i) (==→eq j 31 last) in
      absurd (omega (arith, top, less, fits))
  | inr lower ↦ omega (arith, low, ==→ne j 31 lower)
]

-- The number of buckets is the least power of two that is large enough.
bucket_count-pow :
    (fuel j need : ℕ)
    → j ≤ 31
    → 32 ≤ j + fuel
    → need ≤ 2 ^ 31
    → (k : ℕ) × (k ≤ 31) × (bucket_count fuel need (2 ^ j) ≡ 2 ^ k) × (need ≤ 2 ^ k)
unfolding bucket_count
bucket_count-pow zero j need low high fits = absurd (omega arith)
bucket_count-pow (suc fuel) j need low high fits = elim (Bool-cases (ltb (2 ^ j) need)) [
  | inl short ↦
      let above : u32 (2 ^ j * 2) ≡ 2 ^ suc j =
        omega (arith, ltb→lt (2 ^ j) need short, fits, pow-suc 2 j) in
      rw (bucket_count, short, above)
        (bucket_count-pow fuel (suc j) need (below_31 j low (ltb→lt (2 ^ j) need short) fits)
          (omega arith) fits)
  | inr enough ↦ rw (bucket_count, enough) (j, low, refl, ltb→le (2 ^ j) need enough)
]

-- For at most 100000 names that carry the hashes of their strings, in the buckets that the decoder
-- fills, a search for a string by its hash finds the first name with these bytes, and it finds none
-- where no name has them.
pub by_str-find_str :
    (es : List NameEntry) (block : Option ℕ) (s : List ℕ)
    → All Hashed es
    → length es ≤ 100000
    → by_str (snam_of es (bucket_count 33 (u32 (length es * 2 + 8)) 1) block) s
      ≡ answer (find_str s es)
unfolding snam_of
by_str-find_str es block s hashed few =
    let need = u32 (length es * 2 + 8) in
    let (k, small, count, enough) =
      bucket_count-pow 33 0 need (omega arith) (omega arith) (omega (arith, few)) in
    let m = bucket_count 33 need 1 in
    let bound : 2 ^ k ≤ 2 ^ 31 = pow-le-pow_right (omega arith) small in
    let small : m < 2 ^ 32 = omega (arith, count, bound) in
    let room : length es < m = omega (arith, count, enough, few) in
    let filled =
      fill_buckets-IsFilled m k count small es [] 0 (replicate m 0) refl (empty-IsFilled m)
        (omega (arith, room)) in
    by_str-table m k count small es (fill_buckets m (m - 1) 0 es (replicate m 0)) block s filled
      hashed (omega (arith, room))
