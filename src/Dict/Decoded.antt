-- ===== src/Dict/Decoded.antt =====
-- The dictionary of a decoded SNAM.
use ray_vault.Base.{
  ℕ, zero, suc, ◌+◌, ◌*◌, ◌≤◌, ◌≡◌, not, ◌==◌, ltb, ltb→le, if◌then◌else◌, refl, ap, ◌∙◌, sym,
  subst, List, [], All, length, drop, Option, u32, arith,
}
use ray_vault.Arena.{Arena, Heap}
use ray_vault.Endian.{read_le32}
use ray_vault.Decoding.{
  Decoder, ok, ◌>>=◌, done, fail_if, load, touch, current, new_items, Gives, done-Gives, any-Gives,
  >>=-Gives, fail_if-Gives, weaken-Gives,
}
use ray_vault.Section.Blobs.{
  NameEntry, SnamTable, read_names, read_lp_string, new_string, skip_odd, bucket_count, snam_of,
  decode_names, decode_snam,
}
use ray_vault.Dict.{by_str}
use ray_vault.Dict.Lookup.{Hashed, find_str, answer, by_str-find_str}

-- The steps of the decoders whose values are not looked at.
module _ {A B : Type 0} (Q : B → Type 0) (m : Decoder A) (f : A → Decoder B) where
  after : ((x : A) → Gives Q (f x)) → Gives Q (m >>= f)
  after h = >>=-Gives (λ x. Unit) Q m f (any-Gives m) (λ x u. h x)

abbrev Names : ℕ → List NameEntry → Type 0
Names n es = All Hashed es × (length es ≡ n)

read_names-Names :
    (h : Heap) (ents : Option ℕ) (n : ℕ) (p : List ℕ) → Gives (Names n) (read_names h ents n p)
unfolding read_names
read_names-Names h ents zero p = done-Gives (Names zero) [] (tt, refl)
read_names-Names h ents (suc n) p = after (Names (suc n)) (fail_if (ltb (length p) 4)) _ λ u.
    after (Names (suc n)) (load (read_le32 p)) _ λ id. after (Names (suc n)) (touch ents) _ λ u.
      after (Names (suc n)) (read_lp_string (drop 4 p)) _ λ parts.
        after (Names (suc n)) (new_string h (length parts.0)) _ λ u.
          after (Names (suc n)) (touch ents) _ λ u.
            after (Names (suc n)) (skip_odd (2 + length parts.0) parts.1) _ λ rest.
              >>=-Gives (Names n) (Names (suc n)) (read_names h ents n rest) _
                (read_names-Names h ents n rest)
                λ more ok. done-Gives (Names (suc n)) _ ((refl, ok.0), ap suc ok.1)

-- The table that the decoder builds from hashed names, few enough for its limit.
abbrev Table : ℕ → SnamTable → Type 0
Table n t =
    (es : List NameEntry) × (block : Option ℕ) × Names n es
    × (t ≡ snam_of es (bucket_count 33 (u32 (n * 2 + 8)) 1) block)

decode_names-Table :
    (h : Heap) (count : ℕ) (p : List ℕ) (ents : Option ℕ)
    → Gives (Table count) (decode_names h count p ents)
unfolding decode_names
decode_names-Table h count p ents =
    let buckets = bucket_count 33 (u32 (count * 2 + 8)) 1 in
    >>=-Gives (Names count) (Table count) (read_names h ents count p) _
      (read_names-Names h ents count p)
      λ es ok. after (Table count) (new_items h buckets 4 4) _ λ u.
        after (Table count) (if count == 0 then done tt else touch ents) _ λ u.
          after (Table count) current (λ block. done (snam_of es buckets block))
            λ block. done-Gives (Table count) (snam_of es buckets block) (es, block, ok, refl)

abbrev FewNames : SnamTable → Type 0
FewNames t = (n : ℕ) × (n ≤ 100000) × Table n t

decode_snam-FewNames : (h : Heap) (payload : List ℕ) → Gives FewNames (decode_snam h payload)
unfolding decode_snam
decode_snam-FewNames h payload = after FewNames (fail_if (ltb (length payload) 8)) _ λ u.
    after FewNames (load (read_le32 payload)) _ λ m.
      after FewNames (fail_if (not (m == 0x314d414e))) _ λ u.
        after FewNames (load (read_le32 (drop 4 payload))) _ λ count.
          fail_if-Gives FewNames (ltb 100000 count) _ λ few.
            after FewNames (new_items h count 24 8) _ λ u.
              after FewNames current (decode_names h count (drop 8 payload)) λ ents.
                weaken-Gives (Table count) FewNames _
                  (decode_names-Table h count (drop 8 payload) ents)
                  λ t ok. (count, ltb→le 100000 count few, ok)

-- In a SNAM section that is decoded, whatever its payload, a search for a string by its hash finds the
-- first name with these bytes, and it finds none where no name has them.
pub by_str-decode_snam :
    (h : Heap) (payload : List ℕ) (a a' : Arena) (t : SnamTable) (s : List ℕ)
    → decode_snam h payload a ≡ (ok t, a')
    → by_str t s ≡ answer (find_str s t.entries)
unfolding snam_of
by_str-decode_snam h payload a a' t s decoded =
    let (n, few, (es, block, (hashed, size), same)) =
      (decode_snam-FewNames h payload).given a t a' decoded in
    let built : t ≡ snam_of es (bucket_count 33 (u32 (length es * 2 + 8)) 1) block =
      same ∙ ap (λ i. snam_of es (bucket_count 33 (u32 (i * 2 + 8)) 1) block) (sym size) in
    subst (λ u. by_str u s ≡ answer (find_str s u.entries)) (sym built)
      (by_str-find_str es block s hashed (omega (arith, size, few)))
