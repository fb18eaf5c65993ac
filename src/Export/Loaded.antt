-- ===== src/Export/Loaded.antt =====
-- An exported package, under `rv_reader_load_directory`.
use ray_vault.Base.{
  ℕ, ◌^◌, ◌<◌, ◌≡◌, refl, subst, Bool, ◌++◌, [], ◌∷◌, Option, some, Option-cases, inl, inr, List,
  length, length-append, arith, IsU32, All, ◌&&◌, not, Bool-cases,
}
use ray_vault.Buf.{Buf}
use ray_vault.Decoding.{ok}
use ray_vault.Parser.{Parsed}
use ray_vault.Builder.Package.{Sec, assemble}
use ray_vault.Builder.Package.Layout.{bind_some}
use ray_vault.Builder.Package.Tags.{Tagged, Gives, with_sec, tags_append}
use ray_vault.Builder.Package.Loaded.{LoadedAs, load_directory-assemble}
use ray_vault.Export.{
  DerivedSummary, export_sections, table_sections, export_stamps, export_build, export_summ,
  export_counts, labels_reachable,
}

-- The sections of the tables have 32-bit tags.
abbrev IsTables : List Sec → Type 0
IsTables ss = All (λ (s : Sec). IsU32 s.tag) ss × (length ss ≡ 8)

module _ (grants : ℕ → Bool) where
  table_sections-IsTables :
      (p : Parsed) (flags : ℕ) → Gives IsTables (table_sections grants p flags)
  unfolding table_sections
  table_sections-IsTables p flags = with_sec grants IsTables _ _ _ _ (omega arith) λ s₀ t₀.
      with_sec grants IsTables _ _ _ _ (omega arith) λ s₁ t₁.
        with_sec grants IsTables _ _ _ _ (omega arith) λ s₂ t₂.
          with_sec grants IsTables _ _ _ _ (omega arith) λ s₃ t₃.
            with_sec grants IsTables _ _ _ _ (omega arith) λ s₄ t₄.
              with_sec grants IsTables _ _ _ _ (omega arith) λ s₅ t₅.
                with_sec grants IsTables _ _ _ _ (omega arith) λ s₆ t₆.
                  with_sec grants IsTables _ _ _ _ (omega arith) λ s₇ t₇. λ ss e.
                    let same : s₀ ∷ s₁ ∷ s₂ ∷ s₃ ∷ s₄ ∷ s₅ ∷ s₆ ∷ s₇ ∷ [] ≡ ss = cc in
                    subst IsTables same ((t₀, (t₁, (t₂, (t₃, (t₄, (t₅, (t₆, (t₇, tt)))))))), refl)

  export_sections-Tagged :
      (p : Parsed) (ds : DerivedSummary) (flags : ℕ)
      → Gives Tagged (export_sections grants p ds flags)
  unfolding export_sections
  export_sections-Tagged p ds flags ss e =
      let (tables, i, e₁) = bind_some (table_sections grants p flags) _ ss e in
      let (tags, eight) = table_sections-IsTables p flags tables i in
      with_sec grants Tagged 64 0x4d4d5553 (export_summ grants (export_counts ds p)) _ (omega arith)
        (λ s t zs e₂.
          let same : tables ++ s ∷ [] ≡ zs = cc in
          subst Tagged same (
            tags_append tables (s ∷ []) tags (t, tt),
            omega (arith, eight, length-append tables (s ∷ [])),
          ))
        ss e₁

  assembled-some :
      (p : Parsed) (ds : DerivedSummary) (base : Option ℕ) (flags : ℕ) (out : Buf)
      → export_build grants p ds base flags ≡ ok out
      → assemble grants (export_stamps p) (export_sections grants p ds flags) ≡ some out
  unfolding export_build
  assembled-some p ds base flags out e = elim (Option-cases (table_sections grants p flags)) [
    | inl fails ↦ ground (arith, fails, e)
    | inr (ts, done) ↦
        elim (Bool-cases (grants 256 && grants 64 && not (labels_reachable ds base))) [
          | inl bad ↦ ground (arith, done, bad, e)
          | inr fine ↦
              elim (Option-cases
                (assemble grants (export_stamps p) (export_sections grants p ds flags))) [
                  | inl fails ↦ ground (arith, done, fine, fails, e)
                  | inr (o, made) ↦ ground (arith, done, fine, made, e)
                ]
        ]
  ]

  -- The reader loads the directory of an exported package, where the package has fewer than 2^32 bytes
  -- and the feature bits are 32 bits: its header has version 2.3 and these feature bits, the directory
  -- has one entry for each section of the tables and one for SUMM, in their order, and each entry has
  -- the tag and the checksum of its section and leads to the slice that is its payload.
  pub load_directory-export_build :
      (p : Parsed) (ds : DerivedSummary) (base : Option ℕ) (flags : ℕ) (out : Buf)
      → export_build grants p ds base flags ≡ ok out
      → length out.data_bytes < 2 ^ 32
      → IsU32 p.feature_bits
      → (secs : List Sec) × (export_sections grants p ds flags ≡ some secs)
        × LoadedAs out.data_bytes (export_stamps p) secs
  unfolding export_stamps
  load_directory-export_build p ds base flags out e small word =
      load_directory-assemble grants (export_stamps p) (export_sections grants p ds flags) out
        (assembled-some p ds base flags out e) small
        (record {
          old = omega arith;
          new = omega arith;
          minor_word = omega arith;
          created_word = omega arith;
          features_word = word;
        })
        (export_sections-Tagged p ds flags)
