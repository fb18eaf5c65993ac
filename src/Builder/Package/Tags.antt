-- ===== src/Builder/Package/Tags.antt =====
-- The sections of `rv_builder_serialize`: their number and their tags.
use ray_vault.Base.{
  ℕ, ◌≤◌, ◌≡◌, sym, subst, Bool, true, false, Option, some, List, [], ◌∷◌, ◌++◌, length,
  length-append, arith, All, ◌>>=◌, IsU32,
}
use ray_vault.Buf
use ray_vault.Buf.{Buf}
use ray_vault.Builder.{Builder}
use ray_vault.Builder.Emit.{append_note, append_summ}
use ray_vault.Builder.Package.{granted, Sec, sections, push_sec, new_sec, push_if}
use ray_vault.Builder.Package.Layout.{bind_some}

pub tags_append :
    (xs ys : List Sec)
    → All (λ (s : Sec). IsU32 s.tag) xs
    → All (λ (s : Sec). IsU32 s.tag) ys
    → All (λ (s : Sec). IsU32 s.tag) (xs ++ ys)
tags_append [] ys h k = k
tags_append (x ∷ xs) ys h k = (h.0, tags_append xs ys h.1 k)

-- The sections have 32-bit tags, and they are few.
abbrev pub Tagged : List Sec → Type 0
Tagged ss = All (λ (s : Sec). IsU32 s.tag) ss × (length ss ≤ 10)

abbrev pub Gives : (List Sec → Type 0) → Option (List Sec) → Type 0
Gives P o = (ss : List Sec) → o ≡ some ss → P ss

module _ (grants : ℕ → Bool) where
  new_sec_tag :
      (cap tag : ℕ) (fn : Buf → Bool × Buf) (s : Sec)
      → new_sec grants cap tag fn ≡ some s
      → s.tag ≡ tag
  unfolding new_sec
  new_sec_tag cap tag fn s e =
      let (b₀, i₀, e₁) = bind_some (granted (Buf.init grants cap)) _ s e in
      let (b₁, i₁, e₂) = bind_some (granted (fn b₀)) _ s e₁ in ground (arith, e₂)

  pub with_sec :
      (P : List Sec → Type 0) (cap tag : ℕ) (fn : Buf → Bool × Buf) (k : Sec → Option (List Sec))
      → IsU32 tag
      → ((s : Sec) → IsU32 s.tag → Gives P (k s))
      → Gives P (new_sec grants cap tag fn >>= k)
  with_sec P cap tag fn k word h ss e =
      let (s, i, e₁) = bind_some (new_sec grants cap tag fn) k ss e in
      h s (subst IsU32 (sym (new_sec_tag cap tag fn s i)) word) ss e₁

  push_if_tag :
      (wanted : Bool) (tag : ℕ) (fn : Buf → Bool × Buf) (ss : List Sec)
      → IsU32 tag
      → push_if grants wanted tag fn ≡ some ss
      → All (λ (s : Sec). IsU32 s.tag) ss × (length ss ≤ 1)
  push_if_tag false tag fn ss word e = ground (arith, e)
  push_if_tag true tag fn ss word e =
      let (s, i, e₁) = bind_some (push_sec grants tag fn) _ ss e in
      let t = new_sec_tag 128 tag fn s i in ground (arith, e₁, t, word)

  pub sections-Tagged : (b : Builder) → Gives Tagged (sections grants b)
  unfolding sections
  sections-Tagged b = with_sec Tagged _ _ _ _ (omega arith) λ s₀ t₀.
      with_sec Tagged _ _ _ _ (omega arith) λ s₁ t₁. with_sec Tagged _ _ _ _ (omega arith) λ s₂ t₂.
        with_sec Tagged _ _ _ _ (omega arith) λ s₃ t₃.
          with_sec Tagged _ _ _ _ (omega arith) λ s₄ t₄.
            with_sec Tagged _ _ _ _ (omega arith) λ s₅ t₅.
              with_sec Tagged _ _ _ _ (omega arith) λ s₆ t₆.
                with_sec Tagged _ _ _ _ (omega arith) λ s₇ t₇. λ ss e.
                  let (note, i, e₁) =
                    bind_some (push_if grants b.include_notes 0x45544f4e (append_note grants b)) _
                      ss e in
                  let (summ, j, e₂) =
                    bind_some (push_if grants b.include_summ 0x4d4d5553 (append_summ grants b)) _ ss
                      e₁ in
                  let n = push_if_tag _ _ _ note (omega arith) i in
                  let m = push_if_tag _ _ _ summ (omega arith) j in
                  let same : s₀ ∷ s₁ ∷ s₂ ∷ s₃ ∷ s₄ ∷ s₅ ∷ s₆ ∷ s₇ ∷ (note ++ summ) ≡ ss = cc in
                  subst Tagged same (
                    (t₀, (t₁, (t₂, (t₃, (t₄, (t₅, (t₆, (t₇, tags_append note summ n.0 m.0)))))))),
                    omega (arith, n.1, m.1, length-append note summ),
                  )
