-- ===== src/Normalize/Repaired.antt =====
-- The tables after `rv_repair_package`.
use ray_vault.Base.{
  ℕ, ◌==◌, ◌≡◌, ◌⊎◌, inl, inr, refl, ◌∙◌, true, Bool-cases, List, [], ◌∷◌, All, arith,
}
use ray_vault.Records.{MarkerRec, LinkRec}
use ray_vault.Reader.{Reader}
use ray_vault.Parser.{Parsed}
use ray_vault.Validate.{summ_counts}
use ray_vault.Normalize.{
  each, clamp_severity, normalize_parsed, has_marker, keep_link, compact_links, drop_links,
  summarize, repair_options, repair_package,
}

-- A marker with the id is in the table.
abbrev pub Has : ℕ → List MarkerRec → Type 0
Has id [] = ⊥
Has id (m ∷ ms) = (m.marker_id ≡ id) ⊎ Has id ms

-- A link from a marker (kind 3) starts at a marker of the table.
abbrev pub Linked : List MarkerRec → LinkRec → Type 0
Linked marks l = l.from_kind ≡ 3 → Has l.from_id marks

has_marker-Has : (id : ℕ) (ms : List MarkerRec) → has_marker id ms ≡ true → Has id ms
unfolding has_marker
has_marker-Has id [] e = cc
has_marker-Has id (m ∷ ms) e = elim (Bool-cases (m.marker_id == id)) [
  | inl same ↦ inl (ground (arith, same))
  | inr other ↦ inr (has_marker-Has id ms (ground (arith, other, e)))
]

keep_link-Linked :
    (marks : List MarkerRec) (l : LinkRec) → keep_link marks l ≡ true → Linked marks l
unfolding keep_link
keep_link-Linked marks l e three = has_marker-Has l.from_id marks (ground (arith, e, three))

All-compact_links :
    (marks : List MarkerRec) (ls : List LinkRec) → All (Linked marks) (compact_links marks ls)
unfolding compact_links
All-compact_links marks [] = tt
All-compact_links marks (l ∷ ls) = elim (Bool-cases (keep_link marks l)) [
  | inl kept ↦ rw kept (keep_link-Linked marks l kept, All-compact_links marks ls)
  | inr dropped ↦ rw dropped (All-compact_links marks ls)
]

compact_links-again :
    (marks : List MarkerRec) (ls : List LinkRec)
    → compact_links marks (compact_links marks ls) ≡ compact_links marks ls
unfolding compact_links
compact_links-again marks [] = refl
compact_links-again marks (l ∷ ls) = elim (Bool-cases (keep_link marks l)) [
  | inl kept ↦ rw (kept, kept, compact_links-again marks ls) refl
  | inr dropped ↦ rw dropped (compact_links-again marks ls)
]

has_marker-each :
    (id : ℕ) (ms : List MarkerRec) → has_marker id (each clamp_severity ms) ≡ has_marker id ms
unfolding has_marker clamp_severity
has_marker-each id [] = refl
has_marker-each id (m ∷ ms) = ground (arith, has_marker-each id ms)

compact_links-each :
    (ms : List MarkerRec) (ls : List LinkRec)
    → compact_links (each clamp_severity ms) ls ≡ compact_links ms ls
unfolding compact_links keep_link
compact_links-each ms [] = refl
compact_links-each ms (l ∷ ls) =
    ground (arith, has_marker-each l.from_id ms, compact_links-each ms ls)

summ_counts-summarize : (r : Reader) (p : Parsed) → summ_counts (summarize r p) ≡ true
unfolding summ_counts summarize
summ_counts-summarize r p = ground arith

-- With the default options, `rv_repair_package` leaves no link from a marker that is not in the table,
-- changes no link when it is run again, and leaves a summary that the validation's check of the
-- counts accepts.
pub repair_package_lem :
    (r : Reader) (p : Parsed)
    → All (Linked (repair_package r repair_options p).mark) (repair_package r repair_options p).link
      × ((repair_package r repair_options (repair_package r repair_options p)).link
          ≡ (repair_package r repair_options p).link)
      × (summ_counts (repair_package r repair_options p) ≡ true)
unfolding repair_package drop_links summarize normalize_parsed
repair_package_lem r p =
    let marks = each clamp_severity p.mark in
    (
      All-compact_links marks p.link,
      compact_links-each marks (compact_links marks p.link) ∙ compact_links-again marks p.link,
      summ_counts-summarize r (drop_links (normalize_parsed p).0),
    )
