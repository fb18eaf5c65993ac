-- ===== src/Reader/Lookup.antt =====
-- `rv_reader_find_section` as a selection by tag.
use ray_vault.Base.{
  ℕ, suc, ◌+◌, ◌-◌, ◌≤◌, ◌≡◌, refl, ◌==◌, if◌then◌else◌, List, [], ◌∷◌, get_elem?, arith,
  Bool-cases, inl, inr, ==→eq, ==→ne,
}
use ray_vault.Format.{DirEntry}
use ray_vault.Reader.{Reader, find_entry, find_section}

-- The entries of a tag, in order.
pub with_tag : ℕ → List DirEntry → List DirEntry
with_tag tag [] = []
with_tag tag (e ∷ es) = if e.tag == tag then e ∷ with_tag tag es else with_tag tag es

find_entry-with_tag :
    (tag nth seen : ℕ) (es : List DirEntry)
    → seen ≤ nth
    → find_entry tag nth seen es ≡ get_elem? (with_tag tag es) (nth - seen)
unfolding find_entry with_tag
find_entry-with_tag tag nth seen [] h = refl
find_entry-with_tag tag nth seen (e ∷ es) h = elim (Bool-cases (e.tag == tag)) [
  | inr other ↦ rw other (find_entry-with_tag tag nth seen es h)
  | inl same ↦ elim (Bool-cases (seen == nth)) [
    | inl now ↦
        let last : nth - seen ≡ 0 = omega (arith, ==→eq seen nth now) in rw (same, now, last) refl
    | inr later ↦
        let more : nth - seen ≡ suc (nth - (seen + 1)) = omega (arith, ==→ne seen nth later) in
        rw (same, later, more)
          (find_entry-with_tag tag nth (seen + 1) es (omega (arith, ==→ne seen nth later)))
  ]
]

-- `rv_reader_find_section` gives the nth entry, counted from 0, of those that have the tag, and
-- fails where there are not so many.
pub find_section-with_tag :
    (r : Reader) (tag nth : ℕ) → find_section r tag nth ≡ get_elem? (with_tag tag r.dir) nth
unfolding find_section
find_section-with_tag r tag nth =
    let all : nth - 0 ≡ nth = omega arith in
    rw all at (find_entry-with_tag tag nth 0 r.dir (omega arith))
