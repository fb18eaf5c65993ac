-- ===== src/Merge/Names.antt =====
-- The names that the rows of a merge refer to.
use ray_vault.Base.{ℕ, Bool, true, false, ◌==◌, ◌≡◌, ◌≢◌, some, none, Option, take, arith, refl}
use ray_vault.Section.Blobs.{NameEntry, SnamTable}
use ray_vault.Dict.{by_id}
use ray_vault.Builder.{Builder}
use ray_vault.Builder.Names.{add_name, find_name}
use ray_vault.Builder.Names.Ids.{add_name-found}
use ray_vault.Merge.{Merge, c_string, mapped, map_name}
use ray_vault.Merge.Granted.{add_name-some}

module _ (id : ℕ) (m : Merge) where
  mapped_id : (nid : ℕ) (o : Option ℕ × Builder) → o.0 ≡ some nid → (mapped id m o).0 ≡ nid
  mapped_id nid (none, b) e = absurd (ground (arith, e))
  mapped_id nid (some n, b) e = ground (arith, e)

  mapped_builder : (o : Option ℕ × Builder) → (mapped id m o).1.out ≡ o.1
  mapped_builder (none, b) = refl
  mapped_builder (some n, b) = refl

-- Where no allocation is refused, the id that `rv_merge_map_name` gives for a reference to a name of
-- its package is the one under which the builder then has this name: the bytes before the first 0, 127
-- of them at most.
pub map_name-found :
    (grants : ℕ → Bool) (snam : SnamTable) (id : ℕ) (m : Merge) (e : NameEntry)
    → ((n : ℕ) → grants n ≡ true)
    → id ≢ 0
    → by_id snam id ≡ some e
    → find_name (map_name grants snam id m).1.out.names.items (take 127 (c_string e.str))
      ≡ some (map_name grants snam id m).0
unfolding map_name
map_name-found grants snam id m e granted given known =
    let o = add_name grants m.out (c_string e.str) in
    let (nid, taken) = add_name-some grants granted m.out (c_string e.str) in
    let is_given : (id == 0) ≡ false = ground (arith, given) in
    rw (map_name, is_given, known, mapped_id id m nid o taken, mapped_builder id m o)
      (add_name-found grants m.out (c_string e.str) nid taken)
