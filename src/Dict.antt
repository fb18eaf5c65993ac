-- ===== src/Dict.antt =====
-- src/internal/rv_dict.c: the names of a decoded SNAM, by id and by string.
-- The table is the decoded one; that its block is still the arena's is a precondition of the code's
-- callers. Pointers are not NULL; `out` and `bad_id` are results.
mod Examples
pub mod Ids
pub mod Probes
pub mod Filled
pub mod Lookup
pub mod Decoded
pub mod Checks
use ray_vault.Base.{
  ℕ, zero, suc, ◌+◌, ◌-◌, Bool, true, false, ◌&&◌, ◌==◌, if◌then◌else◌, Option, none, some, List,
  [], ◌∷◌, length, get_elem?, bit_and, u32,
}
use ray_vault.Crc.{hash32}
use ray_vault.Records.{RouteRec, InstRec, MarkerRec}
use ray_vault.Section.Blobs.{NameEntry, SnamTable, cell}
use ray_vault.Builder.Names.{same_bytes}

-- The loop of `rv_dict_by_id`.
unfoldable pub find_id : ℕ → List NameEntry → Option NameEntry
find_id id [] = none
find_id id (e ∷ es) = let rest = find_id id es in if e.id == id then some e else rest

unfoldable pub by_id : SnamTable → ℕ → Option NameEntry
by_id t id = find_id id t.entries

-- `e->hash == h && e->len == n && memcmp(e->str, s, n) == 0`.
abbrev pub is_name : ℕ → List ℕ → NameEntry → Bool
is_name h s e = e.hash == h && same_bytes e.str s

-- The outcome of a search of the buckets; `stray` is an entry past the table.
pub data Search : Type 0 where
  found : NameEntry → Search
  missing : Search
  stray : Search

-- The probing loop of `rv_dict_by_str`; `left` is the number of probes that it still has.
unfoldable pub probe : ℕ → SnamTable → ℕ → List ℕ → ℕ → Search
probe zero t h s slot = missing
probe (suc left) t h s slot =
    let rest = probe left t h s (bit_and (u32 (slot + 1)) t.bucket_mask) in
    if cell t.bucket slot == 0
    then missing
    else elim (get_elem? t.entries (cell t.bucket slot - 1)) [
      | none ↦ stray
      | some e ↦ if is_name h s e then found e else rest
    ]

-- The test `probes <= bucket_mask` allows one probe more than the mask.
unfoldable pub by_str : SnamTable → List ℕ → Search
by_str t s = probe (t.bucket_mask + 1) t (hash32 s) s (bit_and (hash32 s) t.bucket_mask)

unfoldable pub resolve : SnamTable → ℕ → Option (List ℕ)
resolve t id = elim (by_id t id) [ none ↦ none | some e ↦ some e.str ]

-- A reference to a name that is missing; 0 is no reference.
unfoldable pub is_bad : SnamTable → ℕ → Bool
is_bad t id = if id == 0 then false else elim (by_id t id) [ none ↦ true | some e ↦ false ]

-- The loops of the three checks: the first bad id, or `none` for the status 0.
unfoldable pub check_routes : SnamTable → List RouteRec → Option ℕ
check_routes t [] = none
check_routes t (r ∷ rs) =
    let rest = check_routes t rs in
    if is_bad t r.site_name_id
    then some r.site_name_id
    else if is_bad t r.far_name_id
    then some r.far_name_id
    else rest

unfoldable pub check_instruments : SnamTable → List InstRec → Option ℕ
check_instruments t [] = none
check_instruments t (r ∷ rs) =
    let rest = check_instruments t rs in
    if is_bad t r.model_name_id
    then some r.model_name_id
    else if is_bad t r.serial_name_id
    then some r.serial_name_id
    else rest

unfoldable pub check_markers : SnamTable → List MarkerRec → Option ℕ
check_markers t [] = none
check_markers t (m ∷ ms) =
    let rest = check_markers t ms in if is_bad t m.label_name_id then some m.label_name_id else rest
