-- ===== src/IdMap/Examples.antt =====
-- Maps from id to position in a small arena.
use ray_vault.Base.{ℕ, ◌≡◌, ◌^◌, ◌-◌, ◌+◌, refl, true, some, none, [], ◌∷◌, replicate, set, arith}
use ray_vault.Arena.{Arena, Heap, alloc, calloc, align_up, alignment}
use ray_vault.Decoding.{ok, fault, touch}
use ray_vault.IdMap.{IdMap, no_map, put, put_all, build_map, find, fit, make_fit, regrow, store}
use ray_vault.IdMap.Laws.{find-build_map, last_at}
use ray_vault.IdMap.Faults.{put_max_id}

abbrev heap : Heap
heap = record { malloc = λ n. some 1000; realloc = λ base n. some 2000 }

abbrev arena : ℕ → ℕ → Arena
arena size used = record {
  base = some 1000;
  size = size;
  used = used;
  peak = used;
  max_bytes = 65536;
  epoch = 1;
  grow_count = 0;
  owns_base = true;
}

abbrev map_of_5 : IdMap
map_of_5 = record { cells = set (replicate 32 0) 5 1; block = some 1000 }

put_5 : put heap 5 (0 + 1) no_map (arena 4096 0) ≡ (ok map_of_5, arena 4096 128)
unfolding put make_fit fit regrow store calloc alloc align_up alignment
put_5 = refl

-- The id 5 stands twice in the table.
abbrev map_of_575 : IdMap
map_of_575 = record { cells = set (set (replicate 32 0) 7 2) 5 3; block = some 1000 }

put_575 :
    build_map heap 16 (some 1000) (5 ∷ 7 ∷ 5 ∷ []) (arena 4096 0) ≡ (ok map_of_575, arena 4096 176)
unfolding build_map put_all touch put make_fit fit regrow store calloc alloc align_up alignment
put_575 = refl

find-build_map_example : find map_of_575 5 ≡ last_at 0 (5 ∷ 7 ∷ 5 ∷ []) 5 none
find-build_map_example =
    find-build_map heap 16 (some 1000) (5 ∷ 7 ∷ 5 ∷ []) map_of_575 (arena 4096 0) (arena 4096 176) 5
      put_575

put_max_id_example : put heap (2 ^ 32 - 1) 1 map_of_5 (arena 4096 128) ≡ (fault, arena 4096 128)
put_max_id_example = put_max_id heap 1 map_of_5 (arena 4096 128) (omega arith)
