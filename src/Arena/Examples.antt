-- ===== src/Arena/Examples.antt =====
-- Runs of the arena on small stores.
use ray_vault.Base.{◌≡◌, ◌≢◌, ◌≤◌, ◌+◌, refl, none, some, List, [], ◌∷◌, true, arith, ◌↔◌, ◌<◌}
use ray_vault.Arena.{Arena, Heap, alloc, alloc_at, bump, align_up, alignment}
use ray_vault.Arena.Align.{IsAligned}
use ray_vault.Arena.Inv.{IsValid, Allocated, alloc_lem, alloc_granted}
use ray_vault.Arena.Regions.{Request, alloc_all, alloc_all-Apart, Apart}

-- Blocks move from address 1000 to 2000 when they grow.
abbrev moving : Heap
moving = record { malloc = λ n. some 1000; realloc = λ base n. some 2000 }

abbrev small : Arena
small = record {
  base = some 1000;
  size = 4096;
  used = 100;
  peak = 100;
  max_bytes = 65536;
  epoch = 1;
  grow_count = 0;
  owns_base = true;
}

small-IsValid : IsValid small
small-IsValid = record {
  live = λ e. ground arith;
  some_room = omega arith;
  in_store = omega arith;
  in_limit = omega arith;
  limit = omega arith;
  peak_high = omega arith;
  peak_in = omega arith;
  epoch_pos = omega arith;
  epoch_word = omega arith;
}

abbrev after_24 : Arena
after_24 = record small { used = 128; peak = 128 }

alloc_24 : alloc moving small 24 0 ≡ (some 104, after_24)
unfolding alloc alloc_at bump align_up alignment
alloc_24 = refl

alloc_lem_example : IsAligned (alignment 0) 100 104 × Allocated small 104 24 after_24 × (0 < 24)
alloc_lem_example = alloc_lem moving small 24 0 104 after_24 small-IsValid (omega arith) alloc_24

alloc_granted_example :
    ((alloc moving small 24 0).0 ≢ none) ↔ (align_up 100 (alignment 0) + 24 ≤ 65536)
alloc_granted_example =
    alloc_granted moving small 24 0 small-IsValid (omega arith) (λ b n e. ground arith)

alloc_too_large : (alloc moving small 70000 0).0 ≡ none
unfolding alloc alloc_at bump align_up alignment
alloc_too_large = refl

abbrev requests : List Request
requests =
    record { heap = moving; nbytes = 24; align = 0 }
    ∷ record { heap = moving; nbytes = 70000; align = 16 }
    ∷ record { heap = moving; nbytes = 5000; align = 16 }
    ∷ []

alloc_all-Apart_example :
    Apart 100 (alloc_all small requests).1.used (alloc_all small requests).0
    × IsValid (alloc_all small requests).1
    × ((alloc_all small requests).1.used ≤ (alloc_all small requests).1.size)
alloc_all-Apart_example =
    alloc_all-Apart requests small small-IsValid (omega arith, (omega arith, (omega arith, tt)))

aligned_104 : align_up 100 (alignment 16) ≡ 112
unfolding align_up alignment
aligned_104 = refl
