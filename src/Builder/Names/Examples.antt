-- ===== src/Builder/Names/Examples.antt =====
-- The first name of a builder.
use ray_vault.Base.{ℕ, Bool, true, ◌≡◌, refl, some, List, [], ◌∷◌}
use ray_vault.Builder.{init, push, grow}
use ray_vault.Builder.Names.{add_name, find_name}

abbrev all_granted : ℕ → Bool
all_granted n = true

abbrev site : List ℕ
site = 0x53 ∷ 0x31 ∷ []

first_id : (add_name all_granted init site).0 ≡ some 1
unfolding add_name find_name push grow init
first_id = refl
