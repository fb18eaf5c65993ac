-- ===== src/Stream/Order.antt =====
-- The windows that a stream hands out.
use ray_vault.Base.{ℕ, zero, suc, ◌+◌, ◌≤◌, ◌≡◌, ◌⊎◌, Option, none, some, List, [], ◌∷◌, get_elem?}
use mathlib.Core.List.{Memᴰ}
use ray_vault.Records.{WindowRec}
use ray_vault.Arena.{Arena}
use ray_vault.Stream.{Stream, next_window}

abbrev pub after_window : (Stream → List ℕ × Stream) → Option ℕ × Stream → List ℕ × Stream
after_window rest (none, st) = ([], st)
after_window rest (some w, st) = let (ws, st') = rest st in (w ∷ ws, st')

-- The calls of `rv_stream_impl_next_window` until one fails, at most `fuel`.
abbrev pub drain : ℕ → Stream → List ℕ × Stream
drain zero st = ([], st)
drain (suc fuel) st = after_window (drain fuel) (next_window st)

-- The window matches the route.
abbrev pub Matches : ℕ → WindowRec → Type 0
Matches route_id w = (route_id ≡ 0) ⊎ (w.route_id ≡ route_id)

abbrev pub Window : ℕ → ℕ → List WindowRec → ℕ → Type 0
Window route_id i ws k =
    (j : ℕ) × (w : WindowRec) × (k ≡ i + j) × (get_elem? ws j ≡ some w) × Matches route_id w

-- Each position once, and in the order of the table; the first is i or a later one.
abbrev pub Ascending : ℕ → List ℕ → Type 0
Ascending i [] = Unit
Ascending i (k ∷ ks) = (i ≤ k) × Ascending (k + 1) ks
