-- ===== src/TimeWindow/Windows.antt =====
-- The windows of a table in which each was saved under the constraint do not overlap.
use oca_server_tools.Common.{ℕ, ◌≤◌, ◌<◌, ◌≡◌, true, false, not, List, ◌∷◌, elem, keep, In, ◌==◌}
use oca_server_tools.TimeWindow.{Window}

-- An instant within the window
abbrev pub Within : Window → ℕ → Type 0
Within w t = (w.time_window_start ≤ t) × (t < w.time_window_end)

-- Two windows of the same record and day have no instant in common.
abbrev pub Disjoint : Window → Window → Type 0
Disjoint a b =
    (a.id == b.id) ≡ false
    → (day t : ℕ) → a.check_field ≡ b.check_field
    → elem day a.time_window_weekday_ids ≡ true
    → elem day b.time_window_weekday_ids ≡ true
    → Within a t
    → Within b t
    → ⊥

abbrev pub AllDisjoint : List Window → Type 0
AllDisjoint table = (a b : Window) → In a table → In b table → Disjoint a b

abbrev written_rows : Window → List Window → List Window
written_rows r table = r ∷ keep (λ w. not (w.id == r.id)) table
