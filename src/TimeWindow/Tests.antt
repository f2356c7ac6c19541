-- ===== src/TimeWindow/Tests.antt =====
-- Dates and windows on which the theorems are applied.
use oca_server_tools.Common.{ℕ, ◌≡◌, refl, true, false, some, [], ◌∷◌, arith}
use oca_server_tools.Common.Action.{err}
use oca_server_tools.TimeWindow.{
  get_next_weekday_date, get_next_weekdays_date, Window, overlaps, check_window_no_overlaps,
}
use oca_server_tools.TimeWindow.Dates.{
  IsFirst, IsFirstOf, get_next_weekday_date-IsFirst, get_next_weekdays_date-IsFirstOf,
}

-- From Monday the 1st, excluded, the next Monday is the 8th.
get_next_weekday_date-IsFirst_example : IsFirst 0 2 8
unfolding get_next_weekday_date
get_next_weekday_date-IsFirst_example = get_next_weekday_date-IsFirst 0 1 false (omega arith)

get_next_weekdays_date-IsFirstOf_example :
    (found : ℕ) × (get_next_weekdays_date (4 ∷ 2 ∷ []) 1 true ≡ some found)
    × IsFirstOf (4 ∷ 2 ∷ []) 1 found
get_next_weekdays_date-IsFirstOf_example =
    get_next_weekdays_date-IsFirstOf 4 (2 ∷ []) 1 true (omega arith, (omega arith, tt))

abbrev morning : Window
morning = record {
  id = 1;
  time_window_start = 8;
  time_window_end = 12;
  time_window_weekday_ids = 0 ∷ 1 ∷ [];
  check_field = 5;
}

abbrev afternoon : Window
afternoon = record morning { id = 2; time_window_start = 12; time_window_end = 18 }

late_refused :
    check_window_no_overlaps (record afternoon { time_window_start = 11 }) (morning ∷ [])
    ≡ err (overlaps 1)
unfolding check_window_no_overlaps
late_refused = refl
