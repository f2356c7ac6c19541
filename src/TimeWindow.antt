-- ===== src/TimeWindow.antt =====
-- base_time_window: the next date of a weekday (time_weekday.py), and time windows that do not
-- overlap (time_window_mixin.py).
pub mod Dates
pub mod Windows
mod Tests
use oca_server_tools.Common.{
  ℕ, ◌+◌, ◌-◌, ◌%◌, Bool, true, false, not, ◌&&◌, Option, none, some, List, [], ◌∷◌, elem, any,
  keep, ltb, ◌==◌, if◌then◌else◌,
}
use oca_server_tools.Common.Action.{Result, ok, err, and_then}

-- `date.weekday()` of the day with this `toordinal()`: day 1 is a Monday, and Monday is 0.
unfoldable pub weekday : ℕ → ℕ
weekday day = (day + 6) % 7

-- `_get_next_weekday_date` of the weekday whose `name` is this number
unfoldable pub get_next_weekday_date : ℕ → ℕ → Bool → ℕ
unfolding weekday
get_next_weekday_date name date_from include_date_from =
    if ltb name (weekday date_from)
    then date_from + (name + 7 - weekday date_from)
    else if (name == weekday date_from) && not include_date_from
    then date_from + 7
    else date_from + (name - weekday date_from)

abbrev pub min : ℕ → ℕ → ℕ
min a b = if ltb b a then b else a

abbrev pub least : ℕ → Option ℕ → ℕ
least date none = date
least date (some other) = min date other

-- `_get_next_weekdays_date`, `none` where `min` raises
unfoldable pub get_next_weekdays_date : List ℕ → ℕ → Bool → Option ℕ
unfolding get_next_weekday_date
get_next_weekdays_date [] date_from include_date_from = none
get_next_weekdays_date (name ∷ more) date_from include_date_from =
    let date = get_next_weekday_date name date_from include_date_from in
    let rest = get_next_weekdays_date more date_from include_date_from in some (least date rest)

-- A window: its start and end in a fixed unit of time, its weekdays, and the record of the field
-- `_time_window_overlap_check_field`.
pub record Window : Type 0 where
  pub id : ℕ
  pub time_window_start : ℕ
  pub time_window_end : ℕ
  pub time_window_weekday_ids : List ℕ
  pub check_field : ℕ

pub data Error : Type 0 where
  end_before_start no_weekday : Error
  overlaps : ℕ → Error

-- `NUMRANGE(a, b) && NUMRANGE(c, d)`: the ranges have their start and not their end.
abbrev pub ranges_overlap : ℕ → ℕ → ℕ → ℕ → Bool
ranges_overlap a b c d = ltb a b && (ltb c d && (ltb a d && ltb c b))

-- The `WHERE` of the query for the window `r` on a row `w`
unfoldable pub conflicts : Window → Window → Bool
conflicts r w =
    ranges_overlap w.time_window_start w.time_window_end r.time_window_start r.time_window_end
    && (not (w.id == r.id)
        && (any (λ day. elem day r.time_window_weekday_ids) w.time_window_weekday_ids
            && (w.check_field == r.check_field)))

-- The first row of the query's result
unfoldable pub first_conflict : Window → List Window → Option Window
unfolding conflicts
first_conflict r [] = none
first_conflict r (w ∷ more) = if conflicts r w then some w else first_conflict r more

abbrev pub is_empty : List ℕ → Bool
is_empty [] = true
is_empty (_ ∷ _) = false

abbrev pub free : Option Window → Result Error Unit
free none = ok tt
free (some w) = err (overlaps w.id)

-- `check_window_no_overlaps` on one window of the table
unfoldable pub check_window_no_overlaps : Window → List Window → Result Error Unit
unfolding first_conflict
check_window_no_overlaps r table =
    if ltb r.time_window_end r.time_window_start
    then err end_before_start
    else if is_empty r.time_window_weekday_ids
    then err no_weekday
    else free (first_conflict r table)

-- Creating or writing a window, with the constraint.
unfoldable pub save : Window → List Window → Result Error (List Window)
unfolding check_window_no_overlaps
save r table =
    let written = r ∷ keep (λ w. not (w.id == r.id)) table in
    and_then (check_window_no_overlaps r written) λ _. ok written
