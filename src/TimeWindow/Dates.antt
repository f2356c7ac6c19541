-- ===== src/TimeWindow/Dates.antt =====
-- The date that `_get_next_weekday_date` finds is the first one.
use oca_server_tools.Common.{
  ℕ, suc, ◌≤◌, ◌<◌, ◌≡◌, refl, ap, sym, subst, Bool, true, false, some, List, [], ◌∷◌, In, inl, inr,
  ltb, arith, Bool-cases,
}
use oca_server_tools.TimeWindow.{weekday, get_next_weekday_date, get_next_weekdays_date, min, least}

-- The day from which dates count.
abbrev pub from : ℕ → Bool → ℕ
from date true = date
from date false = suc date

-- The first date with the weekday, from a date on.
abbrev pub IsFirst : ℕ → ℕ → ℕ → Type 0
IsFirst name start date =
    (weekday date ≡ name)
    × (start ≤ date)
    × ((day : ℕ) → start ≤ day → weekday day ≡ name → date ≤ day)

-- For a weekday from 0 to 6, `_get_next_weekday_date` returns the first date with this weekday from
-- the given date on, which itself counts only where it is included.
pub get_next_weekday_date-IsFirst :
    (name date : ℕ) (included : Bool)
    → name < 7
    → IsFirst name (from date included) (get_next_weekday_date name date included)
unfolding weekday get_next_weekday_date
get_next_weekday_date-IsFirst name date true l =
    (ground (arith, l), ground (arith, l), λ day a e. ground (arith, l, a, e))
get_next_weekday_date-IsFirst name date false l =
    (ground (arith, l), ground (arith, l), λ day a e. ground (arith, l, a, e))

abbrev pub AllBelow : List ℕ → Type 0
AllBelow [] = Unit
AllBelow (name ∷ more) = (name < 7) × AllBelow more

-- The first date whose weekday is one of several.
abbrev pub IsFirstOf : List ℕ → ℕ → ℕ → Type 0
IsFirstOf names start date =
    In (weekday date) names
    × (start ≤ date)
    × ((day : ℕ) → start ≤ day → In (weekday day) names → date ≤ day)

min_second : (a b : ℕ) → ltb b a ≡ true → b ≡ min a b
min_second a b e = ground (arith, e)

min_first : (a b : ℕ) → ltb b a ≡ false → a ≡ min a b
min_first a b e = ground (arith, e)

least_first :
    (name : ℕ) (names : List ℕ) (start a b : ℕ)
    → IsFirst name start a
    → IsFirstOf names start b
    → IsFirstOf (name ∷ names) start (min a b)
least_first name names start a b (e, l, f) (i, m, g) = elim (Bool-cases (ltb b a)) [
  | inl lt ↦ subst (IsFirstOf (name ∷ names) start) (min_second a b lt) (
    inr i,
    m,
    λ day h j. elim j [ inl s ↦ ground (arith, f day h (sym s), lt) | inr k ↦ g day h k ],
  )
  | inr ge ↦ subst (IsFirstOf (name ∷ names) start) (min_first a b ge) (
    inl (sym e),
    l,
    λ day h j. elim j [ inl s ↦ f day h (sym s) | inr k ↦ ground (arith, g day h k, ge) ],
  )
]

-- For weekdays from 0 to 6, at least one of them, `_get_next_weekdays_date` returns the first date
-- from the given date on whose weekday is one of them.
pub get_next_weekdays_date-IsFirstOf :
    (name : ℕ) (names : List ℕ) (date : ℕ) (included : Bool)
    → AllBelow (name ∷ names)
    → (found : ℕ) × (get_next_weekdays_date (name ∷ names) date included ≡ some found)
      × IsFirstOf (name ∷ names) (from date included) found
unfolding get_next_weekdays_date
get_next_weekdays_date-IsFirstOf name [] date included (l, ls) =
    let (e, m, f) = get_next_weekday_date-IsFirst name date included l in
    (
      get_next_weekday_date name date included,
      refl,
      (inl (sym e), m, λ day h j. elim j [ inl s ↦ f day h (sym s) | inr k ↦ elim k [ ] ]),
    )
get_next_weekdays_date-IsFirstOf name (other ∷ names) date included (l, ls) =
    let (found, e, first) = get_next_weekdays_date-IsFirstOf other names date included ls in
    (
      min (get_next_weekday_date name date included) found,
      ap (λ rest. some (least (get_next_weekday_date name date included) rest)) e,
      least_first name (other ∷ names) (from date included)
          (get_next_weekday_date name date included) found
          (get_next_weekday_date-IsFirst name date included l) first,
    )
