-- ===== src/DaylightSaving/Tests.antt =====
-- A daily action over a change of the clocks, and the theorems applied to it.
use oca_server_tools.Common.{
  ℕ, ◌≤◌, ltb, ◌==◌, ◌≡◌, refl, sym, ◌∙◌, subst, Bool, true, Option, none, some, if◌then◌else◌,
  arith,
}
use oca_server_tools.Common.Action.{ok, Action}
use oca_server_tools.DaylightSaving.{
  unlimited, left, advance, Job, World, Error, minus_offset, process_job,
}
use oca_server_tools.DaylightSaving.Offsets.{
  Advanced, KeepsHour, process_job-KeepsHour, advance-ends,
}

-- One hour ahead of UTC, and two hours after a change
abbrev utcoffset : ℕ → ℕ
utcoffset t = if ltb t 500000 then 90000 else 93600

abbrev daily : Job
daily = record {
  id = 1;
  daylight_saving_time_resistant = true;
  nextcall = 450000;
  numbercall = unlimited;
  delta = 86400;
}

abbrev calls : ℕ → World
calls t = record { nextcall_of = λ i. if i == 1 then some t else some 7; committed = λ i. none }

abbrev runs : Action Error World Bool
runs w = (ok true, calls 536400)

moved : (process_job utcoffset runs daily 460000 (calls 450000)).1.nextcall_of 1 ≡ some 532800
unfolding process_job
moved = refl

abbrev Follows : ℕ → Type 0
Follows t =
    ((calls 536400).nextcall_of 1 ≡ some t)
    × (utcoffset t ≤ t)
    × (utcoffset (minus_offset (record { before = utcoffset 450000; after = utcoffset t }) t)
        ≡ utcoffset t)

reached : advance 460001 450000 86400 460000 unlimited ≡ some 536400
unfolding advance
reached = refl

some_equal : (a b : ℕ) → ◌≡◌ {A = Option ℕ} (some a) (some b) → a ≡ b
some_equal a b e = cc e

follows : (t : ℕ) → advance 460001 450000 86400 460000 unlimited ≡ some t → Follows t
follows t e = subst Follows (some_equal 536400 t (sym reached ∙ e)) (refl, omega arith, refl)

process_job-KeepsHour_example :
    KeepsHour utcoffset true daily
      (calls 536400)
      (process_job utcoffset runs daily 460000 (calls 450000))
process_job-KeepsHour_example =
    process_job-KeepsHour utcoffset runs daily 460000 (calls 450000) (calls 536400) true refl
      (omega arith) refl follows

advance-ends_example :
    (t : ℕ) × (advance 460001 450000 86400 460000 (left 3) ≡ some t)
    × Advanced 450000 86400 460000 (left 3) t
advance-ends_example = advance-ends 450000 86400 460000 (left 3) (omega arith)
