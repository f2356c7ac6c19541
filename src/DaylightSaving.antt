-- ===== src/DaylightSaving.antt =====
-- cron_daylight_saving_time_resistant: the hour of a scheduled action over a change of the clocks (models/ir_cron.py).
-- Instants are seconds. The UTC offset of an instant is counted from 24 hours behind UTC, so that it is no
-- negative number, and a difference of offsets is kept as the two offsets. A step is a number of seconds; one of
-- months is none.
pub mod Offsets
mod Tests
use oca_server_tools.Common.{
  ℕ, zero, suc, ◌+◌, ◌-◌, ltb, ◌==◌, Bool, true, false, not, ◌&&◌, Option, none, some,
  if◌then◌else◌,
}
use oca_server_tools.Common.Action.{Result, ok, err, Action}

-- `numbercall`: -1, or the number of calls that are left
pub data Calls : Type 0 where
  unlimited : Calls
  left : ℕ → Calls

-- `if numbercall > 0: numbercall -= 1`
abbrev pub one_less : Calls → Calls
one_less unlimited = unlimited
one_less (left zero) = left zero
one_less (left (suc n)) = left n

-- `if numbercall:`
abbrev pub some_left : Calls → Bool
some_left unlimited = true
some_left (left zero) = false
some_left (left (suc n)) = true

-- The loop, on fuel: `none` where the fuel ends first.
unfoldable pub advance : ℕ → ℕ → ℕ → ℕ → Calls → Option ℕ
advance zero nextcall delta now numbercall = none
advance (suc fuel) nextcall delta now numbercall =
    let rest =
      advance fuel (if some_left (one_less numbercall) then nextcall + delta else nextcall) delta
        now (one_less numbercall) in
    if ltb nextcall now && some_left numbercall then rest else some nextcall

-- The row of a scheduled action that `_process_job` gets
pub record Job : Type 0 where
  pub id : ℕ
  pub daylight_saving_time_resistant : Bool
  pub nextcall : ℕ
  pub numbercall : Calls
  pub delta : ℕ

-- `diff_offset`: the offset after and the one before
pub record OffsetChange : Type 0 where
  pub before : ℕ
  pub after : ℕ

-- `nextcall` of the rows of `ir_cron`, and what is committed
pub record World : Type 0 where
  pub nextcall_of : ℕ → Option ℕ
  pub committed : ℕ → Option ℕ

-- The error of the original `_process_job`, the loop that goes on forever, the missing row
pub data Error : Type 0 where
  raised endless missing_row : Error

-- `datetime - diff_offset`
abbrev pub minus_offset : OffsetChange → ℕ → ℕ
minus_offset diff t = (t + diff.before) - diff.after

module _ (utcoffset : ℕ → ℕ) where
  -- `_calculate_daylight_offset` after its loop
  abbrev pub offsets_of : ℕ → Option ℕ → Option OffsetChange
  offsets_of nextcall none = none
  offsets_of nextcall (some t) = some (record { before = utcoffset nextcall; after = utcoffset t })

  -- `_calculate_daylight_offset`. A time step is at least a second, so the seconds up to now and one more are
  -- fuel enough.
  unfoldable pub calculate_daylight_offset : ℕ → ℕ → Calls → ℕ → Option OffsetChange
  unfolding advance
  calculate_daylight_offset nextcall delta numbercall now =
      offsets_of nextcall (advance (suc now) nextcall delta now numbercall)

  abbrev pub set_nextcall : ℕ → ℕ → World → World
  set_nextcall id t w = record w { nextcall_of = λ i. if i == id then some t else w.nextcall_of i }

  -- `cron_cr.commit()`
  abbrev pub commit : World → World
  commit w = record w { committed = w.nextcall_of }

  -- The SELECT and the UPDATE, and the commit of the `finally`
  abbrev pub move : {R : Type 0} → R → ℕ → OffsetChange → Option ℕ → World → Result Error R × World
  move r id diff none w = (err missing_row, commit w)
  move r id diff (some new_nextcall) w =
      (ok r, commit (set_nextcall id (minus_offset diff new_nextcall) w))

  abbrev pub adjust_by :
      {R : Type 0} → R → Job → ℕ → Option OffsetChange → World → Result Error R × World
  adjust_by r job now none w = (err endless, w)
  adjust_by r job now (some diff) w =
      if not (diff.before == diff.after) && (ltb job.nextcall now && some_left job.numbercall)
      then move r job.id diff (w.nextcall_of job.id) w
      else (ok r, commit w)

  -- The `try` of `_process_job`
  unfoldable pub adjust : {R : Type 0} → R → Job → ℕ → World → Result Error R × World
  unfolding calculate_daylight_offset
  adjust r job now w =
      adjust_by r job now (calculate_daylight_offset job.nextcall job.delta job.numbercall now) w

  abbrev pub adjust_if : {R : Type 0} → Job → ℕ → Result Error R → World → Result Error R × World
  adjust_if job now (err e) w = (err e, w)
  adjust_if job now (ok r) w =
      if job.daylight_saving_time_resistant then adjust r job now w else (ok r, w)

  -- `_process_job`: `origin` is that of Odoo, and `now` the time after it.
  unfoldable pub process_job :
      {R : Type 0} → Action Error World R → Job → ℕ → World → Result Error R × World
  unfolding adjust
  process_job origin job now w = let (r, w') = origin w in adjust_if job now r w'
