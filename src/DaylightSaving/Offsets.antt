-- ===== src/DaylightSaving/Offsets.antt =====
-- The loop of `_calculate_daylight_offset` ends, and a scheduled action keeps its hour.
use oca_server_tools.Common.{
  ℕ, zero, suc, ◌+◌, ◌-◌, ◌≤◌, ◌<◌, ltb, ◌==◌, ==_refl, ◌≡◌, refl, sym, ap, ◌∙◌, subst, Bool, true,
  false, not, ◌&&◌, Option, some, if◌then◌else◌, Bool-cases, inl, inr, ◌⊎◌, arith,
}
use oca_server_tools.Common.Action.{Result, ok, Action}
use oca_server_tools.DaylightSaving.{
  Calls, unlimited, left, some_left, advance, Job, OffsetChange, World, Error, minus_offset,
  calculate_daylight_offset, commit, move, adjust_by, adjust, process_job,
}

-- `n` steps
abbrev pub steps : ℕ → ℕ → ℕ
steps zero delta = 0
steps (suc n) delta = delta + steps n delta

-- Where the loop ends: a number of steps after `nextcall`, no more of them than it takes to reach `now`, and
-- with a number of calls fewer than these; as many as it takes, but where all of the calls are used.
abbrev pub Advanced : ℕ → ℕ → ℕ → Calls → ℕ → Type 0
Advanced nextcall delta now numbercall t =
    (n : ℕ) × (t ≡ nextcall + steps n delta)
    × ((n ≡ 0) ⊎ (t < now + delta))
    × ((c : ℕ) → numbercall ≡ left c → (n ≡ 0) ⊎ (suc n ≤ c))
    × ((now ≤ t) ⊎ ((c : ℕ) × (numbercall ≡ left c) × (c ≤ suc n)))

abbrev calls_left : Calls → ℕ
calls_left unlimited = 0
calls_left (left n) = n

-- The loop is over.
over :
    (nextcall delta now : ℕ) (numbercall : Calls)
    → (now ≤ nextcall) ⊎ ((c : ℕ) × (numbercall ≡ left c) × (c ≤ 1))
    → Advanced nextcall delta now numbercall nextcall
over nextcall delta now numbercall why = (0, omega arith, inl refl, λ c e. inl refl, why)

-- One more step before the others
one_more :
    (nextcall delta now : ℕ) (numbercall less : Calls) (t : ℕ)
    → nextcall < now
    → ((c : ℕ) → less ≡ left c → numbercall ≡ left (suc c))
    → ((k : ℕ) → numbercall ≡ left k → (c : ℕ) × (less ≡ left (suc c)) × (k ≡ suc (suc c)))
    → Advanced (nextcall + delta) delta now less t
    → Advanced nextcall delta now numbercall t
one_more nextcall delta now numbercall less t behind fewer more (n, at, few, calls, ends) = (
  suc n,
  omega (arith, at),
  elim few [ inl e ↦ inr (no_steps e) | inr l ↦ inr l ],
  λ k e.
      let (c, e', same) = more k e in
      inr (elim (calls (suc c) e') [
        | inl none_more ↦ omega (arith, none_more, same)
        | inr l ↦ omega (arith, l, same)
      ]),
  elim ends [ inl l ↦ inl l | inr (c, e, l) ↦ inr (suc c, fewer c e, omega (arith, l)) ],
)
  where
    no_steps : n ≡ 0 → t < now + delta
    no_steps e = omega (arith, behind, at ∙ ap (λ n. nextcall + delta + steps n delta) e)

-- With enough fuel the loop ends.
advance-Advanced :
    (fuel nextcall delta now : ℕ) (numbercall : Calls)
    → 0 < delta
    → now ≤ nextcall + fuel
    → (t : ℕ) × (advance (suc fuel) nextcall delta now numbercall ≡ some t)
      × Advanced nextcall delta now numbercall t
unfolding advance
advance-Advanced zero nextcall delta now numbercall positive enough =
    (nextcall, rw late refl, over nextcall delta now numbercall (inl (omega (arith, enough))))
  where
    late : ltb nextcall now ≡ false
    late = ground (arith, enough)
advance-Advanced (suc fuel) nextcall delta now (left zero) positive enough = (
  nextcall,
  ended (ltb nextcall now),
  over nextcall delta now (left zero) (inr (0, refl, omega arith)),
)
  where
    ended :
        (b : Bool)
        → (if b && false then advance (suc fuel) nextcall delta now (left zero) else some nextcall)
          ≡ some nextcall
    ended true = refl
    ended false = refl
advance-Advanced (suc fuel) nextcall delta now (left (suc zero)) positive enough = (
  nextcall,
  ended (ltb nextcall now) (ltb nextcall now),
  over nextcall delta now (left 1) (inr (1, refl, omega arith)),
)
  where
    ended :
        (b c : Bool)
        → (if b && true
            then if c && false then advance fuel nextcall delta now (left zero) else some nextcall
            else some nextcall)
          ≡ some nextcall
    ended true true = refl
    ended true false = refl
    ended false c = refl
advance-Advanced (suc fuel) nextcall delta now unlimited positive enough =
    elim (Bool-cases (ltb nextcall now)) [
      | inl y ↦
          let (t, e, a) =
            advance-Advanced fuel (nextcall + delta) delta now unlimited positive
              (omega (arith, positive, enough)) in
          (
            t,
            rw y e,
            one_more nextcall delta now unlimited unlimited t (ground (arith, y)) (λ c e. cc e)
                (λ k e. cc e) a,
          )
      | inr n ↦ (nextcall, rw n refl, over nextcall delta now unlimited (inl (ground (arith, n))))
    ]
advance-Advanced (suc fuel) nextcall delta now (left (suc (suc c))) positive enough =
    elim (Bool-cases (ltb nextcall now)) [
      | inl y ↦
          let (t, e, a) =
            advance-Advanced fuel (nextcall + delta) delta now (left (suc c)) positive
              (omega (arith, positive, enough)) in
          (
            t,
            rw y e,
            one_more nextcall delta now (left (suc (suc c))) (left (suc c)) t (ground (arith, y))
                (λ d e. ap (λ k. left (suc (calls_left k))) e)
                (λ k e. (c, refl, sym (ap calls_left e))) a,
          )
      | inr n ↦ (
        nextcall,
        rw n refl,
        over nextcall delta now (left (suc (suc c))) (inl (ground (arith, n))),
      )
    ]

advance-over :
    (fuel nextcall delta now : ℕ) (numbercall : Calls)
    → (ltb nextcall now && some_left numbercall) ≡ false
    → advance (suc fuel) nextcall delta now numbercall ≡ some nextcall
unfolding advance
advance-over fuel nextcall delta now numbercall e = rw e refl

some_injective : {a b : ℕ} → ◌≡◌ {A = Option ℕ} (some a) (some b) → a ≡ b
some_injective e = cc e

module _ (utcoffset : ℕ → ℕ) where
  -- The local time of an instant
  abbrev pub local_time : ℕ → ℕ
  local_time t = t + utcoffset t

  -- The call returned what the original one does, its work is committed, the next call of the action is at
  -- the local time of the call before, a number of steps later, and the other actions are as they were.
  abbrev pub KeepsHour : {R : Type 0} → R → Job → World → Result Error R × World → Type 0
  KeepsHour r job w (result, w') =
      (result ≡ ok r)
      × (w'.committed ≡ w'.nextcall_of)
      × ((n : ℕ) × (t : ℕ) × (w'.nextcall_of job.id ≡ some t)
          × (local_time t ≡ local_time job.nextcall + steps n job.delta))
      × ((i : ℕ) → (i == job.id) ≡ false → w'.nextcall_of i ≡ w.nextcall_of i)

  module _ {R : Type 0} (r : R) (job : Job) (now : ℕ) (w : World) where
    stays-KeepsHour :
        (t : ℕ)
        → w.nextcall_of job.id ≡ some t
        → utcoffset job.nextcall ≡ utcoffset t
        → (n : ℕ) × (t ≡ job.nextcall + steps n job.delta)
        → KeepsHour r job w (ok r, commit utcoffset w)
    stays-KeepsHour t row same (n, at) =
        (refl, refl, (n, t, row, omega (arith, same, at)), λ i o. refl)

    moves-KeepsHour :
        (t : ℕ)
        → w.nextcall_of job.id ≡ some t
        → utcoffset t ≤ t
        → utcoffset
            (minus_offset (record { before = utcoffset job.nextcall; after = utcoffset t }) t)
          ≡ utcoffset t
        → (n : ℕ) × (t ≡ job.nextcall + steps n job.delta)
        → KeepsHour r job w (
            move utcoffset r job.id
              (record { before = utcoffset job.nextcall; after = utcoffset t })
              (w.nextcall_of job.id)
              w)
    moves-KeepsHour t row late settled (n, at) = rw row (
      refl,
      refl,
      (
        n,
        (t + utcoffset job.nextcall) - utcoffset t,
        rw (==_refl job.id) refl,
        omega (arith, late, settled, at),
      ),
      λ i o. rw o refl,
    )

    if-true : {b : Bool} (x y : Result Error R × World) → b ≡ true → x ≡ (if b then x else y)
    if-true x y e = rw e refl

    if-false : {b : Bool} (x y : Result Error R × World) → b ≡ false → y ≡ (if b then x else y)
    if-false x y e = rw e refl

    adjust_by-KeepsHour :
        (t : ℕ)
        → w.nextcall_of job.id ≡ some t
        → utcoffset t ≤ t
        → utcoffset
            (minus_offset (record { before = utcoffset job.nextcall; after = utcoffset t }) t)
          ≡ utcoffset t
        → (n : ℕ) × (t ≡ job.nextcall + steps n job.delta)
        → ((ltb job.nextcall now && some_left job.numbercall) ≡ false → t ≡ job.nextcall)
        → KeepsHour r job w (
            adjust_by utcoffset r job now
              (some (record { before = utcoffset job.nextcall; after = utcoffset t }))
              w)
    adjust_by-KeepsHour t row late settled steps_to not_behind =
        elim (Bool-cases (
          not (utcoffset job.nextcall == utcoffset t)
          && (ltb job.nextcall now && some_left job.numbercall))) [
            | inl y ↦
                subst (KeepsHour r job w)
                  (if-true (move utcoffset r job.id diff (w.nextcall_of job.id) w)
                    (ok r, commit utcoffset w) y)
                  (moves-KeepsHour t row late settled steps_to)
            | inr n ↦
                subst (KeepsHour r job w)
                  (if-false (move utcoffset r job.id diff (w.nextcall_of job.id) w)
                    (ok r, commit utcoffset w) n)
                  (stays-KeepsHour t row
                    (same n (Bool-cases (utcoffset job.nextcall == utcoffset t))) steps_to)
          ]
      where
        diff : OffsetChange
        diff = record { before = utcoffset job.nextcall; after = utcoffset t }

        same :
            (not (utcoffset job.nextcall == utcoffset t)
                && (ltb job.nextcall now && some_left job.numbercall))
              ≡ false
            → ((utcoffset job.nextcall == utcoffset t) ≡ true)
              ⊎ ((utcoffset job.nextcall == utcoffset t) ≡ false)
            → utcoffset job.nextcall ≡ utcoffset t
        same n (inl e) = ground (arith, e)
        same n (inr d) = ap utcoffset (sym (not_behind (ground (arith, n, d))))

    adjust-KeepsHour :
        0 < job.delta
        → ((t : ℕ)
            → advance (suc now) job.nextcall job.delta now job.numbercall ≡ some t
            → (w.nextcall_of job.id ≡ some t)
              × (utcoffset t ≤ t)
              × (utcoffset (
                    minus_offset
                      (record { before = utcoffset job.nextcall; after = utcoffset t })
                      t)
                  ≡ utcoffset t))
        → KeepsHour r job w (adjust utcoffset r job now w)
    unfolding adjust calculate_daylight_offset
    adjust-KeepsHour positive follows =
        let (t, e, (n, at, few, calls, ends)) =
          advance-Advanced now job.nextcall job.delta now job.numbercall positive (omega arith) in
        let (row, late, settled) = follows t e in
        rw e (
          adjust_by-KeepsHour t row late settled (n, at)
            (λ b.
              some_injective
                (sym e ∙ advance-over now job.nextcall job.delta now job.numbercall b)))

  -- An action that asks for it and has a time step: where the original call returns and has put the next call
  -- where the loop of this module gets, and the offset does not change again between there and the corrected time,
  -- the loop ends, the call returns what the original one does and commits, and the next call is at
  -- the local time of the call before, some steps later. The other actions are as the original call leaves them.
  pub process_job-KeepsHour :
      {R : Type 0} (origin : Action Error World R) (job : Job) (now : ℕ) (w w1 : World) (r : R)
      → job.daylight_saving_time_resistant ≡ true
      → 0 < job.delta
      → origin w ≡ (ok r, w1)
      → ((t : ℕ)
          → advance (suc now) job.nextcall job.delta now job.numbercall ≡ some t
          → (w1.nextcall_of job.id ≡ some t)
            × (utcoffset t ≤ t)
            × (utcoffset
                  (minus_offset (record { before = utcoffset job.nextcall; after = utcoffset t }) t)
                ≡ utcoffset t))
      → KeepsHour r job w1 (process_job utcoffset origin job now w)
  unfolding process_job
  process_job-KeepsHour origin job now w w1 r asked positive run follows =
      rw (run, asked) (adjust-KeepsHour r job now w1 positive follows)

-- With a time step, the loop of `_calculate_daylight_offset` ends, for any number of calls: at the first time
-- from `nextcall` on that is no earlier than `now`, counted in steps, or, where the calls run out before that, one
-- step less than there are calls after `nextcall` (or at `nextcall`, where there are none).
pub advance-ends :
    (nextcall delta now : ℕ) (numbercall : Calls)
    → 0 < delta
    → (t : ℕ) × (advance (suc now) nextcall delta now numbercall ≡ some t)
      × Advanced nextcall delta now numbercall t
advance-ends nextcall delta now numbercall positive =
    advance-Advanced now nextcall delta now numbercall positive (omega arith)
