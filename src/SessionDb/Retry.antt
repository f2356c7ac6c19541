-- ===== src/SessionDb/Retry.antt =====
-- The loop of `with_cursor`: it ends within five tries.
use oca_server_tools.Common.{
  ℕ, zero, suc, ◌+◌, ◌≤◌, ◌≡◌, refl, Bool, true, false, Option, some, ltb, Bool-cases, inl, inr,
  arith,
}
use oca_server_tools.Common.Action.{Result, ok, err, Action}
use oca_server_tools.SessionDb.{
  Turn, Store, Error, operational_error, Fate, answers, lost_before, lost_after, close_connection,
  open_connection, ensure_connection, attempt, settle, retry, with_cursor,
}

-- What a run leaves: `Q` of the value and the store, or the error with the connection closed.
abbrev pub Ends :
    {B : Type 0} → (Store → Type 0) → (B → Store → Type 0) → Result Error B × Store → Type 0
Ends I Q (ok b, s) = Q b s
Ends I Q (err operational_error, s) = (s.has_cr ≡ false) × I s

-- What one try leaves.
abbrev pub Tried :
    {B : Type 0} → (Store → Type 0) → (B → Store → Type 0) → Result Error B × Store → Type 0
Tried I Q (ok b, s) = Q b s
Tried I Q (err operational_error, s) = I s

no_fuel : (tries : ℕ) → 0 + tries ≡ 5 → tries ≤ 4 → ⊥
no_fuel tries e l = omega (arith, e, l)

module _ (world : ℕ → Turn) {B : Type 0} (f : Action Error Store B) (I : Store → Type 0)
    (Q : B → Store → Type 0)
    (I-connect : (s : Store) (b : Bool) (n : ℕ)
      → s.turn ≤ n
      → I s
      → I (record s { has_cr = b; turn = n }))
    (f-Tried : (s : Store) → I s → Tried I Q (f s)) where
  attempt-open :
      (fate : Fate) (s : Store)
      → (world s.turn).fate ≡ fate
      → s.has_cr ≡ false
      → I s
      → Tried I Q (attempt world f s)
  unfolding attempt ensure_connection open_connection close_connection
  attempt-open answers s w c i =
      rw (c, w)
        (f-Tried (record s { has_cr = true; turn = suc s.turn })
          (I-connect s true (suc s.turn) (omega arith) i))
  attempt-open lost_before s w c i = rw (c, w) (I-connect s false (suc s.turn) (omega arith) i)
  attempt-open lost_after s w c i = rw (c, w) (I-connect s false (suc s.turn) (omega arith) i)

  attempt-Tried : (s : Store) → I s → Tried I Q (attempt world f s)
  unfolding attempt ensure_connection
  attempt-Tried s i = elim (Bool-cases s.has_cr) [
    | inl c ↦ rw c (f-Tried (record s { has_cr = true }) (I-connect s true s.turn (omega arith) i))
    | inr c ↦ attempt-open (world s.turn).fate s refl c i
  ]

  settle-Ends :
      (r : Result Error B × Store) (last : Bool) (rest : Option (Result Error B × Store))
      → Tried I Q r
      → (last ≡ false
          → I (close_connection r.1)
          → (out : Result Error B × Store) × (rest ≡ some out) × Ends I Q out)
      → (out : Result Error B × Store) × (settle world r.0 r.1 last rest ≡ some out) × Ends I Q out
  unfolding close_connection
  settle-Ends (ok b, s) last rest t more = ((ok b, s), refl, t)
  settle-Ends (err operational_error, s) true rest t more = (
    (err operational_error, close_connection s),
    refl,
    (refl, I-connect s false s.turn (omega arith) t),
  )
  settle-Ends (err operational_error, s) false rest t more =
      more refl (I-connect s false s.turn (omega arith) t)

  retry-Ends :
      (fuel tries : ℕ) (s : Store)
      → fuel + tries ≡ 5
      → tries ≤ 4
      → I s
      → (out : Result Error B × Store) × (retry world fuel tries f s ≡ some out) × Ends I Q out
  unfolding retry
  retry-Ends zero tries s e l i = elim (no_fuel tries e l) [ ]
  retry-Ends (suc fuel) tries s e l i =
      settle-Ends (attempt world f s) (ltb 4 (suc tries))
        (retry world fuel (suc tries) f (close_connection (attempt world f s).1))
        (attempt-Tried s i)
        (λ more j.
          retry-Ends fuel (suc tries) (close_connection (attempt world f s).1) (omega (arith, e))
            (ground arith) j)

  pub with_cursor-Ends :
      (s : Store)
      → I s
      → (out : Result Error B × Store) × (with_cursor world f s ≡ some out) × Ends I Q out
  unfolding with_cursor
  with_cursor-Ends s i = retry-Ends 5 0 s refl (omega arith) i
