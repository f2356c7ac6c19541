-- ===== src/SessionDb/Recovery.antt =====
-- A failure of the server that lasts for at most four requests is not seen by the caller.
use oca_server_tools.Common.{
  ℕ, zero, suc, ◌+◌, ◌≤◌, ◌<◌, ◌≡◌, refl, Bool, true, false, Option, some, ltb, Bool-cases, inl,
  inr, arith, String,
}
use oca_server_tools.Common.Dict.{Dict}
use oca_server_tools.Common.Action.{Result, ok, err}
use oca_server_tools.SessionDb.{
  Turn, Store, Row, Session, Error, operational_error, Fate, answers, lost_before, lost_after,
  close_connection, open_connection, ensure_connection, execute, attempt, settle, retry,
  with_cursor, upsert, save,
}
use oca_server_tools.SessionDb.Retry.{Ends}
use oca_server_tools.SessionDb.Stored.{Totals-at, SaveInv, Saved, save-Saved}

-- From the request `n` on the server answers.
abbrev pub AnswersFrom : (ℕ → Turn) → ℕ → Type 0
AnswersFrom world n = (t : ℕ) → n ≤ t → (world t).fate ≡ answers

abbrev Succeeds : {B : Type 0} → Result Error B → Type 0
Succeeds {B} r = (b : B) × (r ≡ ok b)

-- A failure has taken a request.
abbrev Later : {B : Type 0} → ℕ → Result Error B × Store → Type 0
Later n (ok b, s') = Unit
Later n (err operational_error, s') = n < s'.turn

last_try : (tries : ℕ) → 0 + tries ≡ 4 → ltb 4 (suc tries) ≡ false → ⊥
last_try tries e l = ground (arith, e, l)

not_last : (fuel tries : ℕ) → suc fuel + tries ≡ 4 → ltb 4 (suc tries) ≡ true → ⊥
not_last fuel tries e l = ground (arith, e, l)

module _ (world : ℕ → Turn) {B : Type 0} (stmt : ℕ → Dict Row → B × Dict Row) where
  execute-Later :
      (fate : Fate) (s : Store) → (world s.turn).fate ≡ fate → Later s.turn (execute world stmt s)
  unfolding execute
  execute-Later answers s w = rw w tt
  execute-Later lost_before s w = rw w (omega arith)
  execute-Later lost_after s w = rw w (omega arith)

  execute_answered : (s : Store) → (world s.turn).fate ≡ answers → Succeeds (execute world stmt s).0
  unfolding execute
  execute_answered s w = rw w ((stmt (world s.turn).now s.rows).0, refl)

  Later-behind : (n m : ℕ) (r : Result Error B × Store) → n ≤ m → Later m r → Later n r
  Later-behind n m (ok b, s') l e = tt
  Later-behind n m (err operational_error, s') l e = omega (arith, l, e)

  attempt_open :
      (fate : Fate) (s : Store)
      → s.has_cr ≡ false
      → (world s.turn).fate ≡ fate
      → Later s.turn (attempt world (execute world stmt) s)
  unfolding attempt ensure_connection open_connection close_connection
  attempt_open answers s c w =
      rw (c, w)
        (Later-behind s.turn (suc s.turn)
          (execute world stmt (record s { has_cr = true; turn = suc s.turn })) (omega arith)
          (execute-Later (world (suc s.turn)).fate (record s { has_cr = true; turn = suc s.turn })
            refl))
  attempt_open lost_before s c w = rw (c, w) (omega arith)
  attempt_open lost_after s c w = rw (c, w) (omega arith)

  attempt-Later : (s : Store) → Later s.turn (attempt world (execute world stmt) s)
  unfolding attempt ensure_connection
  attempt-Later s = elim (Bool-cases s.has_cr) [
    | inl c ↦ rw c (execute-Later (world s.turn).fate (record s { has_cr = true }) refl)
    | inr c ↦ attempt_open (world s.turn).fate s c refl
  ]

  attempt_answered :
      (s : Store) → AnswersFrom world s.turn → Succeeds (attempt world (execute world stmt) s).0
  unfolding attempt ensure_connection open_connection close_connection
  attempt_answered s w = elim (Bool-cases s.has_cr) [
    | inl c ↦ rw c (execute_answered (record s { has_cr = true }) (w s.turn (omega arith)))
    | inr c ↦
        rw (c, w s.turn (omega arith))
          (execute_answered (record s { has_cr = true; turn = suc s.turn })
            (w (suc s.turn) (omega arith)))
  ]

  -- The loop returned a value.
  abbrev Returns : Option (Result Error B × Store) → Type 0
  Returns o = (b : B) × (t : Store) × (o ≡ some (ok b, t))

  settle-Returns :
      (r : Result Error B × Store) (last : Bool) (rest : Option (Result Error B × Store))
      → (last ≡ true → Succeeds r.0)
      → ((r.0 ≡ err operational_error) → last ≡ false → Returns rest)
      → Returns (settle world r.0 r.1 last rest)
  settle-Returns (ok b, s) last rest l more = (b, s, refl)
  settle-Returns (err operational_error, s) true rest l more = cc (l refl).1
  settle-Returns (err operational_error, s) false rest l more = more refl refl

  Later-error :
      (n : ℕ) (r : Result Error B × Store) → Later n r → r.0 ≡ err operational_error → n < r.1.turn
  Later-error n (ok b, s) l e = cc
  Later-error n (err operational_error, s) l e = l

  retry-Returns :
      (fuel tries n : ℕ) (s : Store)
      → fuel + tries ≡ 4
      → n + tries ≤ s.turn
      → AnswersFrom world (n + 4)
      → Returns (retry world (suc fuel) tries (execute world stmt) s)
  unfolding retry close_connection
  retry-Returns zero tries n s e l w =
      settle-Returns (attempt world (execute world stmt) s) (ltb 4 (suc tries)) _
        (λ last. attempt_answered s (λ t h. w t (omega (arith, e, l, h))))
        (λ x last. elim (last_try tries e last) [ ])
  retry-Returns (suc fuel) tries n s e l w =
      settle-Returns (attempt world (execute world stmt) s) (ltb 4 (suc tries)) _
        (λ last. elim (not_last fuel tries e last) [ ])
        (λ x last.
          retry-Returns fuel (suc tries) n
            (close_connection (attempt world (execute world stmt) s).1) (omega (arith, e))
            (omega (
              arith,
              l,
              Later-error s.turn (attempt world (execute world stmt) s) (attempt-Later s) x,
            ))
            w)

module _ (world : ℕ → Turn) {D : Type 0} (dumps : D → String) (loads : String → Option D)
    (new : ℕ → Session D) where
  -- Where the server answers again after at most four requests, `save` returns, and the table then
  -- holds the dumped values under the session's id, with the other rows as before.
  pub save-recovers :
      (session : Session D) (s : Store)
      → AnswersFrom world (s.turn + 4)
      → (t : Store) × (save world dumps loads new session s ≡ some (ok tt, t))
        × Saved world dumps loads new session s.rows tt t
  unfolding save with_cursor
  save-recovers session s w =
      let (b, t, e) =
        retry-Returns world (upsert world session.sid (dumps session.values)) 4 0 s.turn s refl
          (omega arith) w in
      (
        t,
        e,
        Totals-at
            (Ends (SaveInv world dumps loads new session s.rows)
              (Saved world dumps loads new session s.rows))
            (save world dumps loads new session s) (ok tt, t)
            (save-Saved world dumps loads new session s) e,
      )
