-- ===== src/SessionDb/Stored.antt =====
-- What `save`, `delete`, `get` and `vacuum` do to the table, over connections that may be lost.
use oca_server_tools.Common.{
  ℕ, suc, ◌-◌, ◌≡◌, refl, ap, sym, subst, ◌∙◌, String, Bool, true, false, not, Option, none, some,
  In, In-keep, keep-In, ltb, ◌↔◌, ◌≤◌, ◌⊎◌, inl, inr, arith, str_eq, eq_refl,
}
use oca_server_tools.Common.Dict.{Dict, lookup, lookup-insert}
use oca_server_tools.Common.Action.{ok, ◌>>=◌}
use oca_server_tools.SessionDb.{
  Fate, answers, lost_before, lost_after, Turn, Row, Store, Session, execute, upsert, select_sid,
  delete_old, read_row, save, get, vacuum,
}
use oca_server_tools.SessionDb.Retry.{Ends, Tried, with_cursor-Ends}

-- The rows of the other sessions are as before.
abbrev pub OthersKept : String → Dict Row → Store → Type 0
OthersKept sid rows s = (j : String) → str_eq sid j ≡ false → lookup j s.rows ≡ lookup j rows

-- The row of the session holds the payload.
abbrev pub Holds : String → String → Store → Type 0
Holds sid payload s = (row : Row) × (lookup sid s.rows ≡ some row) × (row.payload ≡ payload)

module _ {A : Type 0} where
  abbrev pub Totals : (A → Type 0) → Option A → Type 0
  Totals P o = (a : A) × (o ≡ some a) × P a

  abbrev value : A → Option A → A
  value d none = d
  value d (some a) = a

  pub Totals-at : (P : A → Type 0) (o : Option A) (a : A) → Totals P o → o ≡ some a → P a
  Totals-at P o a (b, e, p) h = subst P (ap (value b) (sym e ∙ h)) p

module _ (world : ℕ → Turn) {D : Type 0} (dumps : D → String) (loads : String → Option D)
    (new : ℕ → Session D) where
  -- After a try of `save`: either nothing was stored or the payload was.
  abbrev pub SaveInv : Session D → Dict Row → Store → Type 0
  SaveInv session rows s =
      OthersKept session.sid rows s
      × ((lookup session.sid s.rows ≡ lookup session.sid rows)
          ⊎ Holds session.sid (dumps session.values) s)

  abbrev pub Saved : Session D → Dict Row → Unit {0} → Store → Type 0
  Saved session rows _ s =
      OthersKept session.sid rows s × Holds session.sid (dumps session.values) s

  stored_row :
      (session : Session D) (rows : Dict Row) (s : Store) (has_cr : Bool) (turn now : ℕ)
      → OthersKept session.sid rows s
      → Saved session rows tt (record {
        has_cr = has_cr;
        turn = turn;
        rows = (upsert world session.sid (dumps session.values) now s.rows).1;
      })
  stored_row session rows s has_cr turn now others = (
    λ j other.
        lookup-insert session.sid j (record { write_date = now; payload = dumps session.values })
          s.rows
        ∙ rw (other) (others j other),
    (
      record { write_date = now; payload = dumps session.values },
      lookup-insert session.sid session.sid
            (record { write_date = now; payload = dumps session.values }) s.rows
          ∙ rw (eq_refl session.sid) refl,
      refl,
    ),
  )

  save_try :
      (session : Session D) (rows : Dict Row) (fate : Fate) (s : Store)
      → (world s.turn).fate ≡ fate
      → SaveInv session rows s
      → Tried
          (SaveInv session rows)
          (Saved session rows)
          (execute world (upsert world session.sid (dumps session.values)) s)
  unfolding execute
  save_try session rows answers s w i =
      rw w (stored_row session rows s s.has_cr (suc s.turn) (world s.turn).now i.0)
  save_try session rows lost_before s w i = rw w i
  save_try session rows lost_after s w i = rw w (
      let (a, b) = stored_row session rows s s.has_cr (suc s.turn) (world s.turn).now i.0 in
      (a, inr b))

  -- Whatever the server does, `save` ends after at most five tries. Either it returns, and then the
  -- table holds the dumped values under the session's id, or it raises, and then the connection is
  -- closed and the session's row is as before or holds these values. The other rows are as before.
  pub save-Saved :
      (session : Session D) (s : Store)
      → Totals
          (Ends (SaveInv session s.rows) (Saved session s.rows))
          (save world dumps loads new session s)
  unfolding save
  save-Saved session s =
      with_cursor-Ends world (execute world (upsert world session.sid (dumps session.values)))
        (SaveInv session s.rows) (Saved session s.rows) (λ t b n l i. i)
        (λ t i. save_try session s.rows (world t.turn).fate t refl i) s (λ j _. refl, inl refl)

  -- What is read under the session's id, with the rows as before.
  abbrev pub IsRead : String → Dict Row → Session D → Store → Type 0
  IsRead sid rows session t =
      (t.rows ≡ rows)
      × (turn : ℕ) × (session ≡ read_row world dumps loads new turn sid (lookup sid rows))

  get_try :
      (sid : String) (rows : Dict Row) (fate : Fate) (s : Store)
      → (world s.turn).fate ≡ fate
      → s.rows ≡ rows
      → Tried
          (λ t. t.rows ≡ rows)
          (IsRead sid rows)
          ((execute world (select_sid world sid) >>= λ row t.
              (ok (read_row world dumps loads new t.turn sid row), t))
            s)
  unfolding execute
  get_try sid rows answers s w i =
      rw w
        (i, suc s.turn, ap (λ r. read_row world dumps loads new (suc s.turn) sid (lookup sid r)) i)
  get_try sid rows lost_before s w i = rw w i
  get_try sid rows lost_after s w i = rw w i

  -- `get` ends after at most five tries and changes no row. Where it returns, its result is what
  -- the row of the session reads as, or a new session where there is no such row or it is no JSON.
  pub get-Read :
      (sid : String) (s : Store)
      → Totals (Ends (λ t. t.rows ≡ s.rows) (IsRead sid s.rows)) (get world dumps loads new sid s)
  unfolding get
  get-Read sid s =
      with_cursor-Ends world
        (execute world (select_sid world sid) >>= λ row t.
          (ok (read_row world dumps loads new t.turn sid row), t))
        (λ t. t.rows ≡ s.rows) (IsRead sid s.rows) (λ t b n l i. i)
        (λ t i. get_try sid s.rows (world t.turn).fate t refl i) s refl

  -- A session that was saved is the session that is read, where the two calls return, the JSON
  -- round trip holds of its values and the table is not changed between the calls.
  pub get-save :
      (session : Session D) (s t u : Store) (read : Session D)
      → loads (dumps session.values) ≡ some session.values
      → save world dumps loads new session s ≡ some (ok tt, t)
      → get world dumps loads new session.sid t ≡ some (ok read, u)
      → read ≡ record { sid = session.sid; values = session.values; is_new = false }
  get-save session s t u read json saved got =
      let (others, (row, found, same)) =
        Totals-at (Ends (SaveInv session s.rows) (Saved session s.rows))
          (save world dumps loads new session s) (ok tt, t) (save-Saved session s) saved in
      let (kept, turn, e) =
        Totals-at (Ends (λ v. v.rows ≡ t.rows) (IsRead session.sid t.rows))
          (get world dumps loads new session.sid t) (ok read, u) (get-Read session.sid t) got in
      e ∙ ap (read_row world dumps loads new turn session.sid) found ∙ rw (same, json) refl

module _ (world : ℕ → Turn) (max_lifetime : ℕ)
    (ordered : (t u : ℕ) → t ≤ u → (world t).now ≤ (world u).now) where
  abbrev young : ℕ → String × Row → Bool
  young t row = not (ltb max_lifetime ((world t).now - row.1.write_date))

  abbrev pub VacuumInv : Dict Row → Store → Type 0
  VacuumInv rows s =
      (row : String × Row)
      → (In row s.rows → In row rows) × (In row rows → young s.turn row ≡ true → In row s.rows)

  abbrev pub Vacuumed : Dict Row → Unit {0} → Store → Type 0
  Vacuumed rows _ s =
      (t : ℕ) × (s.turn ≡ suc t)
      × ((row : String × Row) → In row s.rows ↔ (In row rows × (young t row ≡ true)))

  younger : (row : String × Row) (t u : ℕ) → t ≤ u → young u row ≡ true → young t row ≡ true
  younger row t u l e = ground (arith, ordered t u l, e)

  vacuum_try :
      (rows : Dict Row) (fate : Fate) (s : Store)
      → (world s.turn).fate ≡ fate
      → VacuumInv rows s
      → Tried (VacuumInv rows) (Vacuumed rows) (execute world (delete_old world max_lifetime) s)
  unfolding execute
  vacuum_try rows answers s w i = rw w (
    s.turn,
    refl,
    λ row. (
      λ j. let (e, k) = In-keep (young s.turn) s.rows row j in ((i row).0 k, e),
      λ j. keep-In (young s.turn) s.rows row j.1 ((i row).1 j.0 j.1),
    ),
  )
  vacuum_try rows lost_before s w i =
      rw w
        (λ row. ((i row).0, λ j y. (i row).1 j (younger row s.turn (suc s.turn) (omega arith) y)))
  vacuum_try rows lost_after s w i = rw w (λ row. (
    λ j. (i row).0 (In-keep (young s.turn) s.rows row j).1,
    λ j y.
        let e = younger row s.turn (suc s.turn) (omega arith) y in
        keep-In (young s.turn) s.rows row e ((i row).1 j e),
  ))

  -- On a server whose clock does not run back, `vacuum` ends after at most five tries. Where it
  -- returns, the rows that are left are exactly those that were no older than the lifetime when
  -- the statement was answered.
  pub vacuum-Vacuumed :
      (s : Store) → Totals (Ends (VacuumInv s.rows) (Vacuumed s.rows)) (vacuum world max_lifetime s)
  unfolding vacuum
  vacuum-Vacuumed s =
      with_cursor-Ends world (execute world (delete_old world max_lifetime)) (VacuumInv s.rows)
        (Vacuumed s.rows)
        (λ t b n l i row. ((i row).0, λ j y. (i row).1 j (younger row t.turn n l y)))
        (λ t i. vacuum_try s.rows (world t.turn).fate t refl i) s (λ row. (λ j. j, λ j y. j))
