-- ===== src/SessionDb.antt =====
-- session_db: the session store in the table `http_sessions` (pg_session_store.py), with the
-- decorator `with_cursor`, which opens the connection again after a failure.
pub mod Retry
pub mod Stored
pub mod Recovery
mod Tests
use oca_server_tools.Common.{
  ℕ, zero, suc, ◌+◌, ◌-◌, String, Bool, true, false, not, Option, none, some, List, [], ◌∷◌, keep,
  ltb, if◌then◌else◌,
}
use oca_server_tools.Common.Dict.{Dict, lookup, insert, remove}
use oca_server_tools.Common.Action.{Result, ok, err, Action, ◌>>=◌, ◌>>◌, pure, modify}

-- How the server takes a request: it answers, or the connection is lost before or after the
-- statement was executed.
pub data Fate : Type 0 where
  answers lost_before lost_after : Fate

-- The fate of the request and the time on the server, `now() at time zone 'UTC'`.
pub record Turn : Type 0 where
  pub fate : Fate
  pub now : ℕ

-- `psycopg2.InterfaceError` and `psycopg2.OperationalError`
pub data Error : Type 0 where
  operational_error : Error

pub record Row : Type 0 where
  pub write_date : ℕ
  pub payload : String

-- `self._cr is not None`, the number of requests so far, and the table.
pub record Store : Type 0 where
  pub has_cr : Bool
  pub turn : ℕ
  pub rows : Dict Row

pub record Session {ℓ} (D : Type ℓ) : Type ℓ where
  pub sid : String
  pub values : D
  pub is_new : Bool

-- `_close_connection`
unfoldable pub close_connection : Store → Store
close_connection s = record s { has_cr = false }

module _ (world : ℕ → Turn) where
  abbrev connected : Fate → Store → Result Error Unit × Store
  connected answers s = (ok tt, record s { has_cr = true; turn = suc s.turn })
  connected lost_before s = (err operational_error, record s { turn = suc s.turn })
  connected lost_after s = (err operational_error, record s { turn = suc s.turn })

  -- `_open_connection`
  unfoldable pub open_connection : Action Error Store Unit
  unfolding close_connection
  open_connection s = connected (world s.turn).fate (close_connection s)

  -- `_ensure_connection`
  unfoldable pub ensure_connection : Action Error Store Unit
  unfolding open_connection
  ensure_connection s = elim s.has_cr [ true ↦ (ok tt, s) | false ↦ open_connection s ]

  -- `self._cr.execute`: what the statement returns and does to the table.
  abbrev pub executed : {B : Type 0} → Fate → B → Dict Row → Store → Result Error B × Store
  executed answers b rows s = (ok b, record s { turn = suc s.turn; rows = rows })
  executed lost_before b rows s = (err operational_error, record s { turn = suc s.turn })
  executed lost_after b rows s =
      (err operational_error, record s { turn = suc s.turn; rows = rows })

  unfoldable pub execute : {B : Type 0} → (ℕ → Dict Row → B × Dict Row) → Action Error Store B
  execute stmt s =
      let (b, rows) = stmt (world s.turn).now s.rows in executed (world s.turn).fate b rows s

  module _ {B : Type 0} where
    -- `self._ensure_connection()` and the method
    unfoldable pub attempt : Action Error Store B → Action Error Store B
    unfolding ensure_connection
    attempt f = ensure_connection >> f

    abbrev pub settle :
        Result Error B
        → Store
        → Bool
        → Option (Result Error B × Store)
        → Option (Result Error B × Store)
    settle (ok b) s last rest = some (ok b, s)
    settle (err operational_error) s last rest =
        if last then some (err operational_error, close_connection s) else rest

    -- The loop of `with_cursor` with the number of tries before, `none` where the fuel ends.
    unfoldable pub retry : ℕ → ℕ → Action Error Store B → Store → Option (Result Error B × Store)
    unfolding attempt close_connection
    retry zero tries f s = none
    retry (suc fuel) tries f s =
        let (r, s') = attempt f s in
        let rest = retry fuel (suc tries) f (close_connection s') in
        settle r s' (ltb 4 (suc tries)) rest

    -- `with_cursor`
    unfoldable pub with_cursor : Action Error Store B → Store → Option (Result Error B × Store)
    unfolding retry
    with_cursor f s = retry 5 0 f s

  -- `INSERT ... ON CONFLICT (sid) DO UPDATE SET payload, write_date`
  abbrev pub upsert : String → String → ℕ → Dict Row → Unit {0} × Dict Row
  upsert sid payload now rows =
      (tt, insert sid (record { write_date = now; payload = payload }) rows)

  -- `DELETE FROM http_sessions WHERE sid=%s`
  abbrev pub delete_sid : String → ℕ → Dict Row → Unit {0} × Dict Row
  delete_sid sid now rows = (tt, remove sid rows)

  -- `SELECT payload FROM http_sessions WHERE sid=%s`, and `fetchone`
  abbrev pub select_sid : String → ℕ → Dict Row → Option Row × Dict Row
  select_sid sid now rows = (lookup sid rows, rows)

  -- `DELETE FROM http_sessions WHERE now() at time zone 'UTC' - write_date > %s`
  abbrev pub delete_old : ℕ → ℕ → Dict Row → Unit {0} × Dict Row
  delete_old max_lifetime now rows =
      (tt, keep (λ row. not (ltb max_lifetime (now - row.1.write_date))) rows)

  -- `delete`
  unfoldable pub delete : String → Store → Option (Result Error Unit × Store)
  unfolding with_cursor execute
  delete sid = with_cursor (execute (delete_sid sid))

  -- `vacuum`
  unfoldable pub vacuum : ℕ → Store → Option (Result Error Unit × Store)
  unfolding with_cursor execute
  vacuum max_lifetime = with_cursor (execute (delete_old max_lifetime))

  -- The values of a session, a `dict` in the source, with `json.dumps` and `json.loads` (`none` where it raises), and
  -- `SessionStore.new` at that request.
  module _ {D : Type 0} (dumps : D → String) (loads : String → Option D) (new : ℕ → Session D) where
    -- `save`
    unfoldable pub save : Session D → Store → Option (Result Error Unit × Store)
    unfolding with_cursor execute
    save session = with_cursor (execute (upsert session.sid (dumps session.values)))

    abbrev read_data : ℕ → String → Option D → Session D
    read_data turn sid none = new turn
    read_data turn sid (some values) = record { sid = sid; values = values; is_new = false }

    -- `json.loads(self._cr.fetchone()[0])`, with `self.new()` on any exception
    abbrev pub read_row : ℕ → String → Option Row → Session D
    read_row turn sid none = new turn
    read_row turn sid (some row) = read_data turn sid (loads row.payload)

    -- `get`
    unfoldable pub get : String → Store → Option (Result Error (Session D) × Store)
    unfolding with_cursor execute
    get sid = with_cursor (execute (select_sid sid) >>= λ row s. (ok (read_row s.turn sid row), s))
