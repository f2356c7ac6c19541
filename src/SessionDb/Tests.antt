-- ===== src/SessionDb/Tests.antt =====
-- A server that loses two of its first connections, and the theorems applied to it.
use oca_server_tools.Common.{
  arith, ℕ, ◌≡◌, refl, String, true, false, Option, some, [], ◌∷◌, ◌==◌, if◌then◌else◌,
}
use oca_server_tools.Common.Action.{ok}
use oca_server_tools.Common.Dict.{insert, lookup}
use oca_server_tools.SessionDb.{
  answers, lost_before, lost_after, Turn, Store, Session, save, get, vacuum,
}
use oca_server_tools.SessionDb.Retry.{Ends}
use oca_server_tools.SessionDb.Recovery.{save-recovers}
use oca_server_tools.SessionDb.Stored.{
  Totals, SaveInv, Saved, IsRead, VacuumInv, Vacuumed, save-Saved, get-Read, get-save,
  vacuum-Vacuumed,
}

-- The first request finds no server; the third is executed but its answer is lost.
abbrev world : ℕ → Turn
world t = record {
  fate = if t == 0 then lost_before else if t == 2 then lost_after else answers;
  now = t;
}

abbrev dumps : String → String
dumps d = d

abbrev loads : String → Option String
loads text = some text

abbrev new : ℕ → Session String
new turn = record { sid = "new"; values = "{}"; is_new = true }

abbrev closed : Store
closed = record {
  has_cr = false;
  turn = 0;
  rows = ("old", record { write_date = 0; payload = "{}" }) ∷ [];
}

abbrev session : Session String
session = record { sid = "abc"; values = "{user: 2}"; is_new = true }

abbrev saved : Store
saved = record {
  has_cr = true;
  turn = 5;
  rows =
      ("old", record { write_date = 0; payload = "{}" })
      ∷ ("abc", record { write_date = 4; payload = "{user: 2}" })
      ∷ [];
}

-- `save` needs three tries.
saved_after : save world dumps loads new session closed ≡ some (ok tt, saved)
unfolding save insert
saved_after = refl

save-Saved_example :
    Totals
      (Ends
        (SaveInv world dumps loads new session closed.rows)
        (Saved world dumps loads new session closed.rows))
      (save world dumps loads new session closed)
save-Saved_example = save-Saved world dumps loads new session closed

get-Read_example :
    Totals
      (Ends (λ t. t.rows ≡ saved.rows) (IsRead world dumps loads new "abc" saved.rows))
      (get world dumps loads new "abc" saved)
get-Read_example = get-Read world dumps loads new "abc" saved

abbrev restored : Session String
restored = record { sid = "abc"; values = "{user: 2}"; is_new = false }

get-save_example : restored ≡ record { sid = "abc"; values = "{user: 2}"; is_new = false }
unfolding save get insert lookup
get-save_example =
    get-save world dumps loads new session closed saved (record saved { turn = 6 }) restored refl
      refl refl

vacuum-Vacuumed_example :
    Totals
      (Ends (VacuumInv world 3 (λ t u l. l) saved.rows) (Vacuumed world 3 (λ t u l. l) saved.rows))
      (vacuum world 3 saved)
vacuum-Vacuumed_example = vacuum-Vacuumed world 3 (λ t u l. l) saved

save-recovers_example :
    (t : Store) × (save world dumps loads new session closed ≡ some (ok tt, t))
    × Saved world dumps loads new session closed.rows tt t
save-recovers_example =
    save-recovers world dumps loads new session closed (λ t l. ground (arith, l))
