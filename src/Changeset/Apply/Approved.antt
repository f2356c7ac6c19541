-- ===== src/Changeset/Apply/Approved.antt =====
-- What an approval has done to the changes, and where it returns.
use oca_server_tools.Common.{
  ℕ, ◌≡◌, refl, ap, ◌∙◌, Bool, true, false, some, ◌||◌, List, [], ◌∷◌, any, elem, arith, ◌==◌,
  if◌then◌else◌,
}
use oca_server_tools.Changeset.Orm.{Orm}
use oca_server_tools.Changeset.Rules.{Search}
use oca_server_tools.Changeset.State.{Change, ChangeState, Db, Env, write_change}
use oca_server_tools.Changeset.Apply.{Sorted, target_of, finalize, finalized, forbidden, groupby}
use oca_server_tools.Changeset.Apply.Collect.{pending_in}
use oca_server_tools.Changeset.Apply.Groups.{IsSorted}
use oca_server_tools.Changeset.Apply.Rounds.{Rounds, Storable, Accepts}

module _ {o : Orm} where
  pub change-finalize :
      (env : Env) (state : ChangeState) (ids : List ℕ) (db : Db o) (i : ℕ)
      → (finalize o env state ids db).change i
        ≡ (if elem i ids then finalized o env state (db.change i) else db.change i)
  unfolding finalize
  change-finalize env state [] db i = refl
  change-finalize env state (id ∷ ids) db i =
      change-finalize env state ids (write_change id (finalized o env state) db) i
      ∙ once (id == i) (elem i ids) (ground arith)
    where
      once :
          (b c : Bool)
          → (i == id) ≡ b
          → (if c
              then finalized o env state
                  (if i == id then finalized o env state (db.change i) else db.change i)
              else (if i == id then finalized o env state (db.change i) else db.change i))
            ≡ (if b || c then finalized o env state (db.change i) else db.change i)
      once true true e = rw e
      once true false e = rw e
      once false true e = rw e
      once false false e = rw e

  pub store-finalize :
      (env : Env) (state : ChangeState) (ids : List ℕ) (db : Db o)
      → (finalize o env state ids db).store ≡ db.store
  unfolding finalize
  store-finalize env state [] db = refl
  store-finalize env state (id ∷ ids) db =
      store-finalize env state ids (write_change id (finalized o env state) db)

  -- What an approval has done to the changes: those among `ids` that were pending are done, with who
  -- verified them and when, and otherwise as they were but for their old values; every other change is
  -- as it was.
  pub record Approved (env : Env) (ids : List ℕ) (db db' : Db o) : Type 0 where
    pub state : (i : ℕ) → pending_in db ids i ≡ true → (db'.change i).state ≡ ChangeState.done
    pub verified_by :
        (i : ℕ) → pending_in db ids i ≡ true → (db'.change i).verified_by ≡ some env.uid
    pub verified_on :
        (i : ℕ) → pending_in db ids i ≡ true → (db'.change i).verified_on ≡ some env.now
    pub field : (i : ℕ) → (db'.change i).field ≡ (db.change i).field
    pub new_value : (i : ℕ) → (db'.change i).new_value ≡ (db.change i).new_value
    pub changeset : (i : ℕ) → (db'.change i).changeset ≡ (db.change i).changeset
    pub others : (i : ℕ) → pending_in db ids i ≡ false → db'.change i ≡ db.change i

  pub finalize-Approved :
      (env : Env) (ids oks : List ℕ) (db mid : Db o)
      → Rounds ids [] oks db mid
      → Approved env ids db (finalize o env ChangeState.done oks mid)
  finalize-Approved env ids oks db mid r = record {
    state = λ i h. ap (λ (c : Change o). c.state) (at i) ∙ ground (arith, r.listed i);
    verified_by = λ i h. ap (λ (c : Change o). c.verified_by) (at i) ∙ ground (arith, r.listed i);
    verified_on = λ i h. ap (λ (c : Change o). c.verified_on) (at i) ∙ ground (arith, r.listed i);
    field = λ i. ap (λ (c : Change o). c.field) (at i) ∙ ground (arith, (r.saved.core i).field);
    new_value =
        λ i. ap (λ (c : Change o). c.new_value) (at i) ∙ ground (arith, (r.saved.core i).new_value);
    changeset =
        λ i. ap (λ (c : Change o). c.changeset) (at i) ∙ ground (arith, (r.saved.core i).changeset);
    others = λ i h. at i ∙ ground (arith, r.listed i, r.saved.others i h);
  }
    where
      at :
          (i : ℕ)
          → (finalize o env ChangeState.done oks mid).change i
            ≡ (if elem i oks then finalized o env ChangeState.done (mid.change i) else mid.change i)
      at i = change-finalize env ChangeState.done oks mid i

  pub Rounds-same :
      (ids more : List ℕ) {a b : List ℕ} {db db' : Db o}
      → ((i : ℕ) → elem i ids ≡ elem i more)
      → Rounds ids a b db db'
      → Rounds more a b db db'
  Rounds-same ids more same r = record {
    saved = record {
      core = r.saved.core;
      others = λ i h. r.saved.others i (ground (arith, same i));
    };
    listed = λ i. ground (arith, r.listed i, same i);
  }

  abbrev pub changeset_key : Db o → ℕ → ℕ
  changeset_key db id = (db.change id).changeset

module _ {o : Orm} (search : Search) (sorted : Sorted) (is_sorted : IsSorted sorted) (env : Env)
    (ids : List ℕ) (db : Db o) (allowed : any (forbidden o env db) ids ≡ false)
    (free : env.require_previous_changesets_done ≡ false) (storable : Storable ids db)
    (there : (i : ℕ) → elem i ids ≡ true → o.exists db.store (target_of o db (db.change i)) ≡ true)
    (Good : o.Store → Type 0) (accepts : Accepts o Good) (good : Good db.store) where
  abbrev groups : List (ℕ × List ℕ)
  groups = groupby (changeset_key db) (sorted (changeset_key db) ids)
