-- ===== src/Auditlog/Reach.antt =====
-- The states that the operations of rules reach from a table without rules.
use oca_server_tools.Common.{
  ℕ, ◌≡◌, String, Bool, true, false, Option, none, is_some, ap, sym, ◌∙◌, arith, List, [], elem,
}
use oca_server_tools.Common.Action.{ok}
use oca_server_tools.Auditlog.{Method, Rule}
use oca_server_tools.Auditlog.Registry.{
  Db, Registry, Server, Vals, register_hook, write_rules, create_rule, subscribe, unsubscribe,
  unlink_rules,
}
use oca_server_tools.Auditlog.Patched.{is_patched, IsConsistent}
use oca_server_tools.Auditlog.Subscribed.{Logging, IsSound, restart-IsSound}
use oca_server_tools.Auditlog.Operations.{subscribe-IsSound}
use oca_server_tools.Auditlog.Unsubscribed.{unsubscribe-IsSound, unlink_rules-IsSound}
use oca_server_tools.Auditlog.Reached.{create_rule-IsSound, edit-IsSound}

-- The rules of a recordset are in the table.
abbrev InTable : Db → List ℕ → Type 0
InTable db ids = (i : ℕ) → elem i ids ≡ true → elem i db.rule_ids ≡ true

-- The operations that return. `write` is on drafts, as the form of a rule has it, whose fields are read only
-- while it is subscribed, and leaves `state` to `subscribe` and `unsubscribe`.
pub data Step (pool : String → Bool) (s t : Server) : Type 0 where
  created : (rule : Rule) (id : ℕ) → create_rule pool rule s ≡ (ok id, t) → Step pool s t
  edited :
      (ids : List ℕ) (vals : Vals)
      → InTable s.db ids
      → ((i : ℕ) → elem i ids ≡ true → (s.db.rule i).subscribed ≡ false)
      → ((r : Rule) → (vals.change r).subscribed ≡ r.subscribed)
      → ((r : Rule) → (vals.change r).model_id ≡ r.model_id)
      → write_rules pool ids vals s ≡ (ok tt, t)
      → Step pool s t
  subscribed : (ids : List ℕ) → InTable s.db ids → subscribe pool ids s ≡ (ok tt, t) → Step pool s t
  unsubscribed :
      (ids : List ℕ) → InTable s.db ids → unsubscribe pool ids s ≡ (ok tt, t) → Step pool s t
  unlinked :
      (ids : List ℕ) → InTable s.db ids → unlink_rules pool ids s ≡ (ok tt, t) → Step pool s t

-- A registry whose methods are those of the models
abbrev IsBare : Registry → Type 0
IsBare reg =
    ((m : String) (k : Method) → reg.patched m k ≡ none)
    × ((m : String) (k : Method) → reg.ruled m k ≡ false)

pub data Reach (pool : String → Bool) : Server → Type 0 where
  start : (s : Server) → s.db.rule_ids ≡ [] → IsBare s.registry → Reach pool s
  step : (s t : Server) → Reach pool s → Step pool s t → Reach pool t
  restarted :
      (s : Server) (reg : Registry)
      → Reach pool s
      → IsBare reg
      → Reach pool (record s { registry = (register_hook pool [] (record s { registry = reg })).0 })

Bare-IsConsistent : (reg : Registry) → IsBare reg → IsConsistent reg
Bare-IsConsistent reg (p, r) m k = r m k ∙ ap is_some (sym (p m k))

in_nothing : {ids : List ℕ} (i : ℕ) → ids ≡ [] → elem i ids ≡ true → ⊥
in_nothing i e f = ground (arith, e, f)

some_none : {A : Type 0} {x : Option A} → is_some x ≡ true → x ≡ none → ⊥
some_none e f = ground (arith, e, f)

start-IsSound :
    (pool : String → Bool) (s : Server) → s.db.rule_ids ≡ [] → IsBare s.registry → IsSound pool s
start-IsSound pool s e bare = record {
  consistent = Bare-IsConsistent s.registry bare;
  covered = λ m k id (i, l) f. elim (in_nothing id e i) [ ];
  exact = λ m k f. elim (some_none f (bare.0 m k)) [ ];
  modelled = λ id f. elim (in_nothing id e f) [ ];
  unique = λ i j f g h. elim (in_nothing i e f) [ ];
  fresh = λ id f. elim (in_nothing id e f) [ ];
}

Step-IsSound :
    (pool : String → Bool) (s t : Server) → IsSound pool s → Step pool s t → IsSound pool t
Step-IsSound pool s t h (created rule id e) = create_rule-IsSound pool rule id s t h e
Step-IsSound pool s t h (edited ids vals sub drafts state model e) =
    edit-IsSound pool ids vals s t h sub drafts state model e
Step-IsSound pool s t h (subscribed ids sub e) = subscribe-IsSound pool ids s t h sub e
Step-IsSound pool s t h (unsubscribed ids sub e) = (unsubscribe-IsSound pool ids s t h sub e).0
Step-IsSound pool s t h (unlinked ids sub e) = unlink_rules-IsSound pool ids s t h sub e

Reach-IsSound : (pool : String → Bool) (s : Server) → Reach pool s → IsSound pool s
Reach-IsSound pool s (start _ e bare) = start-IsSound pool s e bare
Reach-IsSound pool t (step s _ r st) = Step-IsSound pool s t (Reach-IsSound pool s r) st
Reach-IsSound pool _ (restarted s reg r bare) =
    restart-IsSound pool s reg (Bare-IsConsistent reg bare) (λ m k. ap is_some (bare.0 m k))
      (Reach-IsSound pool s r)

-- From a table without rules and a registry without patches, let the server make any series of the steps that
-- return: `create` of a rule, `write` on drafts of values other than `state`, `subscribe`, `unsubscribe`, `unlink`, and restarts
-- that hook the subscribed rules again. Then a method of a model of the pool is patched when a subscribed rule
-- of the table logs it, a method that is patched has such a rule, and the attribute `auditlog_ruled_*` of a
-- method says whether it is patched.
pub Reach-Patched :
    (pool : String → Bool) (s : Server)
    → Reach pool s
    → ((m : String) (k : Method) (id : ℕ)
        → Logging s.db m k id
        → pool m ≡ true
        → is_patched s.registry m k ≡ true)
      × ((m : String) (k : Method)
          → is_patched s.registry m k ≡ true
          → (id : ℕ) × Logging s.db m k id)
      × IsConsistent s.registry
Reach-Patched pool s r = let h = Reach-IsSound pool s r in (h.covered, h.exact, h.consistent)
