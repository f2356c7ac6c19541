-- ===== src/Changeset/Rules/Cached.antt =====
-- The cached answer of `get_rules` is never another than the table's.
use oca_server_tools.Common.{ℕ, String, ◌≡◌, Option, none, some, List, [], ◌∷◌, Bool}
use oca_server_tools.Common.Dict.{Dict, lookup}
use oca_server_tools.Common.Action.{Action, Result, ok, err}
use oca_server_tools.Changeset.Rules.{
  Rule, RuleBase, Search, browse, cached, compute_rules, get_rules, create, write, unlink,
}

-- The transaction of a call: what a call that raises did to the rows is rolled back. The cache is in
-- memory, so it stays as the call left it.
abbrev pub committed : {A : Type 0} → RuleBase → Result String A × RuleBase → RuleBase
committed base (ok a, after) = after
committed base (err e, after) = record after { rows = base.rows }

-- Each key stands once.
abbrev HasOnce : Dict ℕ → Type 0
HasOnce [] = Unit
HasOnce ((k, v) ∷ d) = (lookup k d ≡ none) × HasOnce d

-- The record of an id, with its row where it has one
abbrev pub browsed : List Rule → Option ℕ → Option (Option Rule)
browsed rows none = none
browsed rows (some id) = some (browse rows id)

module _ (search : Search) where
  -- One call of a method of the model, whatever the overridden method does.
  pub data Step (Vals : Type 0) : RuleBase → RuleBase → Type 0 where
    got :
        (source model : String) (base : RuleBase)
        → Step Vals base (get_rules search source model base).1
    created :
        (super : List Vals → Action String (List Rule) (List ℕ)) (vals_list : List Vals)
        (base : RuleBase)
        → Step Vals base (committed base (create super vals_list base))
    written :
        (super : List ℕ → Vals → Action String (List Rule) Bool) (ids : List ℕ) (vals : Vals)
        (base : RuleBase)
        → Step Vals base (committed base (write super ids vals base))
    unlinked :
        (super : List ℕ → Action String (List Rule) Bool) (ids : List ℕ) (base : RuleBase)
        → Step Vals base (committed base (unlink super ids base))

  -- A series of calls
  pub data Reach (Vals : Type 0) (start : RuleBase) : RuleBase → Type 0 where
    here : Reach Vals start start
    step :
        (mid after : RuleBase) → Reach Vals start mid → Step Vals mid after → Reach Vals start after

  -- Every kept answer is the one that the rows give now.
  abbrev IsCoherent : RuleBase → Type 0
  IsCoherent base =
      (source model : String)
      → cached (base.cache source model) (compute_rules search base.rows source model)
        ≡ compute_rules search base.rows source model
