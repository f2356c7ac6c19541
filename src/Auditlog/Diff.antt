-- ===== src/Auditlog/Diff.antt =====
-- `DictDiffer`: what is new, gone, changed and unchanged between two dictionaries. Its sets are the lists
-- of their keys.
use oca_server_tools.Common.{
  ◌≡◌, refl, String, Bool, false, not, ◌&&◌, Option, none, some, List, [], ◌∷◌, str_eq, eq_iff,
  arith, keep, is_some, Bool-cases, ap, inl, inr,
}
use oca_server_tools.Common.Dict.{Dict, lookup, has, keys}

module _ {V : Type 0} (same : V → V → Bool) where
  -- `added` and `removed`
  unfoldable pub added : Dict V → Dict V → List String
  added current past = keep (λ k. not (has k (keys past))) (keys current)

  unfoldable pub removed : Dict V → Dict V → List String
  removed current past = keep (λ k. not (has k (keys current))) (keys past)

  -- Two values, where both are there.
  abbrev pub differ : Option V → Option V → Bool
  differ none b = false
  differ (some a) none = false
  differ (some a) (some b) = not (same a b)

  abbrev pub agree : Option V → Option V → Bool
  agree none b = false
  agree (some a) none = false
  agree (some a) (some b) = same a b

  -- `changed` and `unchanged`
  unfoldable pub changed : Dict V → Dict V → List String
  changed current past = keep (λ k. differ (lookup k past) (lookup k current)) (keys current)

  unfoldable pub unchanged : Dict V → Dict V → List String
  unchanged current past = keep (λ k. agree (lookup k past) (lookup k current)) (keys current)

has-keep : (p : String → Bool) (k : String) (l : List String) → has k (keep p l) ≡ (has k l && p k)
has-keep p k [] = refl
has-keep p k (x ∷ l) = elim (Bool-cases (str_eq x k)) [
  | inl e ↦ ground (arith, ap p ((eq_iff x k).0 e), has-keep p k l)
  | inr e ↦ ground (arith, has-keep p k l)
]

pub has-keys : {V : Type 0} (k : String) (d : Dict V) → has k (keys d) ≡ is_some (lookup k d)
unfolding lookup
has-keys k [] = refl
has-keys k ((j, v) ∷ d) = ground (arith, has-keys k d)

module _ {V : Type 0} (same : V → V → Bool) (current past : Dict V) where
  -- A key is added when only the current dictionary has it.
  pub has-added :
      (k : String)
      → has k (added same current past)
        ≡ (is_some (lookup k current) && not (is_some (lookup k past)))
  unfolding added
  has-added k = ground (
    arith,
    has-keep (λ j. not (has j (keys past))) k (keys current),
    has-keys k current,
    has-keys k past,
  )

  -- A key is changed when both have it, with different values.
  pub has-changed :
      (k : String)
      → has k (changed same current past) ≡ differ same (lookup k past) (lookup k current)
  unfolding changed
  has-changed k = ground (
    arith,
    has-keep (λ j. differ same (lookup j past) (lookup j current)) k (keys current),
    has-keys k current,
  )
