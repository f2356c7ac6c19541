-- ===== src/Changeset/Rules/Precedence.antt =====
-- The rule that `_get_rules` answers for a field.
use oca_server_tools.Common.{
  ℕ, ◌<◌, String, ◌≡◌, ◌≢◌, Bool, true, Option, none, some, List, [], ◌∷◌, All, In, str_eq,
  if◌then◌else◌,
}
use oca_server_tools.Common.Dict.{lookup, Dict}
use oca_server_tools.Changeset.Rules.{Rule, Search, in_search_domain}

-- The first rule of a field in a list of rules, a description with no dictionary.
abbrev pub first_for : String → List Rule → Option ℕ
first_for f [] = none
first_for f (rule ∷ rules) = if str_eq rule.field.name f then some rule.id else first_for f rules

abbrev NonZero : Dict ℕ → Type 0
NonZero d = (f : String) (n : ℕ) → lookup f d ≡ some n → 0 < n

-- What `search` documents: it gives the rows that pass the test, each row in the list, and with
-- the order "source_model_id ASC" the rules with no source model stand last.
abbrev pub SourcesFirst : List Rule → Type 0
SourcesFirst [] = Unit
SourcesFirst (r ∷ rs) =
    (r.source_model ≡ none → All (λ q. q.source_model ≡ none) rs) × SourcesFirst rs

pub record IsSearch (search : Search) : Type 0 where
  pub sound :
      (p : Rule → Bool) (rows : List Rule) (r : Rule)
      → In r (search p rows)
      → (p r ≡ true) × In r rows
  pub complete :
      (p : Rule → Bool) (rows : List Rule) (r : Rule)
      → p r ≡ true
      → In r rows
      → In r (search p rows)
  pub ordered : (p : Rule → Bool) (rows : List Rule) → SourcesFirst (search p rows)

-- The first rule for `f` in `rules`, and what it is to another rule `r` for `f`.
record First (f : String) (r : Rule) (rules : List Rule) : Type 0 where
  rule : Rule
  listed : In rule rules
  of_field : rule.field.name ≡ f
  first : first_for f rules ≡ some rule.id
  prefers : SourcesFirst rules → r.source_model ≢ none → rule.source_model ≢ none

-- A rule that `_get_rules` answers for a field: a row of the table, for the record's model and that
-- field, global or of the source model; and not a global rule where `r` has a source model.
pub record Answer (source model f : String) (r : Rule) (rows : List Rule) (result : Dict ℕ)
    : Type 0 where
  pub rule : Rule
  pub row : In rule rows
  pub in_domain : in_search_domain source model rule ≡ true
  pub of_field : rule.field.name ≡ f
  pub answered : lookup f result ≡ some rule.id
  pub prefers : r.source_model ≢ none → rule.source_model ≢ none
