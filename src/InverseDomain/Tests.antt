-- ===== src/InverseDomain/Tests.antt =====
-- Domains of numbered tuples, and the theorems applied to them.
use oca_server_tools.Common.{ℕ, ◌≡◌, refl, List, [], ◌∷◌, ◌++◌, map, inl, inr}
use oca_server_tools.Common.Action.{ok, err}
use oca_server_tools.InverseDomain.{
  Operator, and_operator, or_operator, operator, not_operator, leaf, Domain, Error, index_error,
  inverse_combine,
}
use oca_server_tools.InverseDomain.Parts.{singles}
use oca_server_tools.InverseDomain.Inverse.{Group, tuples}
use oca_server_tools.InverseDomain.Combined.{
  concat, CombinesPrefix, parts, reversed, inverse_combine-combine, combine_one_and_group-fails,
  inverse_combine-not,
}

-- `AND` and `OR` on domains that are normalized
abbrev prefixed : Operator → List (Domain ℕ) → Domain ℕ
prefixed o [] = []
prefixed o (d ∷ ds) = map (λ e. operator o) ds ++ concat (d ∷ ds)

prefixed-CombinesPrefix : CombinesPrefix prefixed
prefixed-CombinesPrefix o d ds n = refl

abbrev three : Group ℕ
three = record { first = 1; second = 2; more = 3 ∷ [] }

abbrev two : Group ℕ
two = record { first = 4; second = 5; more = [] }

-- Two different groups come back in the other order.
groups_reversed :
    inverse_combine prefixed and_operator
      (prefixed and_operator (parts prefixed or_operator (three ∷ two ∷ [])))
    ≡ ok (
        prefixed or_operator (singles (tuples two))
        ∷ prefixed or_operator (singles (tuples three))
        ∷ [])
unfolding inverse_combine
groups_reversed = refl

inverse_combine-combine_example :
    ((g : Group ℕ)
      → inverse_combine prefixed and_operator (prefixed and_operator (singles (tuples g)))
        ≡ ok (singles (tuples g)))
    × ((g h : Group ℕ)
        → inverse_combine prefixed and_operator
            (prefixed and_operator (singles (tuples g) ++ parts prefixed or_operator (h ∷ [])))
          ≡ ok (singles (tuples g) ++ parts prefixed or_operator (h ∷ [])))
    × ((g : Group ℕ) (gs : List (Group ℕ))
        → inverse_combine prefixed and_operator
            (prefixed and_operator (parts prefixed or_operator (g ∷ gs)))
          ≡ ok (reversed (parts prefixed or_operator (g ∷ gs))))
inverse_combine-combine_example =
    inverse_combine-combine prefixed prefixed-CombinesPrefix and_operator

combine_one_and_group-fails_example :
    inverse_combine prefixed and_operator
      (prefixed and_operator ((leaf 7 ∷ []) ∷ parts prefixed or_operator (three ∷ [])))
    ≡ err index_error
combine_one_and_group-fails_example =
    combine_one_and_group-fails prefixed prefixed-CombinesPrefix and_operator 7 three

abbrev negated : Domain ℕ
negated = operator and_operator ∷ not_operator ∷ leaf 1 ∷ leaf 2 ∷ []

inverse_combine-not_example : (e : Error) × (inverse_combine prefixed or_operator negated ≡ err e)
inverse_combine-not_example = inverse_combine-not prefixed or_operator negated (inr (inl refl))
