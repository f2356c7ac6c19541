-- ===== src/InverseDomain/Inverse.antt =====
-- What `inverse_combine` returns, and where it raises.
use oca_server_tools.Common.{
  ◌≡◌, refl, sym, ap, ◌∙◌, Option, none, some, List, [], ◌∷◌, ◌++◌, append-nil, map,
}
use oca_server_tools.Common.Action.{ok, and_then}
use oca_server_tools.InverseDomain.{
  Operator, operator, Domain, Stacks, other_operator, start, reach_operator, flush, run,
  empty_stacks, inverse_combine,
}
use oca_server_tools.InverseDomain.Parts.{
  singles, flat, at, other_differs, run_element, step-operator, run-flat, run_other_flat,
}

-- Two tuples or more
pub record Group (L : Type 0) : Type 0 where
  pub first : L
  pub second : L
  pub more : List L

module _ {L : Type 0} where
  abbrev pub tuples : Group L → List L
  tuples g = g.first ∷ g.second ∷ g.more

  abbrev pub joined : Operator → Group L → Domain L
  joined o g = flat o g.first g.second g.more

  abbrev pub all_joined : Operator → List (Group L) → Domain L
  all_joined o [] = []
  all_joined o (g ∷ gs) = joined o g ++ all_joined o gs

  module _ (combine : Operator → List (Domain L) → Domain L) (op : Operator) where
    pub inverse-run :
        (d : Domain L) (s : Stacks L)
        → run combine op d ≡ ok s
        → inverse_combine combine op d
          ≡ ok (empty_stacks combine op s.operator_elements_stack s.other_elements_stack s.result)
    unfolding inverse_combine
    inverse-run d s h =
        ap
          (λ r. and_then r (λ s.
            ok (empty_stacks combine op s.operator_elements_stack s.other_elements_stack s.result)))
          h

    pub flush-other :
        (result others : List (Domain L))
        → flush combine op
            (some (other_operator op))
            (at result [] others [] (some (other_operator op)))
          ≡ at
              (result ++ combine (other_operator op) others ∷ [])
              []
              []
              []
              (some (other_operator op))
    flush-other result others = rw (other_differs op) refl

    run-nil : run combine op [] ≡ ok start
    unfolding run
    run-nil = refl

    -- The combined groups, the last one first
    abbrev pub combined : List (Group L) → List (Domain L)
    combined [] = []
    combined (g ∷ gs) = combined gs ++ combine (other_operator op) (singles (tuples g)) ∷ []

    -- After groups of tuples that the other operator joins, the first group is on its stack.
    pub run_groups :
        (g : Group L) (gs : List (Group L))
        → run combine op (all_joined (other_operator op) (g ∷ gs))
          ≡ ok (at (combined gs) [] (singles (tuples g)) [] (some (other_operator op)))
    run_groups g [] =
        run_other_flat combine op g.first g.second g.more [] start [] [] none run-nil refl
    run_groups g (h ∷ gs) =
        run_other_flat combine op g.first g.second g.more (all_joined (other_operator op) (h ∷ gs))
          (at (combined gs) [] (singles (tuples h)) [] (some (other_operator op)))
          (combined (h ∷ gs)) [] (some (other_operator op)) (run_groups h gs)
          (flush-other (combined gs) (singles (tuples h)))

    -- Where no elements are left, an operator pops nothing.
    run_no_elements :
        {A : Type 0} (xs : List A) (d : Domain L) (result operators others : List (Domain L))
        (last : Option Operator)
        → run combine op d ≡ ok (at result operators others [] last)
        → (last' : Option Operator) × (run combine op (map (λ x. operator op) xs ++ d)
            ≡ ok (at result operators others [] last'))
    unfolding reach_operator
    run_no_elements [] d result operators others last h = (last, h)
    run_no_elements (x ∷ xs) d result operators others last h =
        let (last', k) = run_no_elements xs d result operators others last h in
        (
          some op,
          run_element combine op (operator op) (map (λ x. operator op) xs ++ d)
              (at result operators others [] last') _ k
              (step-operator combine op (at result operators others [] last') ∙ refl),
        )

    -- Two tuples or more, joined by the operator: each tuple is a part, in their order.
    pub inverse_combine-flat :
        (g : Group L) → inverse_combine combine op (joined op g) ≡ ok (singles (tuples g))
    inverse_combine-flat g =
        ap (inverse_combine combine op) (sym (append-nil (joined op g)))
        ∙ inverse-run (joined op g ++ []) _
            (run-flat combine op g.first g.second g.more [] start [] [] none run-nil refl)
        ∙ ap ok (append-nil (singles (tuples g)))

    -- Tuples joined by the operator, and with them one group that the other operator joins.
    pub inverse_combine-mixed :
        (g h : Group L)
        → inverse_combine combine op (operator op ∷ (joined op g ++ joined (other_operator op) h))
          ≡ ok (singles (tuples g) ++ combine (other_operator op) (singles (tuples h)) ∷ [])
    inverse_combine-mixed g h =
        let group =
          ap (run combine op) (sym (append-nil (joined (other_operator op) h))) ∙ run_groups h [] in
        let both =
          run-flat combine op g.first g.second g.more (joined (other_operator op) h)
            (at [] [] (singles (tuples h)) [] (some (other_operator op)))
            (combine (other_operator op) (singles (tuples h)) ∷ []) [] (some (other_operator op))
            group (flush-other [] (singles (tuples h))) in
        let (last, all) =
          run_no_elements (tt {0} ∷ []) (joined op g ++ joined (other_operator op) h)
            (combine (other_operator op) (singles (tuples h)) ∷ []) (singles (tuples g)) []
            (some op) both in
        inverse-run _ _ all

    -- Groups of two tuples or more, joined by the other operator within each of them and by the operator between
    -- them: each group is a part, but the last group comes first.
    pub inverse_combine-groups :
        (g : Group L) (gs : List (Group L))
        → inverse_combine combine op
            (map (λ g. operator op) gs ++ all_joined (other_operator op) (g ∷ gs))
          ≡ ok (combined (g ∷ gs))
    inverse_combine-groups g gs =
        let (last, all) =
          run_no_elements gs (all_joined (other_operator op) (g ∷ gs)) (combined gs) []
            (singles (tuples g)) (some (other_operator op)) (run_groups g gs) in
        inverse-run _ _ all
