-- ===== src/InverseDomain/Parts.antt =====
-- The parts that `inverse_combine` finds in a domain.
use oca_server_tools.Common.{
  ◌≡◌, refl, sym, ap, ◌∙◌, true, false, Option, none, some, List, [], ◌∷◌, ◌++◌, append_assoc,
  append-nil, map,
}
use oca_server_tools.Common.Action.{ok, and_then}
use oca_server_tools.InverseDomain.{
  Operator, and_operator, or_operator, same_operator, Element, operator, leaf, Domain, Stacks,
  other_operator, reach_operator, reach_other, flush, step, run,
}

pub same_operator_refl : (o : Operator) → same_operator o o ≡ true
same_operator_refl and_operator = refl
same_operator_refl or_operator = refl

pub other_differs : (o : Operator) → same_operator (other_operator o) o ≡ false
other_differs and_operator = refl
other_differs or_operator = refl

module _ {L : Type 0} where
  -- `[[x], [y], ...]`
  abbrev pub singles : List L → List (Domain L)
  singles xs = map (λ x. leaf x ∷ []) xs

  -- The tuples, joined by an operator in prefix notation: one operator less than there are tuples.
  abbrev pub flat : Operator → L → L → List L → Domain L
  flat o x y zs = map (λ z. operator o) zs ++ operator o ∷ map leaf (x ∷ y ∷ zs)

  pub shift :
      (o : Operator) (zs : List L) (d : Domain L)
      → map (λ z. operator o) zs ++ operator o ∷ d ≡ operator o ∷ (map (λ z. operator o) zs ++ d)
  shift o [] d = refl
  shift o (z ∷ zs) d = ap (λ d. operator o ∷ d) (shift o zs d)

  abbrev pub at :
      List (Domain L) → List (Domain L) → List (Domain L) → List L → Option Operator → Stacks L
  at result operators others elements last = record {
    result = result;
    operator_elements_stack = operators;
    other_elements_stack = others;
    elements_stack = elements;
    last_element = last;
  }

  module _ (combine : Operator → List (Domain L) → Domain L) (op : Operator) where
    -- After an element, what `step` makes of the stacks.
    pub run_element :
        (e : Element L) (d : Domain L) (s t : Stacks L)
        → run combine op d ≡ ok s
        → step combine op e s ≡ ok t
        → run combine op (e ∷ d) ≡ ok t
    unfolding run
    run_element e d s t h k = ap (λ r. and_then r (step combine op e)) h ∙ k

    pub step-operator : (s : Stacks L) → step combine op (operator op) s ≡ reach_operator op s
    unfolding step
    step-operator s = rw (same_operator_refl op) refl

    pub step-other :
        (s : Stacks L)
        → step combine op (operator (other_operator op)) s ≡ reach_other (other_operator op) s
    unfolding step
    step-other s = rw (other_differs op) refl

    -- After tuples, which empty a stack where an operator was last, the elements are on their stack.
    pub run_leaves :
        (x : L) (xs : List L) (d : Domain L) (s : Stacks L)
        → run combine op d ≡ ok s
        → run combine op (map leaf (x ∷ xs) ++ d)
          ≡ ok (
              at
                (flush combine op s.last_element s).result
                (flush combine op s.last_element s).operator_elements_stack
                (flush combine op s.last_element s).other_elements_stack
                (x ∷ xs ++ (flush combine op s.last_element s).elements_stack)
                none)
    unfolding step
    run_leaves x [] d s h = run_element (leaf x) d s _ h refl
    run_leaves x (y ∷ ys) d s h =
        run_element (leaf x) (map leaf (y ∷ ys) ++ d) _ _ (run_leaves y ys d s h) refl

    -- The operator pops one tuple each time, once there is something on its stack.
    run_operators :
        (zs : List L) (g : Domain L) (gs result others : List (Domain L)) (d : Domain L)
        → run combine op d ≡ ok (at result (g ∷ gs) others zs (some op))
        → run combine op (map (λ z. operator op) zs ++ d)
          ≡ ok (at result (g ∷ gs ++ singles zs) others [] (some op))
    unfolding reach_operator
    run_operators [] g gs result others d h =
        h ∙ ap (λ l. ok (at result (g ∷ l) others [] (some op))) (sym (append-nil gs))
    run_operators (z ∷ zs) g gs result others d h =
        ap (run combine op) (sym (shift op zs d))
        ∙ run_operators zs g (gs ++ (leaf z ∷ []) ∷ []) result others (operator op ∷ d) (
            run_element (operator op) d (at result (g ∷ gs) others (z ∷ zs) (some op)) _ h
              (step-operator (at result (g ∷ gs) others (z ∷ zs) (some op)) ∙ refl))
        ∙ ap (λ l. ok (at result (g ∷ l) others [] (some op)))
            (append_assoc gs ((leaf z ∷ []) ∷ []) (singles zs))

    run_others :
        (zs : List L) (g : Domain L) (gs result operators : List (Domain L)) (d : Domain L)
        → run combine op d ≡ ok (at result operators (g ∷ gs) zs (some (other_operator op)))
        → run combine op (map (λ z. operator (other_operator op)) zs ++ d)
          ≡ ok (at result operators (g ∷ gs ++ singles zs) [] (some (other_operator op)))
    unfolding reach_other
    run_others [] g gs result operators d h =
        h
        ∙ ap (λ l. ok (at result operators (g ∷ l) [] (some (other_operator op))))
            (sym (append-nil gs))
    run_others (z ∷ zs) g gs result operators d h =
        ap (run combine op) (sym (shift (other_operator op) zs d))
        ∙ run_others zs g (gs ++ (leaf z ∷ []) ∷ []) result operators
            (operator (other_operator op) ∷ d)
            (run_element (operator (other_operator op)) d
              (at result operators (g ∷ gs) (z ∷ zs) (some (other_operator op))) _ h
              (step-other (at result operators (g ∷ gs) (z ∷ zs) (some (other_operator op)))
                ∙ refl))
        ∙ ap (λ l. ok (at result operators (g ∷ l) [] (some (other_operator op))))
            (append_assoc gs ((leaf z ∷ []) ∷ []) (singles zs))

    -- The tuples that the operator joins are on its stack, one by one, where it was empty.
    pub run-flat :
        (x y : L) (zs : List L) (d : Domain L) (s : Stacks L) (result others : List (Domain L))
        (last : Option Operator)
        → run combine op d ≡ ok s
        → flush combine op s.last_element s ≡ at result [] others [] last
        → run combine op (flat op x y zs ++ d)
          ≡ ok (at result (singles (x ∷ y ∷ zs)) others [] (some op))
    unfolding reach_operator
    run-flat x y zs d s result others last h f =
        ap (run combine op)
          (append_assoc (map (λ z. operator op) zs) (operator op ∷ map leaf (x ∷ y ∷ zs)) d)
        ∙ run_operators zs (leaf x ∷ []) ((leaf y ∷ []) ∷ []) result others
            (operator op ∷ map leaf (x ∷ y ∷ zs) ++ d)
            (run_element (operator op) (map leaf (x ∷ y ∷ zs) ++ d)
              (at result [] others (x ∷ y ∷ zs) none) _
              (run_leaves x (y ∷ zs) d s h
                ∙ ap
                    (λ t. ok (
                      at t.result t.operator_elements_stack t.other_elements_stack
                        (x ∷ y ∷ zs ++ t.elements_stack) none))
                    f
                ∙ ap (λ l. ok (at result [] others (x ∷ y ∷ l) none)) (append-nil zs))
              (step-operator (at result [] others (x ∷ y ∷ zs) none) ∙ refl))

    -- The tuples that the other operator joins are on its stack, one by one, where it was empty.
    pub run_other_flat :
        (x y : L) (zs : List L) (d : Domain L) (s : Stacks L) (result operators : List (Domain L))
        (last : Option Operator)
        → run combine op d ≡ ok s
        → flush combine op s.last_element s ≡ at result operators [] [] last
        → run combine op (flat (other_operator op) x y zs ++ d)
          ≡ ok (at result operators (singles (x ∷ y ∷ zs)) [] (some (other_operator op)))
    unfolding reach_other
    run_other_flat x y zs d s result operators last h f =
        ap (run combine op) (
          append_assoc (map (λ z. operator (other_operator op)) zs)
            (operator (other_operator op) ∷ map leaf (x ∷ y ∷ zs)) d)
        ∙ run_others zs (leaf x ∷ []) ((leaf y ∷ []) ∷ []) result operators
            (operator (other_operator op) ∷ map leaf (x ∷ y ∷ zs) ++ d)
            (run_element (operator (other_operator op)) (map leaf (x ∷ y ∷ zs) ++ d)
              (at result operators [] (x ∷ y ∷ zs) none) _
              (run_leaves x (y ∷ zs) d s h
                ∙ ap
                    (λ t. ok (
                      at t.result t.operator_elements_stack t.other_elements_stack
                        (x ∷ y ∷ zs ++ t.elements_stack) none))
                    f
                ∙ ap (λ l. ok (at result operators [] (x ∷ y ∷ l) none)) (append-nil zs))
              (step-other (at result operators [] (x ∷ y ∷ zs) none) ∙ refl))
