-- ===== src/InverseDomain.antt =====
-- base_domain_inverse_function: `inverse_combine` (inverse_expression.py).
pub mod Parts
pub mod Inverse
pub mod Combined
mod Tests
use oca_server_tools.Common.{
  Bool, true, false, ◌&&◌, Option, none, some, List, [], ◌∷◌, ◌++◌, if◌then◌else◌,
}
use oca_server_tools.Common.Action.{Result, ok, err, and_then}

-- `AND_OPERATOR` and `OR_OPERATOR`, which `DOMAIN_OPERATORS` has
pub data Operator : Type 0 where
  and_operator or_operator : Operator

abbrev pub same_operator : Operator → Operator → Bool
same_operator and_operator and_operator = true
same_operator and_operator or_operator = false
same_operator or_operator and_operator = false
same_operator or_operator or_operator = true

-- An element of a domain in prefix notation: an operator, `NOT_OPERATOR`, or a tuple
pub data Element (L : Type 0) : Type 0 where
  operator : Operator → Element L
  not_operator : Element L
  leaf : L → Element L

abbrev pub Domain : Type 0 → Type 0
Domain L = List (Element L)

-- The exception for `!`, and the `IndexError` of `pop` on an empty list
pub data Error : Type 0 where
  not_supported index_error : Error

-- The variables of `inverse_combine`; the top of `elements_stack` comes first, and `last_element` is kept
-- where it is an operator.
pub record Stacks (L : Type 0) : Type 0 where
  pub result : List (Domain L)
  pub operator_elements_stack : List (Domain L)
  pub other_elements_stack : List (Domain L)
  pub elements_stack : List L
  pub last_element : Option Operator

abbrev pub other_operator : Operator → Operator
other_operator and_operator = or_operator
other_operator or_operator = and_operator

abbrev pub is_empty : {A : Type 0} → List A → Bool
is_empty [] = true
is_empty (x ∷ xs) = false

abbrev pub no_operator : Option Operator → Bool
no_operator none = true
no_operator (some o) = false

module _ {L : Type 0} where
  abbrev pub start : Stacks L
  start = record {
    result = [];
    operator_elements_stack = [];
    other_elements_stack = [];
    elements_stack = [];
    last_element = none;
  }

  -- The pop of the penultimate element, where it is asked for
  abbrev pub pop_second : Bool → List (Domain L) → List L → Result Error (List (Domain L) × List L)
  pop_second false stack elements = ok (stack, elements)
  pop_second true stack [] = err index_error
  pop_second true stack (e ∷ es) = ok (stack ++ (leaf e ∷ []) ∷ [], es)

  -- The pops of step 3, onto the stack of the operator
  abbrev pub pop_elements :
      Option Operator → List (Domain L) → List L → Result Error (List (Domain L) × List L)
  pop_elements last stack [] = ok (stack, [])
  pop_elements last stack (e ∷ es) =
      pop_second (is_empty stack && no_operator last) (stack ++ (leaf e ∷ []) ∷ []) es

  -- Step 3 for the operator of the call
  unfoldable pub reach_operator : Operator → Stacks L → Result Error (Stacks L)
  reach_operator o s =
      and_then (pop_elements s.last_element s.operator_elements_stack s.elements_stack) λ popped.
        ok (record s {
          operator_elements_stack = popped.0;
          elements_stack = popped.1;
          last_element = some o;
        })

  -- Step 3 for the other operator
  unfoldable pub reach_other : Operator → Stacks L → Result Error (Stacks L)
  reach_other o s =
      and_then (pop_elements s.last_element s.other_elements_stack s.elements_stack) λ popped.
        ok (record s {
          other_elements_stack = popped.0;
          elements_stack = popped.1;
          last_element = some o;
        })

  module _ (combine : Operator → List (Domain L) → Domain L) (op : Operator) where
    -- Step 4: `combine` is `operator_func`, which has `AND` and `OR`.
    abbrev pub flush : Option Operator → Stacks L → Stacks L
    flush none s = s
    flush (some o) s =
        if same_operator o op
        then record s {
          result = s.result ++ combine o s.operator_elements_stack ∷ [];
          operator_elements_stack = [];
        }
        else record s {
          result = s.result ++ combine o s.other_elements_stack ∷ [];
          other_elements_stack = [];
        }

    abbrev pub push : L → Stacks L → Stacks L
    push l s = record s { elements_stack = l ∷ s.elements_stack; last_element = none }

    -- The body of the loop
    unfoldable pub step : Element L → Stacks L → Result Error (Stacks L)
    unfolding reach_operator reach_other
    step not_operator s = err not_supported
    step (operator o) s = if same_operator o op then reach_operator o s else reach_other o s
    step (leaf l) s = ok (push l (flush s.last_element s))

    -- The loop over `reversed(domain)`
    unfoldable pub run : Domain L → Result Error (Stacks L)
    unfolding step
    run [] = ok start
    run (e ∷ d) = and_then (run d) (step e)

    abbrev pub with_other : List (Domain L) → List (Domain L) → List (Domain L)
    with_other [] result = result
    with_other (d ∷ ds) result = result ++ combine (other_operator op) (d ∷ ds) ∷ []

    -- Step 5
    abbrev pub empty_stacks : List (Domain L) → List (Domain L) → List (Domain L) → List (Domain L)
    empty_stacks [] other result = with_other other result
    empty_stacks (d ∷ ds) other result = (d ∷ ds) ++ result

    -- `inverse_combine`
    unfoldable pub inverse_combine : Domain L → Result Error (List (Domain L))
    unfolding run
    inverse_combine domain =
        and_then (run domain)
          λ s. ok (empty_stacks s.operator_elements_stack s.other_elements_stack s.result)
