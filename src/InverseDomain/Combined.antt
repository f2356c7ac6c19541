-- ===== src/InverseDomain/Combined.antt =====
-- `inverse_combine` after `AND` and `OR`, and the domains that it refuses.
use oca_server_tools.Common.{
  ◌≡◌, refl, sym, ap, ◌∙◌, subst, none, some, List, [], ◌∷◌, ◌++◌, append_assoc, append-nil, map,
  All, inl, inr, In,
}
use oca_server_tools.Common.Action.{ok, err, and_then, Result-cases}
use oca_server_tools.InverseDomain.{
  Operator, operator, not_operator, leaf, Domain, Error, not_supported, index_error, other_operator,
  reach_operator, step, run, inverse_combine,
}
use oca_server_tools.InverseDomain.Parts.{singles, at, step-operator, shift, run_leaves}
use oca_server_tools.InverseDomain.Inverse.{
  Group, tuples, joined, all_joined, combined, inverse_combine-flat, inverse_combine-mixed,
  inverse_combine-groups, run_groups, flush-other,
}

-- A normalized domain without `!`: each operator stands before its two operands.
pub data IsNormal {L : Type 0} : Domain L → Type 0 where
  tuple : (l : L) → IsNormal (leaf l ∷ [])
  both :
      (o : Operator) (d e : Domain L) → IsNormal d → IsNormal e → IsNormal (operator o ∷ (d ++ e))

abbrev pub reversed : {A : Type 0} → List A → List A
reversed [] = []
reversed (x ∷ xs) = reversed xs ++ x ∷ []

module _ {L : Type 0} where
  abbrev pub concat : List (Domain L) → Domain L
  concat [] = []
  concat (d ∷ ds) = d ++ concat ds

  -- `AND` and `OR` put the domains, which are normalized, one after the other, behind one operator less than
  -- there are domains.
  abbrev pub CombinesPrefix : (Operator → List (Domain L) → Domain L) → Type 0
  CombinesPrefix combine =
      (o : Operator) (d : Domain L) (ds : List (Domain L))
      → All IsNormal (d ∷ ds)
      → combine o (d ∷ ds) ≡ map (λ e. operator o) ds ++ concat (d ∷ ds)

  spine-IsNormal :
      (o : Operator) (zs : List L) (d : Domain L)
      → IsNormal d
      → IsNormal (map (λ z. operator o) zs ++ (d ++ map leaf zs))
  spine-IsNormal o [] d n = subst IsNormal (sym (append-nil d)) n
  spine-IsNormal o (z ∷ zs) d n =
      subst IsNormal
        (ap (λ e. map (λ z. operator o) zs ++ operator o ∷ e)
            (append_assoc d (leaf z ∷ []) (map leaf zs))
          ∙ shift o zs (d ++ leaf z ∷ map leaf zs))
        (spine-IsNormal o zs (operator o ∷ (d ++ leaf z ∷ [])) (both o d (leaf z ∷ []) n (tuple z)))

  joined-IsNormal : (o : Operator) (g : Group L) → IsNormal (joined o g)
  joined-IsNormal o g =
      spine-IsNormal o g.more (operator o ∷ leaf g.first ∷ leaf g.second ∷ [])
        (both o (leaf g.first ∷ []) (leaf g.second ∷ []) (tuple g.first) (tuple g.second))

  singles-AreNormal : (xs : List L) → All IsNormal (singles xs)
  singles-AreNormal [] = tt
  singles-AreNormal (x ∷ xs) = (tuple x, singles-AreNormal xs)

  concat-singles : (xs : List L) → concat (singles xs) ≡ map leaf xs
  concat-singles [] = refl
  concat-singles (x ∷ xs) = ap (λ d. leaf x ∷ d) (concat-singles xs)

  operators-singles :
      (o : Operator) (xs : List L) (d : Domain L)
      → map (λ e. operator o) (singles xs) ++ d ≡ map (λ x. operator o) xs ++ d
  operators-singles o [] d = refl
  operators-singles o (x ∷ xs) d = ap (λ d. operator o ∷ d) (operators-singles o xs d)

  operators_over :
      (o : Operator) (xs : List L) (ds : List (Domain L)) (d : Domain L)
      → map (λ e. operator o) (singles xs ++ ds) ++ d
        ≡ map (λ x. operator o) xs ++ (map (λ e. operator o) ds ++ d)
  operators_over o [] ds d = refl
  operators_over o (x ∷ xs) ds d = ap (λ d. operator o ∷ d) (operators_over o xs ds d)

  concat_over :
      (xs : List L) (ds : List (Domain L)) → concat (singles xs ++ ds) ≡ map leaf xs ++ concat ds
  concat_over [] ds = refl
  concat_over (x ∷ xs) ds = ap (λ d. leaf x ∷ d) (concat_over xs ds)

  singles_and-AreNormal :
      (xs : List L) (ds : List (Domain L)) → All IsNormal ds → All IsNormal (singles xs ++ ds)
  singles_and-AreNormal [] ds h = h
  singles_and-AreNormal (x ∷ xs) ds h = (tuple x, singles_and-AreNormal xs ds h)

  -- The parts of groups, each joined by an operator
  abbrev pub parts :
      (Operator → List (Domain L) → Domain L) → Operator → List (Group L) → List (Domain L)
  parts combine o gs = map (λ g. combine o (singles (tuples g))) gs

  module _ (combine : Operator → List (Domain L) → Domain L) (prefix : CombinesPrefix combine) where
    combine-singles : (o : Operator) (g : Group L) → combine o (singles (tuples g)) ≡ joined o g
    combine-singles o g =
        prefix o (leaf g.first ∷ []) (singles (g.second ∷ g.more)) (singles-AreNormal (tuples g))
        ∙ ap (λ d. operator o ∷ d)
            (operators-singles o g.more (concat (singles (tuples g)))
              ∙ ap (λ d. map (λ x. operator o) g.more ++ d) (concat-singles (tuples g)))
        ∙ sym (shift o g.more (map leaf (tuples g)))

    combined-reversed :
        (op : Operator) (gs : List (Group L))
        → combined combine op gs ≡ reversed (parts combine (other_operator op) gs)
    combined-reversed op [] = refl
    combined-reversed op (g ∷ gs) =
        ap (λ l. l ++ combine (other_operator op) (singles (tuples g)) ∷ [])
          (combined-reversed op gs)

    parts-AreNormal : (o : Operator) (gs : List (Group L)) → All IsNormal (parts combine o gs)
    parts-AreNormal o [] = tt
    parts-AreNormal o (g ∷ gs) =
        (subst IsNormal (sym (combine-singles o g)) (joined-IsNormal o g), parts-AreNormal o gs)

    concat-parts :
        (o : Operator) (gs : List (Group L)) → concat (parts combine o gs) ≡ all_joined o gs
    concat-parts o [] = refl
    concat-parts o (g ∷ gs) = λ i. combine-singles o g i ++ concat-parts o gs i

    operators-parts :
        (op o : Operator) (gs : List (Group L)) (d : Domain L)
        → map (λ e. operator op) (parts combine o gs) ++ d ≡ map (λ g. operator op) gs ++ d
    operators-parts op o [] d = refl
    operators-parts op o (g ∷ gs) d = ap (λ d. operator op ∷ d) (operators-parts op o gs d)

    -- Where `AND` and `OR` put normalized domains behind their operators: the inverse for an operator of the
    -- domain combined of two tuples or more is these tuples, each of them a domain, in their order; where a
    -- group of two tuples or more, combined by the other operator, comes after them, it is the last part. The
    -- inverse of such groups alone has these groups, but the last one first.
    pub inverse_combine-combine :
        (op : Operator)
        → ((g : Group L)
            → inverse_combine combine op (combine op (singles (tuples g)))
              ≡ ok (singles (tuples g)))
          × ((g h : Group L)
              → inverse_combine combine op
                  (combine op (singles (tuples g) ++ parts combine (other_operator op) (h ∷ [])))
                ≡ ok (singles (tuples g) ++ parts combine (other_operator op) (h ∷ [])))
          × ((g : Group L) (gs : List (Group L))
              → inverse_combine combine op (combine op (parts combine (other_operator op) (g ∷ gs)))
                ≡ ok (reversed (parts combine (other_operator op) (g ∷ gs))))
    inverse_combine-combine op = (
      λ g.
          ap (inverse_combine combine op) (combine-singles op g)
          ∙ inverse_combine-flat combine op g,
      λ g h.
          ap (inverse_combine combine op) (
            prefix op (leaf g.first ∷ [])
              (singles (g.second ∷ g.more) ++ parts combine (other_operator op) (h ∷ []))
              (singles_and-AreNormal (tuples g) (parts combine (other_operator op) (h ∷ []))
                (parts-AreNormal (other_operator op) (h ∷ [])))
            ∙ ap (λ d. operator op ∷ d)
                (operators_over op g.more (parts combine (other_operator op) (h ∷ []))
                    (concat (singles (tuples g) ++ parts combine (other_operator op) (h ∷ [])))
                  ∙ ap (λ d. map (λ x. operator op) g.more ++ operator op ∷ d)
                      (concat_over (tuples g) (parts combine (other_operator op) (h ∷ []))
                        ∙ ap (λ d. map leaf (tuples g) ++ d)
                            (append-nil (combine (other_operator op) (singles (tuples h)))
                              ∙ combine-singles (other_operator op) h))
                  ∙ sym (
                      append_assoc (map (λ x. operator op) g.more)
                        (operator op ∷ map leaf (tuples g)) (joined (other_operator op) h))))
          ∙ inverse_combine-mixed combine op g h,
      λ g gs.
          ap (inverse_combine combine op) (
            prefix op (combine (other_operator op) (singles (tuples g)))
              (parts combine (other_operator op) gs) (parts-AreNormal (other_operator op) (g ∷ gs))
            ∙ operators-parts op (other_operator op) gs
                (concat (parts combine (other_operator op) (g ∷ gs)))
            ∙ ap (λ d. map (λ g. operator op) gs ++ d) (concat-parts (other_operator op) (g ∷ gs)))
          ∙ inverse_combine-groups combine op g gs
          ∙ ap ok (combined-reversed op (g ∷ gs)),
    )

    run_one_and_group :
        (op : Operator) (a : L) (g : Group L)
        → run combine op (operator op ∷ leaf a ∷ all_joined (other_operator op) (g ∷ []))
          ≡ err index_error
    unfolding run reach_operator
    run_one_and_group op a g =
        ap (λ r. and_then r (step combine op (operator op)))
          (run_leaves combine op a [] (all_joined (other_operator op) (g ∷ []))
              (at [] [] (singles (tuples g)) [] (some (other_operator op)))
              (run_groups combine op g [])
            ∙ ap
                (λ t. ok (
                  at t.result t.operator_elements_stack t.other_elements_stack
                    (a ∷ t.elements_stack) none))
                (flush-other combine op [] (singles (tuples g))))
        ∙ step-operator combine op
            (at (combine (other_operator op) (singles (tuples g)) ∷ []) [] [] (a ∷ []) none)

    inverse-err :
        (op : Operator) (d : Domain L) (e : Error)
        → run combine op d ≡ err e
        → inverse_combine combine op d ≡ err e
    unfolding inverse_combine
    inverse-err op d e h = rw h refl

    -- Where `AND` and `OR` put normalized domains behind their operators: combined of one tuple and, after it, a
    -- group of two tuples or more that the other operator combines, a domain is refused with an `IndexError`.
    pub combine_one_and_group-fails :
        (op : Operator) (a : L) (g : Group L)
        → inverse_combine combine op
            (combine op ((leaf a ∷ []) ∷ parts combine (other_operator op) (g ∷ [])))
          ≡ err index_error
    combine_one_and_group-fails op a g =
        ap (inverse_combine combine op) (
          prefix op (leaf a ∷ []) (parts combine (other_operator op) (g ∷ []))
            (tuple a, parts-AreNormal (other_operator op) (g ∷ []))
          ∙ ap (λ d. operator op ∷ leaf a ∷ d) (concat-parts (other_operator op) (g ∷ [])))
        ∙ inverse-err op (operator op ∷ leaf a ∷ all_joined (other_operator op) (g ∷ []))
            index_error (run_one_and_group op a g)

  run-not :
      (combine : Operator → List (Domain L) → Domain L) (op : Operator) (d : Domain L)
      → In not_operator d
      → (e : Error) × (run combine op d ≡ err e)
  unfolding run step
  run-not combine op [] i = elim i [ ]
  run-not combine op (x ∷ d) (inr i) =
      let (e, h) = run-not combine op d i in (e, ap (λ r. and_then r (step combine op x)) h)
  run-not combine op (x ∷ d) (inl same) = elim (Result-cases (run combine op d)) [
    | inl (s, h) ↦ (
      not_supported,
      ap (λ r. and_then r (step combine op x)) h ∙ ap (λ x. step combine op x s) same,
    )
    | inr (e, h) ↦ (e, ap (λ r. and_then r (step combine op x)) h)
  ]

  -- A domain with a `!` has no inverse: the call raises.
  pub inverse_combine-not :
      (combine : Operator → List (Domain L) → Domain L) (op : Operator) (domain : Domain L)
      → In not_operator domain
      → (e : Error) × (inverse_combine combine op domain ≡ err e)
  unfolding inverse_combine
  inverse_combine-not combine op domain i =
      let (e, h) = run-not combine op domain i in (e, rw h refl)
