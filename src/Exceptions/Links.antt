-- ===== src/Exceptions/Links.antt =====
-- What `detect_exceptions` leaves in `exception_ids`, and the lists that `_get_exceptions` makes.
use oca_server_tools.Common.{
  ℕ, ◌≡◌, refl, ap, Bool, true, false, not, ◌&&◌, ◌||◌, List, [], ◌∷◌, ◌++◌, inl, inr, elem, ◌==◌,
  ==_iff, Bool-cases, elem-append, elem-keep, arith, if◌then◌else◌,
}
use oca_server_tools.Exceptions.{
  RuleInfo, Db, minus, with_rule, push_if, id_if, unlink_rule, link_rule, remove_links, add_links,
}

-- The pair of a rule and a record stands in a list of rules with their records.
abbrev pub pairs : ℕ → ℕ → List (ℕ × List ℕ) → Bool
pairs k r [] = false
pairs k r ((id, recs) ∷ more) = ((id == k) && elem r recs) || pairs k r more

abbrev pub has_id : ℕ → List RuleInfo → Bool
has_id k [] = false
has_id k (rule ∷ more) = (rule.id == k) || has_id k more

abbrev pub Distinct : List RuleInfo → Type 0
Distinct [] = Unit
Distinct (rule ∷ more) = (has_id rule.id more ≡ false) × Distinct more

abbrev pub is_empty : List ℕ → Bool
is_empty [] = true
is_empty (_ ∷ _) = false

pub elem-minus : (r : ℕ) (xs ys : List ℕ) → elem r (minus xs ys) ≡ (elem r xs && not (elem r ys))
elem-minus r xs ys = elem-keep (λ x. not (elem x ys)) r xs

pub elem-with_rule :
    (db : Db) (r : ℕ) (ids : List ℕ) (rule : RuleInfo)
    → elem r (with_rule db ids rule) ≡ (elem r ids && elem rule.id (db.exception_ids r))
elem-with_rule db r ids rule = elem-keep (λ x. elem rule.id (db.exception_ids x)) r ids

pairs-append :
    (k r : ℕ) (l m : List (ℕ × List ℕ)) → pairs k r (l ++ m) ≡ (pairs k r l || pairs k r m)
pairs-append k r [] m = refl
pairs-append k r ((id, recs) ∷ l) m = ground (arith, pairs-append k r l m)

pub pairs-push_if :
    (k r id : ℕ) (recs : List ℕ) (l : List (ℕ × List ℕ))
    → pairs k r (push_if recs id l) ≡ (pairs k r l || ((id == k) && elem r recs))
pairs-push_if k r id [] l = ground arith
pairs-push_if k r id (x ∷ xs) l = ground (arith, pairs-append k r l ((id, x ∷ xs) ∷ []))

pub elem-id_if :
    (k id : ℕ) (found l : List ℕ)
    → elem k (id_if found id l) ≡ (elem k l || ((id == k) && not (is_empty found)))
elem-id_if k id [] l = ground arith
elem-id_if k id (x ∷ xs) l = ground (arith, elem-append k l (id ∷ []))

pub elem-unlink_rule :
    (k id : ℕ) (l : List ℕ) → elem k (unlink_rule id l) ≡ (elem k l && not (k == id))
elem-unlink_rule k id l = elem-keep (λ x. not (x == id)) k l

pub elem-link_rule : (k id : ℕ) (l : List ℕ) → elem k (link_rule id l) ≡ (elem k l || (id == k))
elem-link_rule k id l = elim (Bool-cases (id == k)) [
  | inl same ↦ ground (arith, elem-append k l (id ∷ []), ap (λ i. elem i l) ((==_iff id k).0 same))
  | inr other ↦ ground (arith, elem-append k l (id ∷ []))
]

unlink_step :
    (k id : ℕ) (b : Bool) (l : List ℕ)
    → elem k (if b then unlink_rule id l else l) ≡ (elem k l && not ((id == k) && b))
unlink_step k id true l = ground (arith, elem-unlink_rule k id l)
unlink_step k id false l = ground arith

link_step :
    (k id : ℕ) (b : Bool) (l : List ℕ)
    → elem k (if b then link_rule id l else l) ≡ (elem k l || ((id == k) && b))
link_step k id true l = ground (arith, elem-link_rule k id l)
link_step k id false l = ground arith

pub elem-remove_links :
    (k r : ℕ) (l : List (ℕ × List ℕ)) (ex : ℕ → List ℕ)
    → elem k (remove_links l ex r) ≡ (elem k (ex r) && not (pairs k r l))
unfolding remove_links
elem-remove_links k r [] ex = ground arith
elem-remove_links k r ((id, recs) ∷ more) ex = ground (
  arith,
  elem-remove_links k r more (λ x. if elem x recs then unlink_rule id (ex x) else ex x),
  unlink_step k id (elem r recs) (ex r),
)

pub elem-add_links :
    (k r : ℕ) (l : List (ℕ × List ℕ)) (ex : ℕ → List ℕ)
    → elem k (add_links l ex r) ≡ (elem k (ex r) || pairs k r l)
unfolding add_links
elem-add_links k r [] ex = ground arith
elem-add_links k r ((id, recs) ∷ more) ex = ground (
  arith,
  elem-add_links k r more (λ x. if elem x recs then link_rule id (ex x) else ex x),
  link_step k id (elem r recs) (ex r),
)
