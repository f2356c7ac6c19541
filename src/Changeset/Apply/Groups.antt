-- ===== src/Changeset/Apply/Groups.antt =====
-- The groups of `apply`: what `groupby` makes of a list, and the order that `sorted` gives.
use oca_server_tools.Common.{
  ℕ, ◌≡◌, refl, ap, ◌∙◌, ◌||◌, List, [], ◌∷◌, ◌++◌, elem, All, arith, ◌==◌, ==_refl, true,
  Bool-cases, inl, inr,
}
use oca_server_tools.Changeset.Apply.{Sorted, groupby, add_to_groups}

abbrev pub members : List (ℕ × List ℕ) → List ℕ
members [] = []
members ((_, ids) ∷ groups) = ids ++ members groups

elem-add_to_groups :
    (i k x : ℕ) (groups : List (ℕ × List ℕ))
    → elem i (members (add_to_groups k x groups)) ≡ ((x == i) || elem i (members groups))
unfolding add_to_groups
elem-add_to_groups i k x [] = ground arith
elem-add_to_groups i k x ((j, ys) ∷ groups) = ground arith

pub elem-groupby :
    (i : ℕ) (key : ℕ → ℕ) (ids : List ℕ) → elem i (members (groupby key ids)) ≡ elem i ids
unfolding groupby
elem-groupby i key [] = refl
elem-groupby i key (x ∷ xs) =
    elem-add_to_groups i (key x) x (groupby key xs)
    ∙ ap (λ b. (x == i) || b) (elem-groupby i key xs)

-- Where all keys are one, there is one group.
pub groupby_one :
    (key : ℕ → ℕ) (c x : ℕ) (xs : List ℕ)
    → All (λ i. key i ≡ c) (x ∷ xs)
    → groupby key (x ∷ xs) ≡ (c, x ∷ xs) ∷ []
unfolding groupby
groupby_one key c x [] h = ground arith
groupby_one key c x (y ∷ ys) h =
    ap (add_to_groups (key x) x) (groupby_one key c y ys h.1) ∙ ground (arith, ==_refl c)

-- The key of each group is that of one of the ids.
abbrev pub KeyOf : (ℕ → ℕ) → List ℕ → ℕ × List ℕ → Type 0
KeyOf key ids g = (i : ℕ) × (elem i ids ≡ true) × (key i ≡ g.0)

later-KeyOf :
    (key : ℕ → ℕ) (x : ℕ) (ids : List ℕ) (groups : List (ℕ × List ℕ))
    → All (KeyOf key ids) groups
    → All (KeyOf key (x ∷ ids)) groups
later-KeyOf key x ids [] h = tt
later-KeyOf key x ids (g ∷ groups) ((i, e, k), h) =
    ((i, ground (arith, e), k), later-KeyOf key x ids groups h)

add_to_groups-KeyOf :
    (key : ℕ → ℕ) (x : ℕ) (ids : List ℕ) (groups : List (ℕ × List ℕ))
    → All (KeyOf key (x ∷ ids)) groups
    → All (KeyOf key (x ∷ ids)) (add_to_groups (key x) x groups)
unfolding add_to_groups
add_to_groups-KeyOf key x ids [] h = ((x, ground (arith, ==_refl x), refl), tt)
add_to_groups-KeyOf key x ids ((j, ys) ∷ groups) (g, h) = elim (Bool-cases (key x == j)) [
  | inl e ↦ rw e ((x, ground (arith, ==_refl x), refl), h)
  | inr n ↦ rw n ((x, ground (arith, ==_refl x), refl), (g, h))
]

pub groupby-KeyOf : (key : ℕ → ℕ) (ids : List ℕ) → All (KeyOf key ids) (groupby key ids)
unfolding groupby
groupby-KeyOf key [] = tt
groupby-KeyOf key (x ∷ ids) =
    add_to_groups-KeyOf key x ids (groupby key ids)
      (later-KeyOf key x ids (groupby key ids) (groupby-KeyOf key ids))

-- `sorted` gives the same ids, and it is stable.
pub record IsSorted (sorted : Sorted) : Type 0 where
  pub same : (key : ℕ → ℕ) (ids : List ℕ) (i : ℕ) → elem i (sorted key ids) ≡ elem i ids
  pub stable :
      (key : ℕ → ℕ) (c : ℕ) (ids : List ℕ) → All (λ i. key i ≡ c) ids → sorted key ids ≡ ids
