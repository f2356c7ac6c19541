-- ===== src/Common/Lists.antt =====
-- Lists: Python's `all`, `any`, `in` over numbers, comprehensions with a test, and the
-- predicate that holds of each entry.
use Prim.Native.Nat.{ℕ, suc, ◌+◌}
use mathlib.Core.Path.{◌≡◌, refl, subst, ap, ◌∙◌}
use mathlib.Core.Logic.{◌⊎◌, inl, inr}
use mathlib.Core.Bool.{Bool, true, false, ◌&&◌, ◌||◌}
use mathlib.Core.List.{List, [], ◌∷◌, ◌++◌}
use native.Mathlib.Omega.{arith}
use oca_server_tools.Common.Tests.{if◌then◌else◌, ◌==◌, ==_iff, Bool-cases}

module _ {ℓ} {A : Type ℓ} where
  abbrev pub length : List A → ℕ
  length [] = 0
  length (x ∷ xs) = suc (length xs)

  pub length-append : (xs ys : List A) → length (xs ++ ys) ≡ length xs + length ys
  length-append [] ys = omega arith
  length-append (x ∷ xs) ys = omega (arith, length-append xs ys)

  abbrev pub All {κ} : (A → Type κ) → List A → Type κ
  All P [] = Unit
  All P (x ∷ xs) = P x × All P xs

  abbrev pub all : (A → Bool) → List A → Bool
  all p [] = true
  all p (x ∷ xs) = p x && all p xs

  abbrev pub any : (A → Bool) → List A → Bool
  any p [] = false
  any p (x ∷ xs) = p x || any p xs

  -- `[x for x in xs if p(x)]` and `filtered`
  abbrev pub keep : (A → Bool) → List A → List A
  keep p [] = []
  keep p (x ∷ xs) = let rest = keep p xs in if p x then x ∷ rest else rest

module _ {A : Type 0} where
  abbrev pub In : A → List A → Type 0
  In a [] = ⊥
  In a (x ∷ xs) = (x ≡ a) ⊎ In a xs

  pub All-In : (P : A → Type 0) (xs : List A) {a : A} → All P xs → In a xs → P a
  All-In P [] h i = elim i [ ]
  All-In P (x ∷ xs) h (inl e) = subst P e h.0
  All-In P (x ∷ xs) h (inr i) = All-In P xs h.1 i

  pub All-of_In : {P : A → Type 0} (xs : List A) → ((a : A) → In a xs → P a) → All P xs
  All-of_In [] h = tt
  All-of_In (x ∷ xs) h = (h x (inl refl), All-of_In xs (λ a i. h a (inr i)))

-- `n in ns`
abbrev pub elem : ℕ → List ℕ → Bool
elem n [] = false
elem n (m ∷ ms) = (m == n) || elem n ms

pub elem-append : (n : ℕ) (xs ys : List ℕ) → elem n (xs ++ ys) ≡ (elem n xs || elem n ys)
elem-append n [] ys = refl
elem-append n (x ∷ xs) ys = ground (arith, elem-append n xs ys)

pub elem-keep : (p : ℕ → Bool) (n : ℕ) (xs : List ℕ) → elem n (keep p xs) ≡ (elem n xs && p n)
elem-keep p n [] = refl
elem-keep p n (x ∷ xs) = elim (Bool-cases (x == n)) [
  | inl same ↦ ground (arith, ap p ((==_iff x n).0 same), elem-keep p n xs)
  | inr other ↦ ground (arith, elem-keep p n xs)
]

pub any-elem :
    (p : ℕ → Bool) (ids : List ℕ) → any p ids ≡ true → (i : ℕ) × (elem i ids ≡ true) × (p i ≡ true)
any-elem p [] h = cc
any-elem p (x ∷ xs) h = elim (Bool-cases (p x)) [
  | inl e ↦ (x, ground arith, e)
  | inr e ↦ let (i, l, f) = any-elem p xs (ground arith) in (i, ground arith, f)
]

pub all_at :
    (p : ℕ → Bool) (ids : List ℕ) (i : ℕ) → all p ids ≡ true → elem i ids ≡ true → p i ≡ true
all_at p [] i h e = cc
all_at p (x ∷ xs) i h e = elim (Bool-cases (x == i)) [
  | inl same ↦ ground (arith, ap p ((==_iff x i).0 same))
  | inr other ↦ ground (arith, all_at p xs i (ground arith) (ground arith))
]

pub any_at :
    (p : ℕ → Bool) (ids : List ℕ) (i : ℕ) → elem i ids ≡ true → p i ≡ true → any p ids ≡ true
any_at p [] i h e = cc
any_at p (x ∷ xs) i h e = elim (Bool-cases (x == i)) [
  | inl same ↦ ground (arith, ap p ((==_iff x i).0 same))
  | inr other ↦ ground (arith, any_at p xs i (ground arith) e)
]

module _ {A : Type 0} where
  keep_cases :
      (b : Bool) (x a : A) (xs : List A)
      → In a (if b then x ∷ xs else xs)
      → ((b ≡ true) × (x ≡ a)) ⊎ In a xs
  keep_cases true x a xs (inl e) = inl (refl, e)
  keep_cases true x a xs (inr i) = inr i
  keep_cases false x a xs i = inr i

  pub In-keep : (p : A → Bool) (xs : List A) (a : A) → In a (keep p xs) → (p a ≡ true) × In a xs
  In-keep p [] a i = elim i [ ]
  In-keep p (x ∷ xs) a i = elim (keep_cases (p x) x a (keep p xs) i) [
    | inl (e, same) ↦ (subst (λ y. p y ≡ true) same e, inl same)
    | inr behind ↦ let (e, j) = In-keep p xs a behind in (e, inr j)
  ]

  keep_behind : (b : Bool) (x a : A) (xs : List A) → In a xs → In a (if b then x ∷ xs else xs)
  keep_behind true x a xs i = inr i
  keep_behind false x a xs i = i

  pub keep-In : (p : A → Bool) (xs : List A) (a : A) → p a ≡ true → In a xs → In a (keep p xs)
  keep-In p [] a e i = elim i [ ]
  keep-In p (x ∷ xs) a e (inl same) = rw (ap p same ∙ e) (inl same)
  keep-In p (x ∷ xs) a e (inr i) = keep_behind (p x) x a (keep p xs) (keep-In p xs a e i)

  pub In-append : (xs ys : List A) (a : A) → In a (xs ++ ys) → In a xs ⊎ In a ys
  In-append [] ys a i = inr i
  In-append (x ∷ xs) ys a (inl e) = inl (inl e)
  In-append (x ∷ xs) ys a (inr i) = elim (In-append xs ys a i) [
    | inl j ↦ inl (inr j)
    | inr j ↦ inr j
  ]

  pub append-In : (xs ys : List A) (a : A) → In a xs ⊎ In a ys → In a (xs ++ ys)
  append-In [] ys a (inl i) = elim i [ ]
  append-In [] ys a (inr i) = i
  append-In (x ∷ xs) ys a (inl (inl e)) = inl e
  append-In (x ∷ xs) ys a (inl (inr i)) = inr (append-In xs ys a (inl i))
  append-In (x ∷ xs) ys a (inr i) = inr (append-In xs ys a (inr i))
