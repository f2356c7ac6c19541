-- ===== src/ViewInheritance/Updated.antt =====
-- `ast_dict_update` updates the dictionary that the syntax stands for.
use oca_server_tools.Common.{
  ℕ, ◌≡◌, refl, ap, sym, ◌∙◌, String, Bool, true, false, Option, none, some, List, [], ◌∷◌, ◌++◌,
  str_eq, eq_iff, if◌then◌else◌, or_else, arith, Bool-cases, inl, inr,
}
use oca_server_tools.ViewInheritance.{
  Key, constant, node, ast_key_eq, found, replace_value, update_all, ast_dict_update,
}

abbrev pub is_key : String → Key → Bool
is_key k (constant a) = str_eq a k
is_key k (node n) = false

module _ {V : Type 0} where
  -- The value of a text in the dictionary: Python takes the last one.
  abbrev pub value_of : String → List (Key × V) → Option V
  value_of k [] = none
  value_of k ((key, v) ∷ more) = or_else (value_of k more) (if is_key k key then some v else none)

  abbrev pub has_key : String → List (Key × V) → Bool
  has_key k [] = false
  has_key k ((key, v) ∷ more) = if is_key k key then true else has_key k more

  -- No text is a key twice.
  abbrev pub Distinct : List (Key × V) → Type 0
  Distinct [] = Unit
  Distinct ((constant a, v) ∷ more) = (has_key a more ≡ false) × Distinct more
  Distinct ((node n, v) ∷ more) = Distinct more

  value_of-append :
      (k : String) (l m : List (Key × V))
      → value_of k (l ++ m) ≡ or_else (value_of k m) (value_of k l)
  value_of-append k [] m = or_none (value_of k m)
    where
      or_none : (o : Option V) → o ≡ or_else o none
      or_none none = refl
      or_none (some a) = refl
  value_of-append k ((key, v) ∷ l) m =
      ap (λ o. or_else o (if is_key k key then some v else none)) (value_of-append k l m)
      ∙ or_assoc (value_of k m) (value_of k l) (if is_key k key then some v else none)
    where
      or_assoc : (a b c : Option V) → or_else (or_else a b) c ≡ or_else a (or_else b c)
      or_assoc none b c = refl
      or_assoc (some a) b c = refl

  value_of-missing : (k : String) (l : List (Key × V)) → has_key k l ≡ false → value_of k l ≡ none
  value_of-missing k [] e = refl
  value_of-missing k ((key, v) ∷ l) e = elim (Bool-cases (is_key k key)) [
    | inl y ↦ cc (sym (ap (λ b. if b then true else has_key k l) y) ∙ e)
    | inr n ↦
        ap (or_else (value_of k l)) (ap (λ b. if b then some v else none) n)
        ∙ ap (λ o. or_else o none)
            (value_of-missing k l (sym (ap (λ b. if b then true else has_key k l) n) ∙ e))
  ]

  found-has_key : (a : String) (l : List (Key × V)) → found (constant a) l ≡ has_key a l
  unfolding found ast_key_eq
  found-has_key a [] = refl
  found-has_key a ((constant b, v) ∷ l) = ground (arith, eq_iff a b, eq_iff b a, found-has_key a l)
  found-has_key a ((node n, v) ∷ l) = found-has_key a l

  found-node : (n : ℕ) (l : List (Key × V)) → found (node n) l ≡ false
  unfolding found ast_key_eq
  found-node n [] = refl
  found-node n (x ∷ l) = found-node n l

  has_key-replace_value :
      (k a : String) (v : V) (l : List (Key × V))
      → has_key k (replace_value (constant a) v l) ≡ has_key k l
  unfolding replace_value ast_key_eq
  has_key-replace_value k a v [] = refl
  has_key-replace_value k a v ((constant b, w) ∷ l) = elim (Bool-cases (str_eq a b)) [
    | inl y ↦ rw y refl
    | inr n ↦ rw (n, has_key-replace_value k a v l) refl
  ]
  has_key-replace_value k a v ((node n, w) ∷ l) = has_key-replace_value k a v l

  replace_value-Distinct :
      (a : String) (v : V) (l : List (Key × V))
      → Distinct l
      → Distinct (replace_value (constant a) v l)
  unfolding replace_value ast_key_eq
  replace_value-Distinct a v [] d = tt
  replace_value-Distinct a v ((constant b, w) ∷ l) d = elim (Bool-cases (str_eq a b)) [
    | inl y ↦ rw y d
    | inr n ↦ rw n (has_key-replace_value b a v l ∙ d.0, replace_value-Distinct a v l d.1)
  ]
  replace_value-Distinct a v ((node n, w) ∷ l) d = replace_value-Distinct a v l d

  value_of-replace_value :
      (k a : String) (v : V) (l : List (Key × V))
      → Distinct l
      → has_key a l ≡ true
      → value_of k (replace_value (constant a) v l) ≡ (if str_eq a k then some v else value_of k l)
  unfolding replace_value ast_key_eq
  value_of-replace_value k a v [] d h = cc
  value_of-replace_value k a v ((constant b, w) ∷ l) d h = ground (
    arith,
    h,
    eq_iff a b,
    eq_iff b a,
    eq_iff a k,
    eq_iff b k,
    d.0,
    value_of-missing b l d.0,
    value_of-replace_value k a v l d.1,
  )
  value_of-replace_value k a v ((node n, w) ∷ l) d h =
      ground (arith, value_of-replace_value k a v l d h)

  -- What waits to be appended has no key of the source.
  abbrev Apart : List (Key × V) → List (Key × V) → Type 0
  Apart source toadd = (k : String) → has_key k source ≡ true → value_of k toadd ≡ none

  or_assoc : (a b c : Option V) → or_else (or_else a b) c ≡ or_else a (or_else b c)
  or_assoc none b c = refl
  or_assoc (some a) b c = refl

  -- The value that replaces one of the source comes before what waits, which has none for its key.
  or_replaced :
      (k a : String) (v : V) (t s : Option V)
      → (str_eq a k ≡ true → t ≡ none)
      → or_else t (if str_eq a k then some v else s)
        ≡ or_else (if str_eq a k then some v else none) (or_else t s)
  or_replaced k a v t s e = elim (Bool-cases (str_eq a k)) [
    | inl y ↦ rw (y, e y) refl
    | inr n ↦ rw n refl
  ]

  Apart-append :
      (key : Key) (v : V) (source toadd : List (Key × V))
      → Apart source toadd
      → ((j : String) → has_key j source ≡ true → is_key j key ≡ true → ⊥)
      → Apart source (toadd ++ (key, v) ∷ [])
  Apart-append key v source toadd i other j e =
      value_of-append j toadd ((key, v) ∷ []) ∙ (elim (Bool-cases (is_key j key)) [
        | inl y ↦ elim (other j e y) [ ]
        | inr n ↦ rw (n, i j e) refl
      ])

  appended :
      (k : String) (key : Key) (v : V) (toadd : List (Key × V)) (m s : Option V) {u : Option V}
      → u ≡ or_else m (or_else (value_of k (toadd ++ (key, v) ∷ [])) s)
      → u
        ≡ or_else (or_else m (if is_key k key then some v else none)) (or_else (value_of k toadd) s)
  appended k key v toadd m s e =
      e
      ∙ ap (λ o. or_else m (or_else o s)) (value_of-append k toadd ((key, v) ∷ []))
      ∙ ap (or_else m) (or_assoc (if is_key k key then some v else none) (value_of k toadd) s)
      ∙ sym (or_assoc m (if is_key k key then some v else none) (or_else (value_of k toadd) s))

  value_of-update_all :
      (k : String) (update source toadd : List (Key × V))
      → Distinct source
      → Apart source toadd
      → value_of k (update_all update source toadd)
        ≡ or_else (value_of k update) (or_else (value_of k toadd) (value_of k source))
  unfolding update_all
  value_of-update_all k [] source toadd d i = value_of-append k source toadd
  value_of-update_all k ((constant a, v) ∷ more) source toadd d i =
      elim (Bool-cases (found (constant a) source)) [
        | inl y ↦
            let h = sym (found-has_key a source) ∙ y in
            rw y (
              value_of-update_all k more (replace_value (constant a) v source) toadd
                (replace_value-Distinct a v source d)
                (λ j e. i j (sym (has_key-replace_value j a v source) ∙ e))
              ∙ ap (λ o. or_else (value_of k more) (or_else (value_of k toadd) o))
                  (value_of-replace_value k a v source d h)
              ∙ ap (or_else (value_of k more)) (
                  or_replaced k a v (value_of k toadd) (value_of k source)
                    (λ same. i k (ap (λ j. has_key j source) (sym ((eq_iff a k).0 same)) ∙ h)))
              ∙ sym (
                  or_assoc (value_of k more) (if str_eq a k then some v else none)
                    (or_else (value_of k toadd) (value_of k source))))
        | inr n ↦ rw n (
            appended k (constant a) v toadd (value_of k more) (value_of k source) (
              value_of-update_all k more source (toadd ++ (constant a, v) ∷ []) d (
                Apart-append (constant a) v source toadd i (λ j e same. cc (
                  sym (sym (found-has_key a source) ∙ n)
                  ∙ ap (λ b. has_key b source) ((eq_iff a j).0 same)
                  ∙ e)))))
      ]
  value_of-update_all k ((node n, v) ∷ more) source toadd d i = rw (found-node n source) (
      appended k (node n) v toadd (value_of k more) (value_of k source) (
        value_of-update_all k more source (toadd ++ (node n, v) ∷ []) d
          (Apart-append (node n) v source toadd i (λ j e same. cc same))))

  -- When no text is a key of the source twice, `ast_dict_update` gives each text the value that it
  -- has in the update, and else the one that it has in the source.
  pub value_of-ast_dict_update :
      (k : String) (source update : List (Key × V))
      → Distinct source
      → value_of k (ast_dict_update source update) ≡ or_else (value_of k update) (value_of k source)
  unfolding ast_dict_update
  value_of-ast_dict_update k source update d =
      value_of-update_all k update source [] d (λ j e. refl)
