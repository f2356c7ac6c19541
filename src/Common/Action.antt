-- ===== src/Common/Action.antt =====
-- A method that changes state and may raise. What was written before an exception stays written
-- until a caller rolls back, so the state comes back beside the error too.
use mathlib.Core.Path.{◌≡◌, refl, ap}
use mathlib.Core.Logic.{◌⊎◌, inl, inr}
use mathlib.Core.Bool.{Bool, true, false}

pub data Result {ℓ} (E A : Type ℓ) : Type ℓ where
  ok : A → Result E A
  err : E → Result E A

abbrev pub Action {ℓ} : Type ℓ → Type ℓ → Type ℓ → Type ℓ
Action E S A = S → Result E A × S

module _ {ℓ} {E S A : Type ℓ} where
  abbrev pub pure : A → Action E S A
  pure a s = (ok a, s)

  abbrev pub raise : E → Action E S A
  raise e s = (err e, s)

  abbrev pub gets : (S → A) → Action E S A
  gets f s = (ok (f s), s)

  abbrev pub lift : Result E A → Action E S A
  lift r s = (r, s)

abbrev pub modify : {E S : Type 0} → (S → S) → Action E S (Unit {0})
modify f s = (ok tt, f s)

abbrev pub raise_if : {E S : Type 0} → Bool → E → Action E S (Unit {0})
raise_if true e s = (err e, s)
raise_if false e s = (ok tt, s)

abbrev pub continue {ℓ} : {E S A B : Type ℓ} → Result E A → S → (A → Action E S B) → Result E B × S
continue (ok a) s f = f a s
continue (err e) s f = (err e, s)

pub Result-cases {ℓ} :
    {E A : Type ℓ} (r : Result E A) → ((a : A) × (r ≡ ok a)) ⊎ ((e : E) × (r ≡ err e))
Result-cases (ok a) = inl (a, refl)
Result-cases (err e) = inr (e, refl)

pub ok-injective {ℓ} : {E A : Type ℓ} {a b : A} → ◌≡◌ {A = Result E A} (ok a) (ok b) → a ≡ b
ok-injective h = cc

-- A chain of steps that read no state.
abbrev pub and_then {ℓ} : {E A B : Type ℓ} → Result E A → (A → Result E B) → Result E B
and_then (ok a) f = f a
and_then (err e) f = err e

pub and_then-eq-ok {ℓ} :
    {E A B : Type ℓ} (m : Result E A) (f : A → Result E B) {b : B}
    → and_then m f ≡ ok b
    → (a : A) × (m ≡ ok a) × (f a ≡ ok b)
and_then-eq-ok (ok a) f h = (a, refl, h)
and_then-eq-ok (err e) f h = cc

infixl 5 ◌>>=◌ ◌>>◌
abbrev pub ◌>>=◌ {ℓ} : {E S A B : Type ℓ} → Action E S A → (A → Action E S B) → Action E S B
◌>>=◌ m f s = let (r, s') = m s in continue r s' f

abbrev pub ◌>>◌ {ℓ} : {E S A B : Type ℓ} → Action E S A → Action E S B → Action E S B
m >> k = m >>= λ _. k

-- Inversion of an action that returned.
pub pure-eq-ok {ℓ} :
    {E S A : Type ℓ} {a b : A} {s t : S}
    → ◌≡◌ {A = Result E A × S} (ok a, s) (ok b, t)
    → (a ≡ b) × (s ≡ t)
pure-eq-ok h = (ok-injective (ap (λ p. p.0) h), ap (λ p. p.1) h)

continue-eq-ok {ℓ} :
    {E S A B : Type ℓ} (r : Result E A) (s : S) (f : A → Action E S B) {b : B} {t : S}
    → continue r s f ≡ (ok b, t)
    → (a : A) × (r ≡ ok a) × (f a s ≡ (ok b, t))
continue-eq-ok (ok a) s f h = (a, refl, h)
continue-eq-ok (err e) s f h = cc (ap (λ p. p.0) h)

pub >>=-eq-ok {ℓ} :
    {E S A B : Type ℓ} (m : Action E S A) (f : A → Action E S B) (s : S) {b : B} {t : S}
    → (m >>= f) s ≡ (ok b, t)
    → (a : A) × (mid : S) × (m s ≡ (ok a, mid)) × (f a mid ≡ (ok b, t))
>>=-eq-ok m f s h =
    let (a, e, rest) = continue-eq-ok (m s).0 (m s).1 f h in (a, (m s).1, λ i. (e i, (m s).1), rest)
