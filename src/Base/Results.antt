-- ===== src/Base/Results.antt =====
-- Results of code that may raise, and actions that read and write a state and may raise: what was
-- written before a raise stays written.
use mathlib.Core.Path.{◌∙◌, ◌≡◌, refl, ap}
use mathlib.Core.Logic.{◌⊎◌, inl, inr}
use mathlib.Core.Bool.{Bool, true, false}

pub data Result (E A : Type 0) : Type 0 where
  ok : A → Result E A
  err : E → Result E A

abbrev pub Exec : Type 0 → Type 0 → Type 0 → Type 0
Exec E S A = S → Result E A × S

module _ {E S A : Type 0} where
  abbrev pub pure : A → Exec E S A
  pure a s = (ok a, s)

  abbrev pub raise : E → Exec E S A
  raise e s = (err e, s)

  abbrev pub gets : (S → A) → Exec E S A
  gets f s = (ok (f s), s)

  abbrev pub lift : Result E A → Exec E S A
  lift r s = (r, s)

pub Result-cases :
    {E A : Type 0} (r : Result E A) → ((a : A) × (r ≡ ok a)) ⊎ ((e : E) × (r ≡ err e))
Result-cases (ok a) = inl (a, refl)
Result-cases (err e) = inr (e, refl)

pub ok-injective : {E A : Type 0} {a b : A} → ◌≡◌ {A = Result E A} (ok a) (ok b) → a ≡ b
ok-injective h = cc

module _ {E S : Type 0} where
  abbrev pub modify : (S → S) → Exec E S (Unit {0})
  modify f s = (ok tt, f s)

  -- `if c: raise e`
  abbrev pub raise_if : Bool → E → Exec E S (Unit {0})
  raise_if true e = raise e
  raise_if false e = pure tt

module _ {E S A B : Type 0} where
  abbrev pub continue : Result E A → (A → Exec E S B) → Exec E S B
  continue (ok a) f s = f a s
  continue (err e) f s = (err e, s)

  infixl 5 ◌>>=◌ ◌>>◌
  abbrev pub ◌>>=◌ : Exec E S A → (A → Exec E S B) → Exec E S B
  ◌>>=◌ m f s = continue (m s).0 f (m s).1

  abbrev pub ◌>>◌ : Exec E S A → Exec E S B → Exec E S B
  m >> k = m >>= λ _. k

  -- What a block that has returned did before and after its first action.
  pub >>=-eq-ok :
      (m : Exec E S A) (f : A → Exec E S B) (s : S) {b : B}
      → ((m >>= f) s).0 ≡ ok b
      → (a : A) × ((m s).0 ≡ ok a) × ((f a (m s).1).0 ≡ ok b)
  >>=-eq-ok m f s {b} h = go (m s).0 (m s).1 h
    where
      go :
          (r : Result E A) (t : S)
          → (continue r f t).0 ≡ ok b
          → (a : A) × (r ≡ ok a) × ((f a t).0 ≡ ok b)
      go (ok a) t k = (a, refl, k)
      go (err e) t k = absurd (ok_ne_err k)
        where
          ok_ne_err : {b : B} → ◌≡◌ {A = Result E B} (err e) (ok b) → ⊥
          ok_ne_err k = cc

  -- The same, and where the block goes on from.
  pub >>=-returns :
      (m : Exec E S A) (f : A → Exec E S B) (s : S) {b : B}
      → ((m >>= f) s).0 ≡ ok b
      → (a : A) × ((m s).0 ≡ ok a) × ((f a (m s).1).0 ≡ ok b) × ((m >>= f) s ≡ f a (m s).1)
  >>=-returns m f s {b} h =
      let (a, e, k) = >>=-eq-ok m f s h in (a, e, k, ap (λ r. continue r f (m s).1) e)

  -- A block whose first action runs, and then the rest.
  pub >>=-runs :
      (m : Exec E S A) (f : A → Exec E S B) (s : S) {t : S} {a : A} {z : Result E B × S}
      → m s ≡ (ok a, t)
      → f a t ≡ z
      → (m >>= f) s ≡ z
  >>=-runs m f s h k = ap (λ r. continue r.0 f r.1) h ∙ k

  -- A block that raises does so in its first action, or in the rest.
  pub >>=-eq-err :
      (m : Exec E S A) (f : A → Exec E S B) (s : S) {e : E}
      → ((m >>= f) s).0 ≡ err e
      → ((m s).0 ≡ err e) ⊎ ((a : A) × ((m s).0 ≡ ok a) × ((f a (m s).1).0 ≡ err e))
  >>=-eq-err m f s {e} h = go (m s).0 (m s).1 h
    where
      go :
          (r : Result E A) (t : S)
          → (continue r f t).0 ≡ err e
          → (r ≡ err e) ⊎ ((a : A) × (r ≡ ok a) × ((f a t).0 ≡ err e))
      go (ok a) t k = inr (a, refl, k)
      go (err x) t k = inl (err-cast k)
        where
          err-cast : ◌≡◌ {A = Result E B} (err x) (err e) → ◌≡◌ {A = Result E A} (err x) (err e)
          err-cast k = cc
