-- ===== src/Base/Slices.antt =====
-- Places of a list, and Python's slices `xs[-n:]`.
use Prim.Native.Nat.{ℕ, zero, suc, ◌+◌, ◌-◌, ◌≤◌, ◌<◌}
use mathlib.Core.Path.{◌≡◌, refl, ap, ◌∙◌, sym}
use mathlib.Core.Option.{Option, none, some}
use mathlib.Core.List.{List, [], ◌∷◌, ◌++◌}
use native.Mathlib.Omega.{arith}
use gaia_server.Base.Lists.{length, length-append}
use gaia_server.Base.Bools.{none-ne-some}
use gaia_server.Base.Numbers.{ℤ, pos, negsuc}

module _ {ℓ} {A : Type ℓ} where
  abbrev pub drop : ℕ → List A → List A
  drop zero xs = xs
  drop (suc n) [] = []
  drop (suc n) (x ∷ xs) = drop n xs

  abbrev pub take : ℕ → List A → List A
  take zero xs = []
  take (suc n) [] = []
  take (suc n) (x ∷ xs) = x ∷ take n xs

  pub take-drop : (n : ℕ) (xs : List A) → take n xs ++ drop n xs ≡ xs
  take-drop zero xs = refl
  take-drop (suc n) [] = refl
  take-drop (suc n) (x ∷ xs) = ap (λ t. x ∷ t) (take-drop n xs)

  abbrev pub get_elem? : List A → ℕ → Option A
  get_elem? [] i = none
  get_elem? (x ∷ xs) zero = some x
  get_elem? (x ∷ xs) (suc i) = get_elem? xs i

  -- A write out of bounds changes nothing.
  abbrev pub set : List A → ℕ → A → List A
  set [] i v = []
  set (x ∷ xs) zero v = v ∷ xs
  set (x ∷ xs) (suc i) v = x ∷ set xs i v

  -- `xs[-n:]`: all of `xs` where `n` is zero, and a start from the left where it is negative.
  unfoldable pub slice_last : ℤ → List A → List A
  slice_last (pos zero) xs = xs
  slice_last (pos (suc n)) xs = drop (length xs - suc n) xs
  slice_last (negsuc n) xs = drop (suc n) xs

  pub length-drop : (n : ℕ) (xs : List A) → length (drop n xs) ≡ length xs - n
  length-drop zero xs = omega arith
  length-drop (suc n) [] = omega arith
  length-drop (suc n) (x ∷ xs) = omega (arith, length-drop n xs)

  drop-append : (n : ℕ) (xs ys : List A) → n ≤ length xs → drop n xs ++ ys ≡ drop n (xs ++ ys)
  drop-append zero xs ys h = refl
  drop-append (suc n) [] ys h = absurd (omega arith)
  drop-append (suc n) (x ∷ xs) ys h = drop-append n xs ys (omega arith)

  drop-nil : (n : ℕ) → ◌≡◌ {A = List A} (drop n []) []
  drop-nil zero = refl
  drop-nil (suc n) = refl

  drop-drop : (n k : ℕ) (xs : List A) → drop n (drop k xs) ≡ drop (k + n) xs
  drop-drop n zero xs = ap (λ j. drop j xs) (omega arith)
  drop-drop n (suc k) [] = drop-nil n ∙ sym (drop-nil (suc k + n))
  drop-drop n (suc k) (x ∷ xs) =
      let e : suc k + n ≡ suc (k + n) = omega arith in
      drop-drop n k xs ∙ ap (λ j. drop j (x ∷ xs)) (sym e)

  -- Only the last items of a list matter to as many last items after more.
  pub slice_last-append :
      (n : ℕ) (xs ys : List A)
      → slice_last (pos (suc n)) (slice_last (pos (suc n)) xs ++ ys)
        ≡ slice_last (pos (suc n)) (xs ++ ys)
  unfolding slice_last
  slice_last-append n xs ys =
      let d : ℕ = length xs - suc n in
      let e : ℕ = length (drop d xs ++ ys) - suc n in
      ap (drop e) (drop-append d xs ys (omega arith))
      ∙ drop-drop e d (xs ++ ys)
      ∙ ap (λ j. drop j (xs ++ ys))
          (omega (arith, length-append (drop d xs) ys, length-append xs ys, length-drop d xs))

  pub slice_last_short : (n : ℕ) (xs : List A) → length xs ≤ n → slice_last (pos n) xs ≡ xs
  unfolding slice_last
  slice_last_short zero xs h = refl
  slice_last_short (suc n) xs h =
      let e : length xs - suc n ≡ 0 = omega arith in ap (λ j. drop j xs) e

  pub slice_last-slice_last :
      (n k : ℕ) (xs : List A)
      → n ≤ k
      → slice_last (pos (suc n)) (slice_last (pos (suc k)) xs) ≡ slice_last (pos (suc n)) xs
  unfolding slice_last
  slice_last-slice_last n k xs h =
      let d : ℕ = length xs - suc k in
      drop-drop (length (drop d xs) - suc n) d xs
      ∙ ap (λ j. drop j xs) (omega (arith, length-drop d xs))

  -- A last part of the list, of at most `n` items.
  pub slice_last_bounds :
      (n : ℕ) (xs : List A)
      → 0 < n
      → (length (slice_last (pos n) xs) ≤ n)
        × ((start : List A) × (start ++ slice_last (pos n) xs ≡ xs))
  unfolding slice_last
  slice_last_bounds zero xs h = absurd (omega arith)
  slice_last_bounds (suc n) xs h = (
    omega (arith, length-drop (length xs - suc n) xs),
    (take (length xs - suc n) xs, take-drop (length xs - suc n) xs),
  )

  pub get_elem?-set_self :
      (xs : List A) (i : ℕ) (u v : A) → get_elem? xs i ≡ some u → get_elem? (set xs i v) i ≡ some v
  get_elem?-set_self [] i u v h = absurd (none-ne-some h)
  get_elem?-set_self (x ∷ xs) zero u v h = refl
  get_elem?-set_self (x ∷ xs) (suc i) u v h = get_elem?-set_self xs i u v h

  pub get_elem?-set_other :
      (xs : List A) (i j : ℕ) (v : A) → (i ≡ j → ⊥) → get_elem? (set xs i v) j ≡ get_elem? xs j
  get_elem?-set_other [] i j v h = refl
  get_elem?-set_other (x ∷ xs) zero zero v h = absurd (h refl)
  get_elem?-set_other (x ∷ xs) zero (suc j) v h = refl
  get_elem?-set_other (x ∷ xs) (suc i) zero v h = refl
  get_elem?-set_other (x ∷ xs) (suc i) (suc j) v h =
      get_elem?-set_other xs i j v (λ e. h (ap suc e))
