-- ===== src/Prelude/Lists.antt =====
-- Lists over the native numbers, with Boolean tests where the program has closures.
use Prim.Native.Nat.{ℕ, suc, ◌+◌}
use mathlib.Core.Path.{◌≡◌, refl, subst}
use mathlib.Core.Logic.{◌≢◌, inl, inr}
use mathlib.Core.Bool.{Bool, true, false, ◌||◌}
use mathlib.Core.List.{List, [], ◌∷◌, ◌++◌}
use mathlib.Core.Option.{Option, none, some, some-injective}
use native.Mathlib.Omega.{arith}
use echoi_rcd.Prelude.Tests.{if◌then◌else◌, is_some, Bool-cases}

module _ {ℓ} {A : Type ℓ} where
  abbrev pub length : List A → ℕ
  length [] = 0
  length (x ∷ xs) = suc (length xs)

  abbrev pub is_nil : List A → Bool
  is_nil [] = true
  is_nil (x ∷ xs) = false

  abbrev pub any : (A → Bool) → List A → Bool
  any p [] = false
  any p (x ∷ xs) = p x || any p xs

  -- `Vec::retain`, and `filter` on an iterator.
  abbrev pub retain : (A → Bool) → List A → List A
  retain p [] = []
  retain p (x ∷ xs) = if p x then x ∷ retain p xs else retain p xs

  abbrev pub find : (A → Bool) → List A → Option A
  find p [] = none
  find p (x ∷ xs) = if p x then some x else find p xs

  pub length-append : (xs ys : List A) → length (xs ++ ys) ≡ length xs + length ys
  length-append [] ys = omega arith
  length-append (x ∷ xs) ys = omega (arith, length-append xs ys)

module _ {ℓ} {A : Type ℓ} where
  pub is_nil-false : (xs : List A) → xs ≢ [] → is_nil xs ≡ false
  is_nil-false [] h = absurd (h refl)
  is_nil-false (x ∷ xs) h = refl

module _ {ℓ κ} {A : Type ℓ} (P : A → Type κ) where
  abbrev pub All : List A → Type κ
  All [] = Unit
  All (x ∷ xs) = P x × All xs

  pub All-append : (xs ys : List A) → All xs → All ys → All (xs ++ ys)
  All-append [] ys _ hy = hy
  All-append (x ∷ xs) ys (px, hx) hy = (px, All-append xs ys hx hy)

  pub All-append_left : (xs ys : List A) → All (xs ++ ys) → All xs
  All-append_left [] ys h = tt
  All-append_left (x ∷ xs) ys (px, h) = (px, All-append_left xs ys h)

  pub All-append_right : (xs ys : List A) → All (xs ++ ys) → All ys
  All-append_right [] ys h = h
  All-append_right (x ∷ xs) ys (px, h) = All-append_right xs ys h

module _ {ℓ} {A : Type ℓ} (p : A → Bool) where
  pub find-append :
      (xs ys : List A) → find p (xs ++ ys) ≡ (if is_some (find p xs) then find p xs else find p ys)
  find-append [] ys = refl
  find-append (x ∷ xs) ys = ground (arith, find-append xs ys)

  pub find-All :
      (P : A → Type 0) (xs : List A) (a : A) → All P xs → find p xs ≡ some a → (p a ≡ true) × P a
  find-All P [] a ok = λ h. cc
  find-All P (x ∷ xs) a (px, rest) = elim (Bool-cases (p x)) [
    | inl e ↦
        rw (e)
          (λ h. let same = some-injective x a h in subst (λ y. (p y ≡ true) × P y) same (e, px))
    | inr e ↦ rw (e) (find-All P xs a rest)
  ]

  pub find-none : (xs : List A) → find p xs ≡ none → All (λ x. p x ≡ false) xs
  find-none [] = λ h. tt
  find-none (x ∷ xs) = elim (Bool-cases (p x)) [
    | inl e ↦ rw (e) (λ h. cc)
    | inr e ↦ rw (e) (λ h. (refl, find-none xs h))
  ]
