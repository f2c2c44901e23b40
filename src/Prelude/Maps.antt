-- ===== src/Prelude/Maps.antt =====
-- Hash maps as association lists, over keys with a Boolean equality. The order of the entries stands
-- for the order in which the map is iterated, of which the program knows nothing.
use Prim.Native.Nat.{ℕ}
use mathlib.Core.Path.{◌≡◌, refl, sym, ◌∙◌}
use mathlib.Core.Logic.{◌↔◌, inl, inr}
use mathlib.Core.Bool.{Bool, true, false, false≢true}
use mathlib.Core.List.{List, [], ◌∷◌, map}
use mathlib.Core.Option.{Option, none, some}
use native.Mathlib.Omega.{arith}
use echoi_rcd.Prelude.Tests.{◌==◌, ==_iff, if◌then◌else◌, Bool-cases, is_some}
use echoi_rcd.Prelude.Strings.{Text, text_eq, text_eq_iff}

pub record Key {ℓ} (K : Type ℓ) : Type ℓ where
  pub beq : K → K → Bool
  pub beq_iff : (a b : K) → (beq a b ≡ true) ↔ (a ≡ b)

instance abbrev pub nat_key : Key ℕ
nat_key = record { beq = ◌==◌; beq_iff = ==_iff }

instance abbrev pub text_key : Key Text
text_key = record { beq = text_eq; beq_iff = text_eq_iff }

abbrev pub map_option {ℓ κ} : {A : Type ℓ} {B : Type κ} → (A → B) → Option A → Option B
map_option f none = none
map_option f (some a) = some (f a)

module _ {ℓ κ} {K : Type ℓ} {V : Type κ} ⦃e : Key K⦄ where
  unfoldable pub get : K → List (K × V) → Option V
  get k [] = none
  get k ((j, v) ∷ m) = if e.beq j k then some v else get k m

  -- `insert` puts a value in place of the old one.
  unfoldable pub insert : K → V → List (K × V) → List (K × V)
  insert k v [] = (k, v) ∷ []
  insert k v ((j, w) ∷ m) = if e.beq j k then (j, v) ∷ m else (j, w) ∷ insert k v m

  -- A change through `get_mut`.
  unfoldable pub modify : K → (V → V) → List (K × V) → List (K × V)
  modify k f [] = []
  modify k f ((j, w) ∷ m) = if e.beq j k then (j, f w) ∷ m else (j, w) ∷ modify k f m

  unfoldable pub remove : K → List (K × V) → List (K × V)
  remove k [] = []
  remove k ((j, w) ∷ m) = if e.beq j k then remove k m else (j, w) ∷ remove k m

  abbrev pub contains_key : K → List (K × V) → Bool
  contains_key k m = is_some (get k m)

  abbrev pub keys : List (K × V) → List K
  keys = map (λ p. p.0)

module _ {ℓ} {K : Type ℓ} ⦃e : Key K⦄ where
  beq-congr : (i j k : K) → e.beq i j ≡ true → e.beq i k ≡ e.beq j k
  beq-congr i j k h = rw ((e.beq_iff i j).0 h)

  pub beq_refl : (k : K) → e.beq k k ≡ true
  beq_refl k = (e.beq_iff k k).1 refl

  -- Two keys that differ are not both equal to a third.
  beq_apart : (i k j : K) → e.beq i k ≡ false → e.beq i j ≡ true → e.beq k j ≡ false
  beq_apart i k j h a = elim (Bool-cases (e.beq k j)) [
    | inl b ↦
        absurd
          (false≢true (sym h ∙ (e.beq_iff i k).1 ((e.beq_iff i j).0 a ∙ sym ((e.beq_iff k j).0 b))))
    | inr b ↦ b
  ]

module _ {ℓ κ} {K : Type ℓ} {V : Type κ} ⦃e : Key K⦄ where
  pub get-insert :
      (k j : K) (v : V) (m : List (K × V))
      → get j (insert k v m) ≡ (if e.beq k j then some v else get j m)
  unfolding get insert
  get-insert k j v [] = refl
  get-insert k j v ((i, w) ∷ m) = elim (Bool-cases (e.beq i k)) [
    | inl h ↦ rw (h, ← beq-congr i k j h) (ground arith)
    | inr h ↦ rw (h, get-insert k j v m) (ground (arith, beq_apart i k j h))
  ]

  pub get-modify :
      (k j : K) (f : V → V) (m : List (K × V))
      → get j (modify k f m) ≡ (if e.beq k j then map_option f (get j m) else get j m)
  unfolding get modify
  get-modify k j f [] = ground arith
  get-modify k j f ((i, w) ∷ m) = elim (Bool-cases (e.beq i k)) [
    | inl h ↦ rw (h, ← beq-congr i k j h) (ground arith)
    | inr h ↦ rw (h, get-modify k j f m) (ground (arith, beq_apart i k j h))
  ]

  pub get-remove :
      (k j : K) (m : List (K × V)) → get j (remove k m) ≡ (if e.beq k j then none else get j m)
  unfolding get remove
  get-remove k j [] = ground arith
  get-remove k j ((i, w) ∷ m) = elim (Bool-cases (e.beq i k)) [
    | inl h ↦ rw (h, get-remove k j m, ← beq-congr i k j h) (ground arith)
    | inr h ↦ rw (h, get-remove k j m) (ground (arith, beq_apart i k j h))
  ]

module _ {ℓ κ} {K : Type ℓ} {V : Type κ} ⦃e : Key K⦄ where
  -- `retain` by a test of the values. All entries of a key that goes are removed.
  unfoldable pub retain_values : (V → Bool) → List (K × V) → List (K × V)
  retain_values p [] = []
  retain_values p ((j, v) ∷ m) =
      if p v then (j, v) ∷ retain_values p m else remove j (retain_values p m)

  pub get-retain_values :
      (p : V → Bool) (k : K) (m : List (K × V))
      → get k (retain_values p m)
        ≡ elim (get k m) [ none ↦ none | some v ↦ if p v then some v else none ]
  unfolding get retain_values
  get-retain_values p k [] = refl
  get-retain_values p k ((j, v) ∷ m) =
      ground (arith, get-retain_values p k m, get-remove j k (retain_values p m))
