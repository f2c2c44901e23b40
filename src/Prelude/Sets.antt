-- ===== src/Prelude/Sets.antt =====
-- Hash sets as lists, and the map from a key to a set that serves as a reverse index.
use mathlib.Core.Path.{◌≡◌, refl}
use mathlib.Core.Bool.{Bool, true, false, ◌||◌, ◌&&◌}
use mathlib.Core.Logic.{inl, inr}
use mathlib.Core.List.{List, [], ◌∷◌, ◌++◌}
use mathlib.Core.Option.{none, some}
use native.Mathlib.Omega.{arith}
use echoi_rcd.Prelude.Tests.{if◌then◌else◌, Bool-cases, Option-cases, get_or}
use echoi_rcd.Prelude.Lists.{is_nil}
use echoi_rcd.Prelude.Maps.{Key, get, insert, remove, get-insert, get-remove}

module _ {ℓ} {A : Type ℓ} ⦃e : Key A⦄ where
  abbrev pub contains : A → List A → Bool
  contains a [] = false
  contains a (x ∷ xs) = e.beq x a || contains a xs

  -- `remove` of a set, and `retain` of all but one value.
  abbrev pub without : A → List A → List A
  without a [] = []
  without a (x ∷ xs) = if e.beq x a then without a xs else x ∷ without a xs

  abbrev pub set_insert : A → List A → List A
  set_insert a xs = if contains a xs then xs else a ∷ xs

  pub beq_congr : (x y a : A) → e.beq x y ≡ true → e.beq y a ≡ e.beq x a
  beq_congr x y a h = rw ((e.beq_iff x y).0 h)

  pub contains-append :
      (a : A) (xs ys : List A) → contains a (xs ++ ys) ≡ (contains a xs || contains a ys)
  contains-append a [] ys = refl
  contains-append a (x ∷ xs) ys = ground (arith, contains-append a xs ys)

  pub beq_congr_right : (x a b : A) → e.beq a b ≡ true → e.beq x a ≡ e.beq x b
  beq_congr_right x a b h = rw ((e.beq_iff a b).0 h)

  contains-congr : (a b : A) (xs : List A) → e.beq a b ≡ true → contains a xs ≡ contains b xs
  contains-congr a b xs h = rw ((e.beq_iff a b).0 h)

  pub contains-nil : (v : A) (xs : List A) → is_nil xs ≡ true → contains v xs ≡ false
  contains-nil v [] h = refl
  contains-nil v (x ∷ xs) h = cc

  pub contains-without :
      (a b : A) (xs : List A)
      → contains b (without a xs) ≡ (if e.beq a b then false else contains b xs)
  contains-without a b [] = ground arith
  contains-without a b (x ∷ xs) =
      ground (arith, contains-without a b xs, beq_congr x a b, beq_congr_right x a b)

  pub contains-set_insert :
      (a b : A) (xs : List A)
      → contains b (set_insert a xs) ≡ (if e.beq a b then true else contains b xs)
  contains-set_insert a b xs = ground (arith, contains-congr a b xs)

-- The map from each value to the set of those that list it.
module _ {ℓ κ} {K : Type ℓ} {U : Type κ} ⦃e : Key K⦄ ⦃d : Key U⦄ where
  -- Whether the index holds `u` under the key `n`.
  abbrev pub indexed : K → U → List (K × List U) → Bool
  indexed n u by = contains u (get_or (get n by) [])

  -- `entry(n).or_default().insert(u)`
  unfoldable pub index : K → U → List (K × List U) → List (K × List U)
  index n u by = insert n (set_insert u (get_or (get n by) [])) by

  -- `u` is removed from the set under `n`, and the set as well once it is empty.
  unfoldable pub unindex : U → K → List (K × List U) → List (K × List U)
  unindex u n by = elim (get n by) [
    | none ↦ by
    | some set ↦ if is_nil (without u set) then remove n by else insert n (without u set) by
  ]

  unfoldable pub unindex_all : U → List K → List (K × List U) → List (K × List U)
  unindex_all u [] by = by
  unindex_all u (n ∷ ns) by = unindex_all u ns (unindex u n by)

  get-congr : (n m : K) (by : List (K × List U)) → e.beq n m ≡ true → get n by ≡ get m by
  get-congr n m by h = rw ((e.beq_iff n m).0 h)

  pub indexed-index :
      (n m : K) (u v : U) (by : List (K × List U))
      → indexed m v (index n u by) ≡ ((e.beq n m && d.beq u v) || indexed m v by)
  unfolding index
  indexed-index n m u v by =
      rw (get-insert n m (set_insert u (get_or (get n by) [])) by)
        (ground (arith, contains-set_insert u v (get_or (get n by) []), get-congr n m by))

  pub indexed-unindex :
      (n m : K) (u v : U) (by : List (K × List U))
      → indexed m v (unindex u n by) ≡ (if e.beq n m && d.beq u v then false else indexed m v by)
  unfolding unindex
  indexed-unindex n m u v by = elim (Option-cases (get n by)) [
    | inl h ↦ rw (h, unindex) (ground (arith, get-congr n m by))
    | inr (set, h) ↦ elim (Bool-cases (is_nil (without u set))) [
      | inl k ↦
          rw (h, k, unindex, get-remove n m by)
            (ground
              (arith, get-congr n m by, contains-without u v set, contains-nil v (without u set) k))
      | inr k ↦
          rw (h, k, unindex, get-insert n m (without u set) by)
            (ground (arith, get-congr n m by, contains-without u v set))
    ]
  ]

  -- Removing a user from every set of its list.
  pub indexed-unindex_all :
      (m : K) (u v : U) (ns : List K) (by : List (K × List U))
      → indexed m v (unindex_all u ns by)
        ≡ (if contains m ns && d.beq u v then false else indexed m v by)
  unfolding unindex_all
  indexed-unindex_all m u v [] by = refl
  indexed-unindex_all m u v (n ∷ ns) by =
      ground (arith, indexed-unindex_all m u v ns (unindex u n by), indexed-unindex n m u v by)
