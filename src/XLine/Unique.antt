-- ===== src/XLine/Unique.antt =====
-- The table holds at most one line for each kind and mask, and what each operation does to it.
use echoi_rcd.Prelude.{
  Bool, true, false, not, ◌||◌, ◌&&◌, List, [], ◌∷◌, ◌++◌, ◌≡◌, refl, sym, arith, any, retain,
  text_eq, text_eq_iff, text_eq_refl, text_eq_sym, ap₂, and_left, and_right, Bool-cases, inl, inr,
}
use echoi_rcd.XLine.Kinds.{XLine, tag}
use echoi_rcd.XLine.Table.{same_line, put_line, keep_first}

abbrev pub Unique : List XLine → Type 0
Unique [] = Unit
Unique (x ∷ xs) = (any (same_line x) xs ≡ false) × Unique xs

any-append : (p : XLine → Bool) (xs ys : List XLine) → any p (xs ++ ys) ≡ (any p xs || any p ys)
any-append p [] ys = refl
any-append p (x ∷ xs) ys = ground (arith, any-append p xs ys)

any-retain : (p q : XLine → Bool) (xs : List XLine) → any p xs ≡ false → any p (retain q xs) ≡ false
any-retain p q [] h = refl
any-retain p q (x ∷ xs) h = ground (arith, any-retain p q xs)

-- Dropping lines leaves the others without a double.
pub retain-Unique : (q : XLine → Bool) (xs : List XLine) → Unique xs → Unique (retain q xs)
retain-Unique q [] u = tt
retain-Unique q (x ∷ xs) (a, u) = elim (Bool-cases (q x)) [
  | inl h ↦ rw h (any-retain (same_line x) q xs a, retain-Unique q xs u)
  | inr h ↦ rw h (retain-Unique q xs u)
]

same_line_sym : (x y : XLine) → same_line x y ≡ same_line y x
same_line_sym x y = ap₂ ◌&&◌ (text_eq_sym (tag y.kind) (tag x.kind)) (text_eq_sym y.mask x.mask)

append-Unique :
    (x : XLine) (xs : List XLine) → Unique xs → any (same_line x) xs ≡ false → Unique (xs ++ x ∷ [])
append-Unique x [] u h = (refl, tt)
append-Unique x (y ∷ ys) (a, u) h = (
  rw (any-append (same_line y) ys (x ∷ [])) (ground (arith, same_line_sym x y)),
  append-Unique x ys u (ground arith),
)

none_left :
    (x : XLine) (xs : List XLine) → any (same_line x) (retain (λ y. not (same_line x y)) xs) ≡ false
none_left x [] = refl
none_left x (y ∷ ys) = ground (arith, none_left x ys)

pub put_line-Unique : (x : XLine) (xs : List XLine) → Unique xs → Unique (put_line x xs)
put_line-Unique x xs u =
    append-Unique x (retain (λ y. not (same_line x y)) xs)
      (retain-Unique (λ y. not (same_line x y)) xs u) (none_left x xs)

same_line_congr : (x y z : XLine) → same_line x y ≡ true → same_line x z ≡ same_line y z
same_line_congr x y z h =
    let kinds = (text_eq_iff (tag y.kind) (tag x.kind)).0 (and_left _ _ h) in
    let masks = (text_eq_iff y.mask x.mask).0 (and_right _ _ h) in
    ap₂ (λ t m. text_eq (tag z.kind) t && text_eq z.mask m) (sym kinds) (sym masks)

any_same :
    (x y : XLine) (zs : List XLine)
    → same_line x y ≡ true
    → any (same_line x) zs ≡ any (same_line y) zs
any_same x y [] h = refl
any_same x y (z ∷ zs) h = ap₂ ◌||◌ (same_line_congr x y z h) (any_same x y zs h)

keep_first-seen :
    (x : XLine) (seen xs : List XLine)
    → any (same_line x) seen ≡ true
    → any (same_line x) (keep_first seen xs) ≡ false
unfolding keep_first
keep_first-seen x seen [] h = refl
keep_first-seen x seen (y ∷ ys) h =
    ground (arith, keep_first-seen x seen ys, keep_first-seen x (y ∷ seen) ys, any_same x y seen)

-- Loading keeps one line of each kind and mask, whatever the store held.
pub keep_first-Unique : (seen xs : List XLine) → Unique (keep_first seen xs)
unfolding keep_first
keep_first-Unique seen [] = tt
keep_first-Unique seen (x ∷ xs) = elim (Bool-cases (any (same_line x) seen)) [
  | inl h ↦ rw h (keep_first-Unique seen xs)
  | inr h ↦ rw h (
    keep_first-seen x (x ∷ seen) xs
        (ground (arith, text_eq_refl (tag x.kind), text_eq_refl x.mask)),
    keep_first-Unique (x ∷ seen) xs,
  )
]
