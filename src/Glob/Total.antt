-- ===== src/Glob/Total.antt =====
-- The loop ends within its fuel.
use echoi_rcd.Prelude.{
  ℕ, zero, suc, ◌+◌, ◌*◌, ◌≤◌, ◌<◌, Bool, false, [], ◌∷◌, Option, none, some, Text, ◌==◌, length,
  is_nil, trim_start, ◌≡◌, refl, arith, inl, inr, Bool-cases,
}
use echoi_rcd.Glob.{Back, Round, retry, accepts, glob_loop, glob_with}

module _ (same : ℕ → ℕ → Bool) where
  -- The loop ends: `m` bounds the text that the star can still take, and `k` the pattern.
  module _ (k : ℕ) where
    abbrev Fits : ℕ → Text → Back → Type 0
    Fits m t none = length t ≤ m
    Fits m t (some (bp, mark)) = (length t ≤ length mark) × (length mark ≤ m) × (length bp < k)

    abbrev Ends : Option Bool → Type 0
    Ends r = (b : Bool) × (r ≡ some b)

    abbrev IsTotal : ℕ → Round → Type 0
    IsTotal f next =
        (m : ℕ) (p t : Text) (star : Back)
        → length p < k
        → Fits m t star
        → m * k + length p < f
        → Ends (next p t star)

    retry_total :
        (f m : ℕ) (d : ℕ) (t : Text) (star : Back) (next : Round)
        → IsTotal f next
        → Fits m (d ∷ t) star
        → m * k < suc f
        → Ends (retry star next)
    unfolding retry
    retry_total f m d t none next ih fits fuel = (false, refl)
    retry_total f m d t (some (bp, [])) next ih fits fuel = absurd (omega arith)
    retry_total f zero d t (some (bp, x ∷ mark)) next ih fits fuel = absurd (omega arith)
    retry_total f (suc m) d t (some (bp, x ∷ mark)) next ih fits fuel =
        ih m bp mark (some (bp, mark)) fits.2 (omega arith) (omega arith)

    Fits-tail : (m d : ℕ) (t : Text) (star : Back) → Fits m (d ∷ t) star → Fits m t star
    Fits-tail m d t none h = omega arith
    Fits-tail m d t (some (bp, mark)) h = omega arith

    Fits-length : (m : ℕ) (t : Text) (star : Back) → Fits m t star → length t ≤ m
    Fits-length m t none h = h
    Fits-length m t (some (bp, mark)) h = omega arith

    loop-IsTotal : (f : ℕ) → IsTotal f (glob_loop same f)
    unfolding glob_loop
    loop-IsTotal zero m p t star hp fits fuel = absurd (omega arith)
    loop-IsTotal (suc f) m p [] star hp fits fuel = (is_nil (trim_start b'*' p), refl)
    loop-IsTotal (suc f) m [] (d ∷ t) star hp fits fuel =
        retry_total f m d t star (glob_loop same f) (loop-IsTotal f) fits (omega arith)
    loop-IsTotal (suc f) m (c ∷ p) (d ∷ t) star hp fits fuel =
        elim (Bool-cases (accepts same c d)) [
          | inl h ↦
              rw h
                (loop-IsTotal f m p t star (omega arith) (Fits-tail m d t star fits) (omega arith))
          | inr h ↦ elim (Bool-cases (c == b'*')) [
            | inl e ↦
                rw (h, e)
                  (loop-IsTotal f m p (d ∷ t) (some (p, d ∷ t)) (omega arith)
                    (omega (arith, Fits-length m (d ∷ t) star fits)) (omega arith))
            | inr e ↦
                rw (h, e)
                  (retry_total f m d t star (glob_loop same f) (loop-IsTotal f) fits (omega arith))
          ]
        ]

  pub glob_with_total : (p t : Text) → (b : Bool) × (glob_with same p t ≡ some b)
  unfolding glob_with
  glob_with_total p t =
      loop-IsTotal (suc (length p)) (suc (length t) * suc (length p)) (length t) p t none
        (omega arith) (omega arith) (omega arith)
