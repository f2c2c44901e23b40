-- ===== src/Glob/Sound.antt =====
-- A match that the loop reports is one.
use echoi_rcd.Prelude.{
  ℕ, zero, suc, Bool, true, [], ◌∷◌, none, some, Text, ◌==◌, ◌≡◌, refl, arith, inl, inr, Bool-cases,
  ==_iff, ℕ_discrete,
}
use echoi_rcd.Glob.{Back, Round, advance, retry, accepts, glob_loop, glob_with}
use echoi_rcd.Glob.Matching.{Matches, done, one, leave, take}
use echoi_rcd.Glob.Matching

module _ (same : ℕ → ℕ → Bool) where
  -- Soundness. `G` is the question asked at the start.
  module _ (G : Type 0) where
    abbrev SoundBack : Back → Type 0
    SoundBack none = Unit
    SoundBack (some (bp, mark)) = Matching.Starred same bp mark → G

    take_more :
        (bp mark : Text) → Matching.Starred same bp (advance mark) → Matching.Starred same bp mark
    take_more bp [] m = m
    take_more bp (d ∷ mark) m = take refl m

    abbrev IsSound : Round → Type 0
    IsSound next =
        (p t : Text) (star : Back)
        → (Matches same p t → G)
        → SoundBack star
        → next p t star ≡ some true
        → G

    retry_sound :
        (star : Back) (next : Round)
        → IsSound next
        → SoundBack star
        → retry star next ≡ some true
        → G
    unfolding retry
    retry_sound none next ih saved e = absurd (cc)
    retry_sound (some (bp, mark)) next ih saved e =
        ih bp (advance mark) (some (bp, advance mark))
          (λ m. saved (take_more bp mark (leave refl m))) (λ m. saved (take_more bp mark m)) e

    -- A character of the pattern that accepts one of the text may be a star that meets a star.
    one_more :
        (c d : ℕ) (p t : Text)
        → accepts same c d ≡ true
        → Matches same p t
        → Matches same (c ∷ p) (d ∷ t)
    one_more c d p t h m = elim (ℕ_discrete c b'*') [
      | yes e ↦ take e (leave e m)
      | no n ↦ one n h m
    ]

    loop-IsSound : (f : ℕ) → IsSound (glob_loop same f)
    unfolding glob_loop
    loop-IsSound zero p t star now saved e = absurd (cc)
    loop-IsSound (suc f) p [] star now saved e = now (Matching.stars-Matches same p (ground arith))
    loop-IsSound (suc f) [] (d ∷ t) star now saved e =
        retry_sound star (glob_loop same f) (loop-IsSound f) saved e
    loop-IsSound (suc f) (c ∷ p) (d ∷ t) star now saved e = elim (Bool-cases (accepts same c d)) [
      | inl h ↦ loop-IsSound f p t star (λ m. now (one_more c d p t h m)) saved (rw h at e)
      | inr h ↦ elim (Bool-cases (c == b'*')) [
        | inl k ↦
            loop-IsSound f p (d ∷ t) (some (p, d ∷ t)) (λ m. now (leave ((==_iff c b'*').0 k) m))
              (λ m. now (Matching.star_as same c p (d ∷ t) k m)) (rw (h, k) at e)
        | inr k ↦ retry_sound star (glob_loop same f) (loop-IsSound f) saved (rw (h, k) at e)
      ]
    ]

  pub glob_with_sound : (p t : Text) → glob_with same p t ≡ some true → Matches same p t
  unfolding glob_with
  glob_with_sound p t e = loop-IsSound (Matches same p t) _ p t none (λ m. m) tt e
