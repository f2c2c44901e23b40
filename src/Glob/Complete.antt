-- ===== src/Glob/Complete.antt =====
-- The loop misses no match of a text without stars.
use mathlib.Core.Bool.{false≢true}
use echoi_rcd.Prelude.{
  ap, ℕ, zero, suc, Bool, true, false, [], ◌∷◌, none, some, Text, ◌==◌, ◌≡◌, ◌≢◌, refl, sym, ◌∙◌,
  arith, Lacks, inl, inr, Bool-cases, ==_iff,
}
use echoi_rcd.Glob.{Back, Round, retry, accepts, glob_loop, glob_with}
use echoi_rcd.Glob.Matching.{Matches, done, one, leave, take}
use echoi_rcd.Glob.Matching
use echoi_rcd.Glob.Total.{glob_with_total}

module _ (same : ℕ → ℕ → Bool) where
  -- Completeness, for a test under which a star is like a star only.
  module _ (G : Type 0) (only_star : (d : ℕ) → same b'*' d ≡ true → d ≡ b'*') where
    abbrev CompleteBack : Text → Text → Back → Type 0
    CompleteBack p t none = G → Matches same p t
    CompleteBack p t (some (bp, mark)) =
        (G → Matching.Starred same bp mark)
        × (Matches same bp mark → Matches same p t)
        × Lacks b'*' mark

    abbrev IsComplete : Round → Type 0
    IsComplete next =
        (p t : Text) (star : Back)
        → Lacks b'*' t
        → (G → Matching.Starred same p t)
        → CompleteBack p t star
        → next p t star ≡ some false
        → ¬ G

    retry_complete :
        (p t : Text) (star : Back) (next : Round)
        → IsComplete next
        → CompleteBack p t star
        → ¬ Matches same p t
        → retry star next ≡ some false
        → ¬ G
    unfolding retry
    retry_complete p t none next ih saved no_match e = λ g. no_match (saved g)
    retry_complete p t (some (bp, [])) next ih (later, down, lacks) no_match e =
        λ g. no_match (down (Matching.at_end same (later g)))
    retry_complete p t (some (bp, d ∷ mark)) next ih (later, down, lacks) no_match e =
        let shifted : G → Matching.Starred same bp mark =
          λ g. Matching.must_take same (λ m. no_match (down m)) (later g) in
        ih bp mark (some (bp, mark)) lacks.1 shifted (shifted, λ m. m, lacks.1) e

    not_star : (c d : ℕ) → d ≢ b'*' → accepts same c d ≡ true → c ≢ b'*'
    not_star c d ne h e = ne (only_star d (ground arith))

    CompleteBack-one :
        (c d : ℕ) (p t : Text) (star : Back)
        → c ≢ b'*'
        → CompleteBack (c ∷ p) (d ∷ t) star
        → CompleteBack p t star
    CompleteBack-one c d p t none ne saved = λ g. (Matching.one_inv same ne (saved g)).1
    CompleteBack-one c d p t (some (bp, mark)) ne (later, down, lacks) =
        (later, λ m. (Matching.one_inv same ne (down m)).1, lacks)

    loop-IsComplete : (f : ℕ) → IsComplete (glob_loop same f)
    unfolding glob_loop
    loop-IsComplete zero p t star lacks later saved e = absurd (cc)
    loop-IsComplete (suc f) p [] star lacks later saved e = λ g.
        absurd (
          false≢true (ground (arith, Matching.Matches-stars same (Matching.at_end same (later g)))))
    loop-IsComplete (suc f) [] (d ∷ t) star lacks later saved e =
        retry_complete [] (d ∷ t) star (glob_loop same f) (loop-IsComplete f) saved
          (λ m. elim m [ ]) e
    loop-IsComplete (suc f) (c ∷ p) (d ∷ t) star lacks later saved e =
        elim (Bool-cases (accepts same c d)) [
          | inl h ↦
              let ne = not_star c d lacks.0 h in
              loop-IsComplete f p t star lacks.1 (λ g. Matching.behind_test same t ne (later g))
                (CompleteBack-one c d p t star ne saved) (rw h at e)
          | inr h ↦ elim (Bool-cases (c == b'*')) [
            | inl k ↦
                let on : G → Matching.Starred same p (d ∷ t) =
                  λ g. Matching.two_stars same ((==_iff c b'*').0 k) (later g) in
                loop-IsComplete f p (d ∷ t) (some (p, d ∷ t)) lacks on (on, λ m. m, lacks)
                  (rw (h, k) at e)
            | inr k ↦
                retry_complete (c ∷ p) (d ∷ t) star (glob_loop same f) (loop-IsComplete f) saved
                  (λ m. false≢true (sym h ∙ (Matching.one_inv same (ground arith) m).0))
                  (rw (h, k) at e)
          ]
        ]

  pub glob_with_complete :
      (p t : Text)
      → ((d : ℕ) → same b'*' d ≡ true → d ≡ b'*')
      → Lacks b'*' t
      → Matches same p t
      → glob_with same p t ≡ some true
  unfolding glob_with
  glob_with_complete p t only_star lacks m =
      let (b, e) = glob_with_total same p t in
      elim (Bool-cases b) [
        | inl k ↦ e ∙ ap some k
        | inr k ↦ absurd (
            loop-IsComplete (Matches same p t) only_star _ p t none lacks (leave refl) (λ g. g)
              (e ∙ ap some k) m)
      ]
