-- ===== src/Glob/Matching.antt =====
-- What it means for a text to match a glob pattern, with no search order in it.
use mathlib.Core.Bool.{false≢true}
use echoi_rcd.Prelude.{
  ℕ, Bool, true, [], ◌∷◌, Text, ◌==◌, is_nil, trim_start, ◌≡◌, ◌≢◌, refl, sym, arith, inl, inr,
  Bool-cases, ==_iff,
}
use echoi_rcd.Glob.{accepts}

module _ (same : ℕ → ℕ → Bool) where
  -- `*` matches any run of characters, `?` any character, and each other character its like.
  pub data Matches : Text → Text → Type 0 where
    done : Matches [] []
    one :
        {c d : ℕ} {p t : Text}
        → c ≢ b'*'
        → accepts same c d ≡ true
        → Matches p t
        → Matches (c ∷ p) (d ∷ t)
    leave : {c : ℕ} {p t : Text} → c ≡ b'*' → Matches p t → Matches (c ∷ p) t
    take : {c d : ℕ} {p t : Text} → c ≡ b'*' → Matches (c ∷ p) t → Matches (c ∷ p) (d ∷ t)

  abbrev pub Starred : Text → Text → Type 0
  Starred p t = Matches (b'*' ∷ p) t

  pub stars-Matches : (p : Text) → is_nil (trim_start b'*' p) ≡ true → Matches p []
  unfolding trim_start
  stars-Matches [] h = done
  stars-Matches (c ∷ p) h = elim (Bool-cases (c == b'*')) [
    | inl e ↦ leave (ground arith) (stars-Matches p (ground arith))
    | inr e ↦ absurd (false≢true (ground arith))
  ]

  pub Matches-stars : {p : Text} → Matches p [] → is_nil (trim_start b'*' p) ≡ true
  unfolding trim_start
  Matches-stars done = refl
  Matches-stars (leave e m) = ground (arith, Matches-stars m)

  pub star_as : (c : ℕ) (p t : Text) → (c == b'*') ≡ true → Starred p t → Matches (c ∷ p) t
  star_as c p t e m = rw ((==_iff c b'*').0 e) m

  pub two_stars : {c : ℕ} {p t : Text} → c ≡ b'*' → Starred (c ∷ p) t → Starred p t
  two_stars e (one n h m) = absurd (n refl)
  two_stars e (leave _ m) = rw (sym e) m
  two_stars e (take _ m) = take refl (two_stars e m)

  pub at_end : {p : Text} → Starred p [] → Matches p []
  at_end (leave _ m) = m

  pub must_take : {d : ℕ} {p t : Text} → ¬ Matches p (d ∷ t) → Starred p (d ∷ t) → Starred p t
  must_take no_match (one n h m) = absurd (n refl)
  must_take no_match (leave _ m) = absurd (no_match m)
  must_take no_match (take _ m) = m

  -- Where `c` accepts the first character, what is behind `c` matches from there at the latest.
  pub behind_test :
      {c d : ℕ} {p : Text} (t : Text) → c ≢ b'*' → Starred (c ∷ p) (d ∷ t) → Starred p t
  behind_test t ne (one n h m) = absurd (n refl)
  behind_test t ne (leave _ (one n h m)) = leave refl m
  behind_test t ne (leave _ (leave e m)) = absurd (ne e)
  behind_test t ne (leave _ (take e m)) = absurd (ne e)
  behind_test [] ne (take _ (leave _ (leave e m))) = absurd (ne e)
  behind_test (d ∷ t) ne (take _ m) = take refl (behind_test t ne m)

  pub one_inv :
      {c d : ℕ} {p t : Text}
      → c ≢ b'*'
      → Matches (c ∷ p) (d ∷ t)
      → (accepts same c d ≡ true) × Matches p t
  one_inv ne (one n h m) = (h, m)
  one_inv ne (leave e m) = absurd (ne e)
  one_inv ne (take e m) = absurd (ne e)
