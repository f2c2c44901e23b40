-- ===== src/Glob/Decides.antt =====
-- `glob_match` on ASCII texts against the meaning of a pattern.
use echoi_rcd.Prelude.{
  ℕ, suc, none, ◌+◌, ◌*◌, Bool, true, false, ◌∷◌, [], some, Text, ◌≡◌, ◌↔◌, refl, ◌∙◌, ap, arith,
  Lacks, length,
}
use echoi_rcd.Glob.{glob_match, glob_bytes, glob_with, glob_loop, same_byte, is_ascii, retry}
use echoi_rcd.Glob.Matching.{Matches, leave, take, done}
use echoi_rcd.Glob.Sound.{glob_with_sound}
use echoi_rcd.Glob.Total.{glob_with_total}
use echoi_rcd.Glob.Complete.{glob_with_complete}

-- The matcher of bytes gives an answer for every pattern and text: its loop ends.
pub glob_bytes_total : (p t : Text) → (b : Bool) × (glob_bytes p t ≡ some b)
unfolding glob_bytes
glob_bytes_total = glob_with_total same_byte

-- On ASCII texts `glob_match` runs the matcher of bytes.
glob_match-glob_bytes :
    (lc : Text → Text) (p t : Text)
    → is_ascii p ≡ true
    → is_ascii t ≡ true
    → glob_bytes p t ≡ some (glob_match lc p t)
unfolding glob_match
glob_match-glob_bytes lc p t hp ht = ground (arith, glob_bytes_total p t)

-- On ASCII texts, `glob_match` accepts only texts that the pattern matches.
pub glob_match_sound :
    (lc : Text → Text) (p t : Text)
    → is_ascii p ≡ true
    → is_ascii t ≡ true
    → glob_match lc p t ≡ true
    → Matches same_byte p t
glob_match_sound lc p t hp ht e =
    glob_with_sound same_byte p t
      (unfold glob_bytes in (glob_match-glob_bytes lc p t hp ht ∙ ap some e))

glob_match_complete :
    (lc : Text → Text) (p t : Text)
    → is_ascii p ≡ true
    → is_ascii t ≡ true
    → Lacks b'*' t
    → Matches same_byte p t
    → glob_match lc p t ≡ true
unfolding glob_bytes
glob_match_complete lc p t hp ht lacks m = cc (
  glob_match-glob_bytes lc p t hp ht,
  glob_with_complete same_byte p t (λ d h. ground arith) lacks m,
)

-- On ASCII texts, if the subject holds no literal `*`, `glob_match` accepts exactly the texts
-- that the pattern matches, by the relation `Matches` of `*` and `?`.
pub glob_match_iff :
    (lc : Text → Text) (p t : Text)
    → is_ascii p ≡ true
    → is_ascii t ≡ true
    → Lacks b'*' t
    → (glob_match lc p t ≡ true) ↔ Matches same_byte p t
glob_match_iff lc p t hp ht lacks =
    (glob_match_sound lc p t hp ht, glob_match_complete lc p t hp ht lacks)

every_text : (t : Text) → Matches same_byte (b'*' ∷ []) t
every_text [] = leave refl done
every_text (d ∷ t) = take refl (every_text t)

star_spent :
    (f c : ℕ) (t : Text)
    → glob_loop same_byte (suc (suc f)) (b'*' ∷ []) (b'*' ∷ c ∷ t) none ≡ some false
unfolding glob_loop retry
star_spent f c t = refl

glob_bytes_misses : (c : ℕ) (t : Text) → glob_bytes (b'*' ∷ []) (b'*' ∷ c ∷ t) ≡ some false
unfolding glob_bytes glob_with
glob_bytes_misses c t =
    let fuel : suc (suc (suc (length t))) * 2 ≡ suc (suc (2 * length t + 4)) = omega arith in
    rw fuel (star_spent (2 * length t + 4) c t)

-- The pattern `*` refuses an ASCII text of a star and at least one more character, although it
-- matches every text.
pub glob_match_misses :
    (lc : Text → Text) (c : ℕ) (t : Text)
    → is_ascii (c ∷ t) ≡ true
    → (glob_match lc (b'*' ∷ []) (b'*' ∷ c ∷ t) ≡ false)
      × Matches same_byte (b'*' ∷ []) (b'*' ∷ c ∷ t)
glob_match_misses lc c t h = (
  cc (
    glob_match-glob_bytes lc (b'*' ∷ []) (b'*' ∷ c ∷ t) refl (ground arith),
    glob_bytes_misses c t,
  ),
  every_text (b'*' ∷ c ∷ t),
)
