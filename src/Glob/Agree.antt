-- ===== src/Glob/Agree.antt =====
-- The fast path for ASCII and the general path agree.
use echoi_rcd.Prelude.{
  ℕ, zero, suc, ◌*◌, [], ◌∷◌, none, some, Text, ◌==◌, length, is_nil, ◌≡◌, refl, ap, arith, lower,
  to_lower, trim_start,
}
use echoi_rcd.Glob.{
  Back, Round, advance, retry, accepts, glob_loop, glob_with, glob_bytes, glob_chars, same_byte,
  same_char,
}

abbrev lower_back : Back → Back
lower_back none = none
lower_back (some (p, mark)) = some (to_lower p, to_lower mark)

length-to_lower : (s : Text) → length (to_lower s) ≡ length s
length-to_lower [] = refl
length-to_lower (c ∷ s) = ap suc (length-to_lower s)

advance-to_lower : (s : Text) → advance (to_lower s) ≡ to_lower (advance s)
advance-to_lower [] = refl
advance-to_lower (c ∷ s) = refl

stars-to_lower : (p : Text) → is_nil (trim_start b'*' (to_lower p)) ≡ is_nil (trim_start b'*' p)
unfolding trim_start
stars-to_lower [] = refl
stars-to_lower (c ∷ p) = ground (arith, stars-to_lower p)

-- The test of the general path on folded characters is that of the fast path.
accepts-lower : (c d : ℕ) → accepts same_char (lower c) (lower d) ≡ accepts same_byte c d
accepts-lower c d = ground arith

star-lower : (c : ℕ) → (lower c == b'*') ≡ (c == b'*')
star-lower c = ground arith

retry-to_lower :
    (star : Back) (next next' : Round)
    → ((p t : Text) (b : Back) → next (to_lower p) (to_lower t) (lower_back b) ≡ next' p t b)
    → retry (lower_back star) next ≡ retry star next'
unfolding retry
retry-to_lower none next next' ih = refl
retry-to_lower (some (p, mark)) next next' ih =
    rw (advance-to_lower mark) (ih p (advance mark) (some (p, advance mark)))

loop-to_lower :
    (f : ℕ) (p t : Text) (star : Back)
    → glob_loop same_char f (to_lower p) (to_lower t) (lower_back star)
      ≡ glob_loop same_byte f p t star
unfolding glob_loop
loop-to_lower zero p t star = refl
loop-to_lower (suc f) p [] star = ap some (stars-to_lower p)
loop-to_lower (suc f) [] (d ∷ t) star =
    retry-to_lower star (glob_loop same_char f) (glob_loop same_byte f) (loop-to_lower f)
loop-to_lower (suc f) (c ∷ p) (d ∷ t) star = rw (
  accepts-lower c d,
  star-lower c,
  loop-to_lower f p t star,
  loop-to_lower f p (d ∷ t) (some (p, d ∷ t)),
  retry-to_lower star (glob_loop same_char f) (glob_loop same_byte f) (loop-to_lower f),
)

-- Over texts folded to lower case, the matcher of characters answers as the matcher of bytes does
-- over the texts themselves.
pub glob_chars-to_lower : (p t : Text) → glob_chars (to_lower p) (to_lower t) ≡ glob_bytes p t
unfolding glob_chars glob_bytes glob_with
glob_chars-to_lower p t =
    rw (length-to_lower p, length-to_lower t)
      (loop-to_lower (suc (length t) * suc (length p)) p t none)
