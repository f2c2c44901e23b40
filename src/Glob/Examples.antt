-- ===== src/Glob/Examples.antt =====
-- Runs of the glob matcher.
use echoi_rcd.Glob.Agree.{glob_chars-to_lower}
use echoi_rcd.Prelude.{
  Bool, List, ℕ, to_lower, ◌≡◌, ◌↔◌, refl, true, false, some, codes, arith, trim_start,
}
use echoi_rcd.Glob.{glob_match, glob_bytes, glob_chars, glob_with, glob_loop, same_byte, retry}
use echoi_rcd.Glob.Matching.{Matches}
use echoi_rcd.Glob.Decides.{glob_match_sound, glob_match_iff, glob_bytes_total}

abbrev same_text : List ℕ → List ℕ
same_text s = s

backtracks : glob_bytes (codes "*!*@*.net") (codes "a.net!b@c.NET") ≡ some true
unfolding glob_bytes glob_with glob_loop retry trim_start
backtracks = refl

starred_spam : glob_bytes (codes "*spam*") (codes "*buy spam*") ≡ some false
unfolding glob_bytes glob_with glob_loop retry trim_start
starred_spam = refl

matches_run : glob_match same_text (codes "*.net") (codes "a.NET") ≡ true
unfolding glob_match glob_bytes glob_with glob_loop retry trim_start
matches_run = refl

glob_match_sound_example : Matches same_byte (codes "*.net") (codes "a.NET")
glob_match_sound_example =
    glob_match_sound same_text (codes "*.net") (codes "a.NET") refl refl matches_run

glob_match_iff_example :
    (glob_match same_text (codes "a?c*") (codes "abcde") ≡ true)
    ↔ Matches same_byte (codes "a?c*") (codes "abcde")
glob_match_iff_example =
    glob_match_iff same_text (codes "a?c*") (codes "abcde") refl refl (omega arith)

glob_bytes_total_example : (b : Bool) × (glob_bytes (codes "*a*b") (codes "aab") ≡ some b)
glob_bytes_total_example = glob_bytes_total (codes "*a*b") (codes "aab")

glob_chars-to_lower_example :
    glob_chars (to_lower (codes "A*")) (to_lower (codes "aBc"))
    ≡ glob_bytes (codes "A*") (codes "aBc")
glob_chars-to_lower_example = glob_chars-to_lower (codes "A*") (codes "aBc")
