-- ===== src/Glob.antt =====
-- src/channels.rs: `glob_match` and its two loops. An index into the pattern or the text is the
-- suffix that begins there; `star` and `mark` are the suffixes behind the last star tried.
pub mod Matching
pub mod Sound
pub mod Total
pub mod Complete
pub mod Decides
pub mod Agree
mod Examples
use echoi_rcd.Prelude.{
  ℕ, zero, suc, ◌+◌, ◌*◌, Bool, true, false, ◌&&◌, ◌||◌, List, [], ◌∷◌, Option, none, some, Text,
  if◌then◌else◌, ◌==◌, ltb, length, is_nil, get_or, lower, trim_start,
}

-- The pattern behind the last star, and the text where that star's run ends for now.
abbrev pub Back : Type 0
Back = Option (Text × Text)

abbrev pub Round : Type 0
Round = Text → Text → Back → Option Bool

-- `mark += 1`
abbrev pub advance : Text → Text
advance [] = []
advance (d ∷ t) = t

-- The last two branches of the loop: the star takes one more character, or there is no match.
pub retry : Back → Round → Option Bool
retry none next = some false
retry (some (p, mark)) next = next p (advance mark) (some (p, advance mark))

module _ (same : ℕ → ℕ → Bool) where
  -- The first test of the loop.
  abbrev pub accepts : ℕ → ℕ → Bool
  accepts c d = c == b'?' || same c d

  -- Both loops of the matcher. `none` means that the fuel ran out.
  pub glob_loop : ℕ → Round
  glob_loop zero p t star = none
  glob_loop (suc f) p [] star = some (is_nil (trim_start b'*' p))
  glob_loop (suc f) [] (d ∷ t) star = retry star (glob_loop f)
  glob_loop (suc f) (c ∷ p) (d ∷ t) star =
      let onward = glob_loop f p t star in
      let starred = glob_loop f p (d ∷ t) (some (p, d ∷ t)) in
      let again = retry star (glob_loop f) in
      if accepts c d then onward else if c == b'*' then starred else again

  -- The star can take each character of the text, and between two retries the pattern runs out.
  pub glob_with : Text → Text → Option Bool
  glob_with p t = glob_loop (suc (length t) * suc (length p)) p t none

-- `eq_ignore_ascii_case` on a byte, and the equality of characters.
abbrev pub same_byte : ℕ → ℕ → Bool
same_byte c d = lower c == lower d

abbrev pub same_char : ℕ → ℕ → Bool
same_char c d = c == d

pub glob_bytes : Text → Text → Option Bool
glob_bytes = glob_with same_byte

pub glob_chars : Text → Text → Option Bool
glob_chars = glob_with same_char

-- `is_ascii`
abbrev pub is_ascii : Text → Bool
is_ascii [] = true
is_ascii (c ∷ s) = ltb c 128 && is_ascii s

-- `to_lowercase` of the standard library maps by the tables of Unicode, which are a parameter.
pub glob_match : (Text → Text) → Text → Text → Bool
glob_match to_lowercase pat s =
    get_or
      (if is_ascii pat && is_ascii s
        then glob_bytes pat s
        else glob_chars (to_lowercase pat) (to_lowercase s))
      false
