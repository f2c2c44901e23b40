-- ===== src/Link/Bursts.antt =====
-- The modes of a remote user, and the members that a burst lists.
use echoi_rcd.Prelude.{
  ℕ, Bool, true, false, List, [], ◌∷◌, ◌++◌, Option, none, some, Text, if◌then◌else◌, ◌==◌,
  contains_char, retain, not, split, split_once, get_or,
}

-- One character of the change: a sign, or a letter to add or to drop.
unfoldable pub apply_letter : Bool × Text → ℕ → Bool × Text
apply_letter (adding, modes) c =
    if c == b'+'
    then (true, modes)
    else if c == b'-'
    then (false, modes)
    else if adding
    then (true, (if contains_char c modes then modes else modes ++ c ∷ []))
    else (false, retain (λ m. not (m == c)) modes)

unfoldable pub apply_umodes : Bool × Text → Text → Bool × Text
apply_umodes acc [] = acc
apply_umodes acc (c ∷ changes) = apply_umodes (apply_letter acc c) changes

unfoldable pub apply_umode_string : Text → Text → Text
apply_umode_string modes changes = (apply_umodes (true, modes) changes).1

abbrev head : List Text → Option Text
head [] = none
head (p ∷ ps) = some p

-- The status letters and the uuid of a member `ov,0AAAAAAAB:membid`.
unfoldable pub split_member : Text → Text × Text
split_member tok =
    let (letters, rest) = get_or (split_once b',' tok) ([], tok) in
    (letters, get_or (head (split b':' rest)) rest)
