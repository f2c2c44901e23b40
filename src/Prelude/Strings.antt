-- ===== src/Prelude/Strings.antt =====
-- Text as code points, and the functions of Rust's `str` that the program calls.
use Prim.Native.Nat.{ℕ, suc, ◌+◌, ◌-◌, ◌≤◌}
use Prim.Native.Char.{code}
use Prim.Native.String.{String}
use mathlib.Core.Path.{◌≡◌, refl, ap₂}
use mathlib.Core.Logic.{◌≢◌, ◌↔◌, inl, inr}
use mathlib.Core.Bool.{Bool, true, false, ◌&&◌, ◌||◌}
use mathlib.Core.List.{List, [], ◌∷◌, ◌++◌, map}
use mathlib.Core.Option.{Option, none, some}
use native.Mathlib.Omega.{arith}
use echoi_rcd.Prelude.Tests.{leb, ◌==◌, if◌then◌else◌, Option-cases}
use echoi_rcd.Prelude.Lists.{All, length}

abbrev pub Text : Type 0
Text = List ℕ

-- The code points of a literal.
abbrev pub codes : String → Text
codes String.[] = []
codes (String.◌∷◌ c s) = code c ∷ codes s

abbrev pub Lacks : ℕ → Text → Type 0
Lacks b = All (λ c. c ≢ b)

-- Equality of texts.
unfoldable pub text_eq : Text → Text → Bool
text_eq [] [] = true
text_eq [] (d ∷ t) = false
text_eq (c ∷ s) [] = false
text_eq (c ∷ s) (d ∷ t) = c == d && text_eq s t

-- `to_ascii_uppercase` and `to_ascii_lowercase`, one character at a time.
abbrev pub upper : ℕ → ℕ
upper c = if leb b'a' c && leb c b'z' then c - 32 else c

abbrev pub lower : ℕ → ℕ
lower c = if leb b'A' c && leb c b'Z' then c + 32 else c

abbrev pub to_upper : Text → Text
to_upper = map upper

abbrev pub to_lower : Text → Text
to_lower = map lower

-- `eq_ignore_ascii_case`.
abbrev pub eq_ignore_case : Text → Text → Bool
eq_ignore_case s t = text_eq (to_lower s) (to_lower t)

abbrev pub is_digit : ℕ → Bool
is_digit c = leb b'0' c && leb c b'9'

-- `strip_prefix` with a character.
abbrev pub strip_char : ℕ → Text → Option Text
strip_char c [] = none
strip_char c (d ∷ s) = if d == c then some s else none

-- `strip_prefix` with a text.
abbrev pub strip_prefix : Text → Text → Option Text
strip_prefix [] s = some s
strip_prefix (c ∷ p) [] = none
strip_prefix (c ∷ p) (d ∷ s) = if d == c then strip_prefix p s else none

abbrev pub starts_with_char : ℕ → Text → Bool
starts_with_char c [] = false
starts_with_char c (d ∷ s) = d == c

abbrev pub contains_char : ℕ → Text → Bool
contains_char c [] = false
contains_char c (d ∷ s) = d == c || contains_char c s

-- `trim_start_matches` with a character.
unfoldable pub trim_start : ℕ → Text → Text
trim_start c [] = []
trim_start c (d ∷ s) = if d == c then trim_start c s else d ∷ s

abbrev add_front : ℕ → Option (Text × Text) → Option (Text × Text)
add_front d none = none
add_front d (some (a, b)) = some (d ∷ a, b)

-- `split_once` with a character.
unfoldable pub split_once : ℕ → Text → Option (Text × Text)
split_once c [] = none
split_once c (d ∷ s) = if d == c then some ([], s) else add_front d (split_once c s)

abbrev head_cons : ℕ → List Text → List Text
head_cons d [] = (d ∷ []) ∷ []
head_cons d (p ∷ ps) = (d ∷ p) ∷ ps

-- `split` with a character.
unfoldable pub split : ℕ → Text → List Text
split c [] = [] ∷ []
split c (d ∷ s) = if d == c then [] ∷ split c s else head_cons d (split c s)

-- `join` of a slice of texts with a character.
abbrev pub ends_with_char : ℕ → Text → Bool
ends_with_char c [] = false
ends_with_char c (d ∷ []) = d == c
ends_with_char c (d ∷ e ∷ s) = ends_with_char c (e ∷ s)

abbrev put_before : ℕ → List Text → List Text
put_before c [] = (c ∷ []) ∷ []
put_before c (l ∷ ls) = (c ∷ l) ∷ ls

-- `lines` of a text: cut behind each newline, with that newline taken off and one carriage return
-- before it.
unfoldable pub lines : Text → List Text
lines [] = []
lines (c ∷ s) =
    let rest = lines s in
    if c == 0xA
    then [] ∷ rest
    else if c == 0xD && starts_with_char 0xA s
    then rest
    else put_before c rest

unfoldable pub join : ℕ → List Text → Text
join c [] = []
join c (p ∷ []) = p
join c (p ∷ q ∷ ps) = p ++ c ∷ join c (q ∷ ps)

pub text_eq_refl : (s : Text) → text_eq s s ≡ true
unfolding text_eq
text_eq_refl [] = refl
text_eq_refl (c ∷ s) = ground (arith, text_eq_refl s)

pub text_eq_sym : (s t : Text) → text_eq s t ≡ text_eq t s
unfolding text_eq
text_eq_sym [] [] = refl
text_eq_sym [] (d ∷ t) = refl
text_eq_sym (c ∷ s) [] = refl
text_eq_sym (c ∷ s) (d ∷ t) = ground (arith, text_eq_sym s t)

pub text_eq→eq : (s t : Text) → text_eq s t ≡ true → s ≡ t
unfolding text_eq
text_eq→eq [] [] h = refl
text_eq→eq [] (d ∷ t) h = cc
text_eq→eq (c ∷ s) [] h = cc
text_eq→eq (c ∷ s) (d ∷ t) h = ground (arith, text_eq→eq s t)

pub text_eq_iff : (s t : Text) → (text_eq s t ≡ true) ↔ (s ≡ t)
text_eq_iff s t = (text_eq→eq s t, λ e. rw e (text_eq_refl t))

pub upper-upper : (c : ℕ) → upper (upper c) ≡ upper c
upper-upper c = ground arith

pub to_upper-to_upper : (s : Text) → to_upper (to_upper s) ≡ to_upper s
to_upper-to_upper [] = refl
to_upper-to_upper (c ∷ s) = ap₂ ◌∷◌ (upper-upper c) (to_upper-to_upper s)

module _ (c : ℕ) where
  -- A cut at the first separator.
  pub split_once-append : (p r : Text) → Lacks c p → split_once c (p ++ c ∷ r) ≡ some (p, r)
  unfolding split_once
  split_once-append [] r h = ground arith
  split_once-append (d ∷ p) r (hd, hp) = ground (arith, split_once-append p r hp)

  pub split_once-none : (p : Text) → Lacks c p → split_once c p ≡ none
  unfolding split_once
  split_once-none [] h = refl
  split_once-none (d ∷ p) (hd, hp) = ground (arith, split_once-none p hp)

  -- What a cut says of the text that was cut.
  pub split_once_sound :
      (s a b : Text) → split_once c s ≡ some (a, b) → Lacks c a × (s ≡ a ++ c ∷ b)
  unfolding split_once
  split_once_sound [] a b h = cc
  split_once_sound (d ∷ s) [] b h = ground arith
  split_once_sound (d ∷ s) (e ∷ a) b h = ground (arith, split_once_sound s a b)

  pub split_once-none_sound : (s : Text) → split_once c s ≡ none → Lacks c s
  unfolding split_once
  split_once-none_sound [] h = tt
  split_once-none_sound (d ∷ s) h = ground (arith, split_once-none_sound s)

  pub split_once-length :
      (s : Text) {a b : Text} → split_once c s ≡ some (a, b) → suc (length b) ≤ length s
  unfolding split_once
  split_once-length [] h = cc
  split_once-length (d ∷ s) {a} {b} h = elim (Option-cases (split_once c s)) [
    | inl e ↦ ground arith
    | inr ((a', b'), e) ↦ ground (arith, split_once-length s {a = a'} {b = b'} e)
  ]

  pub length-trim_start : (s : Text) → length (trim_start c s) ≤ length s
  unfolding trim_start
  length-trim_start [] = omega arith
  length-trim_start (d ∷ s) = ground (arith, length-trim_start s)

  -- What is left after trimming does not begin with the trimmed character.
  abbrev pub StartsOther : Text → Type 0
  StartsOther [] = Unit
  StartsOther (d ∷ s) = d ≢ c

  pub trim_start-StartsOther : (s : Text) → StartsOther (trim_start c s)
  unfolding trim_start
  trim_start-StartsOther [] = tt
  trim_start-StartsOther (d ∷ s) = ground (arith, trim_start-StartsOther s)

  pub trim_start_id : (s : Text) → StartsOther s → trim_start c s ≡ s
  unfolding trim_start
  trim_start_id [] h = refl
  trim_start_id (d ∷ s) h = ground arith

  pub contains_char-Lacks : (s : Text) → contains_char c s ≡ false → Lacks c s
  contains_char-Lacks [] h = tt
  contains_char-Lacks (d ∷ s) h = ground (arith, contains_char-Lacks s)

pub split-append : (c : ℕ) (p r : Text) → Lacks c p → split c (p ++ c ∷ r) ≡ p ∷ split c r
unfolding split
split-append c [] r h = ground arith
split-append c (d ∷ p) r h = ground (arith, split-append c p r)

split-ne-nil : (c : ℕ) (s : Text) → split c s ≢ []
unfolding split
split-ne-nil c [] = ground arith
split-ne-nil c (d ∷ s) = ground arith

-- Joining the parts of a text gives the text.
pub join-split : (c : ℕ) (s : Text) → join c (split c s) ≡ s
unfolding split join
join-split c [] = refl
join-split c (d ∷ s) = by_parts (split c s) (split-ne-nil c s) (join-split c s)
  where
    by_parts :
        (l : List Text)
        → l ≢ []
        → join c l ≡ s
        → join c (if d == c then [] ∷ l else head_cons d l) ≡ d ∷ s
    by_parts [] ne h = absurd (ne refl)
    by_parts (p ∷ []) ne h = ground arith
    by_parts (p ∷ q ∷ ps) ne h = ground arith

pub lines-append :
    (l s : Text) → Lacks 0xA l → ends_with_char 0xD l ≡ false → lines (l ++ 0xA ∷ s) ≡ l ∷ lines s
unfolding lines
lines-append [] s h e = refl
lines-append (c ∷ []) s (h, hs) e = ground (arith, e)
lines-append (c ∷ d ∷ l) s (h, (hd, hs)) e = ground (arith, lines-append (d ∷ l) s)

pub ends_with_char-append :
    (c d : ℕ) (p s : Text)
    → d ≢ c
    → ends_with_char c s ≡ false
    → ends_with_char c (p ++ d ∷ s) ≡ false
ends_with_char-append c d [] [] ne h = ground arith
ends_with_char-append c d [] (e ∷ s) ne h = h
ends_with_char-append c d (x ∷ []) s ne h = ends_with_char-append c d [] s ne h
ends_with_char-append c d (x ∷ y ∷ p) s ne h = ends_with_char-append c d (y ∷ p) s ne h
