-- ===== src/Channel/Masks.antt =====
-- The masks of bans, filled out to `nick!user@host`, and the names of channels.
use echoi_rcd.Prelude.{
  ℕ, Bool, true, not, ◌&&◌, ◌||◌, [], ◌∷◌, ◌++◌, Text, codes, if◌then◌else◌, ◌==◌, ltb, leb,
  contains_char, starts_with_char, any, ◌≡◌, refl, arith, inl, inr, Bool-cases, ap,
}

unfoldable pub normalize_mask : Text → Text
normalize_mask m =
    if contains_char b'!' m
    then (if contains_char b'@' m then m else m ++ codes "@*")
    else (if contains_char b'@' m then codes "*!" ++ m else m ++ codes "!*@*")

abbrev pub is_alpha : ℕ → Bool
is_alpha c = (leb b'a' c && leb c b'z') || (leb b'A' c && leb c b'Z')

-- The letters of the extbans whose value is no host mask.
abbrev pub is_verbatim : ℕ → Bool
is_verbatim c =
    c == b'a'
    || c == b'g'
    || c == b'y'
    || c == b'r'
    || c == b'j'
    || c == b's'
    || c == b'G'
    || c == b'b'
    || c == b'C'

unfoldable pub normalize_ban_mask : Text → Text
normalize_ban_mask (k ∷ d ∷ value) =
    if d == b':' && is_alpha k
    then (if is_verbatim k then k ∷ d ∷ value else k ∷ b':' ∷ normalize_mask value)
    else normalize_mask (k ∷ d ∷ value)
normalize_ban_mask m = normalize_mask m

-- A channel name, with the greatest length that is configured; `byte_length` is that of UTF-8.
unfoldable pub valid_chan : (Text → ℕ) → Text → ℕ → Bool
valid_chan byte_length name maxlen =
    starts_with_char b'#' name
    && (ltb 1 (byte_length name)
        && (leb (byte_length name) maxlen
            && not (any (λ c. c == b' ' || (c == b',' || ltb c 0x20)) name)))

contains-append :
    (c : ℕ) (s t : Text) → contains_char c (s ++ t) ≡ (contains_char c s || contains_char c t)
contains-append c [] t = refl
contains-append c (d ∷ s) t = ground (arith, contains-append c s t)

-- A filled mask has a user and a host part.
normalize_mask-parts :
    (m : Text)
    → (contains_char b'!' (normalize_mask m) ≡ true)
      × (contains_char b'@' (normalize_mask m) ≡ true)
unfolding normalize_mask
normalize_mask-parts m = ground (
  arith,
  contains-append b'!' m (codes "@*"),
  contains-append b'@' m (codes "@*"),
  contains-append b'!' m (codes "!*@*"),
  contains-append b'@' m (codes "!*@*"),
)

normalize_mask_full :
    (m : Text) → contains_char b'!' m ≡ true → contains_char b'@' m ≡ true → normalize_mask m ≡ m
unfolding normalize_mask
normalize_mask_full m h k = ground arith

normalize_mask_twice : (m : Text) → normalize_mask (normalize_mask m) ≡ normalize_mask m
normalize_mask_twice m =
    normalize_mask_full (normalize_mask m) (normalize_mask-parts m).0 (normalize_mask-parts m).1

-- The text does not begin as an extban does, by a letter and a colon.
unfoldable is_plain : Text → Bool
is_plain (k ∷ d ∷ value) = not (d == b':' && is_alpha k)
is_plain m = true

normalize_ban_mask-plain : (m : Text) → is_plain m ≡ true → normalize_ban_mask m ≡ normalize_mask m
unfolding normalize_ban_mask is_plain
normalize_ban_mask-plain (k ∷ d ∷ value) h = ground arith
normalize_ban_mask-plain (k ∷ []) h = refl
normalize_ban_mask-plain [] h = refl

normalize_mask-plain : (m : Text) → is_plain m ≡ true → is_plain (normalize_mask m) ≡ true
unfolding normalize_mask is_plain
normalize_mask-plain (k ∷ d ∷ value) h = ground arith
normalize_mask-plain (k ∷ []) h = ground arith
normalize_mask-plain [] h = refl

normalize_ban_mask_plain_twice :
    (m : Text)
    → is_plain m ≡ true
    → normalize_ban_mask (normalize_ban_mask m) ≡ normalize_ban_mask m
normalize_ban_mask_plain_twice m h =
    rw
      (
        normalize_ban_mask-plain m h,
        normalize_ban_mask-plain (normalize_mask m) (normalize_mask-plain m h),
      )
      (normalize_mask_twice m)

-- Filling out a ban mask a second time changes nothing.
pub normalize_ban_mask_twice :
    (m : Text) → normalize_ban_mask (normalize_ban_mask m) ≡ normalize_ban_mask m
unfolding normalize_ban_mask is_plain
normalize_ban_mask_twice (k ∷ d ∷ value) = elim (Bool-cases (d == b':' && is_alpha k)) [
  | inl h ↦ ground (arith, normalize_mask_twice value)
  | inr h ↦ normalize_ban_mask_plain_twice (k ∷ d ∷ value) (ap not h)
]
normalize_ban_mask_twice (k ∷ []) = normalize_ban_mask_plain_twice (k ∷ []) refl
normalize_ban_mask_twice [] = normalize_ban_mask_plain_twice [] refl
