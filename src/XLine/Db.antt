-- ===== src/XLine/Db.antt =====
-- The text form in which bans are saved and loaded, one line for each ban.
use echoi_rcd.Prelude.{
  ℕ, ◌≤◌, Bool, true, false, All-append, ends_with_char, ends_with_char-append, show_nat-Lacks, not,
  ◌&&◌, List, [], ◌∷◌, ◌++◌, Option, none, some, Text, if◌then◌else◌, ◌≡◌, ◌≢◌, refl, arith, is_nil,
  is_nil-false, is_digit, split, join, split-append, join-split, Lacks, show_nat, parse_uint,
  max_u64, get_or, All, IsDigit, show_nat-IsDigit, show_nat-ne-nil, parse_uint-show_nat, ◌>>=◌,
}
use echoi_rcd.XLine.Kinds.{XKind, XLine, tag, from_tag, from_tag-tag}

abbrev pub all_digits : Text → Bool
all_digits [] = true
all_digits (c ∷ s) = is_digit c && all_digits s

-- The fields after the expiry: the set-time, where the fourth field is a number, setter and reason.
unfoldable pub read_origin : Text → List Text → Option (ℕ × (Text × Text))
read_origin fourth rest =
    if not (is_nil fourth) && all_digits fourth
    then elim rest [
      | [] ↦ none
      | setter ∷ reason ↦ some (get_or (parse_uint max_u64 fourth) 0, (setter, join b' ' reason))
    ]
    else some (0, (fourth, join b' ' rest))

unfoldable pub from_fields : Text → Text → Text → Text → List Text → Option XLine
from_fields t mask exp fourth rest = do
  kind ← from_tag t
  (set_at, (setter, reason)) ← read_origin fourth rest
  if is_nil setter
      then none
      else some (record {
        kind = kind;
        mask = mask;
        reason = reason;
        setter = setter;
        expires = get_or (parse_uint max_u64 exp) 0;
        set_at = set_at;
      })

unfoldable pub take_fields : List Text → Option XLine
take_fields (t ∷ mask ∷ exp ∷ fourth ∷ rest) = from_fields t mask exp fourth rest
take_fields fields = none

unfoldable pub parse_db_line : Text → Option XLine
parse_db_line line = take_fields (split b' ' line)

-- A line of `save_xlines`, without its end.
unfoldable pub write_db_line : XLine → Text
write_db_line x =
    tag x.kind
    ++ b' '
      ∷ (x.mask
          ++ b' '
            ∷ (show_nat x.expires
                ++ b' ' ∷ (show_nat x.set_at ++ b' ' ∷ (x.setter ++ b' ' ∷ x.reason))))

all_digits_iff : (s : Text) → All IsDigit s → all_digits s ≡ true
all_digits_iff [] h = refl
all_digits_iff (c ∷ s) h = ground (arith, all_digits_iff s h.1)

tag-Lacks : (k : XKind) → Lacks b' ' (tag k) × Lacks 0xA (tag k)
unfolding tag
tag-Lacks XKind.kline = ground arith
tag-Lacks _ = ground arith

-- A ban that the text form can hold.
abbrev pub IsStorable : XLine → Type 0
IsStorable x =
    Lacks b' ' x.mask
    × (Lacks b' ' x.setter × ((x.setter ≢ []) × ((x.expires ≤ max_u64) × (x.set_at ≤ max_u64))))

-- A ban that stays one line of the text: no line ends in it, and no carriage return before one.
abbrev pub IsOneLine : XLine → Type 0
IsOneLine x =
    Lacks 0xA x.mask
    × (Lacks 0xA x.setter × (Lacks 0xA x.reason × (ends_with_char 0xD x.reason ≡ false)))

-- A ban whose mask and setter hold no space, and which has a setter, is loaded as it was saved.
pub parse_db_line-write_db_line :
    (x : XLine) → IsStorable x → parse_db_line (write_db_line x) ≡ some x
unfolding parse_db_line write_db_line take_fields from_fields read_origin
parse_db_line-write_db_line x (mask_ok, (setter_ok, (has_setter, (le, le_at)))) = rw (
  split-append b' ' (tag x.kind)
      (x.mask
        ++ b' '
          ∷ (show_nat x.expires
              ++ b' ' ∷ (show_nat x.set_at ++ b' ' ∷ (x.setter ++ b' ' ∷ x.reason))))
      (tag-Lacks x.kind).0,
  split-append b' ' x.mask
      (show_nat x.expires ++ b' ' ∷ (show_nat x.set_at ++ b' ' ∷ (x.setter ++ b' ' ∷ x.reason)))
      mask_ok,
  split-append b' ' (show_nat x.expires) (show_nat x.set_at ++ b' ' ∷ (x.setter ++ b' ' ∷ x.reason))
      (show_nat-Lacks b' ' x.expires refl),
  split-append b' ' (show_nat x.set_at) (x.setter ++ b' ' ∷ x.reason)
      (show_nat-Lacks b' ' x.set_at refl),
  split-append b' ' x.setter x.reason setter_ok,
  from_tag-tag x.kind,
  is_nil-false (show_nat x.set_at) (show_nat-ne-nil x.set_at),
  all_digits_iff (show_nat x.set_at) (show_nat-IsDigit x.set_at),
  is_nil-false x.setter has_setter,
  parse_uint-show_nat max_u64 x.expires le,
  parse_uint-show_nat max_u64 x.set_at le_at,
  join-split b' ' x.reason,
)

space-Lacks : Lacks 0xA (b' ' ∷ [])
space-Lacks = ground arith

fields-Lacks :
    (a b c d e f : Text)
    → Lacks 0xA a
    → Lacks 0xA b
    → Lacks 0xA c
    → Lacks 0xA d
    → Lacks 0xA e
    → Lacks 0xA f
    → Lacks 0xA (a ++ b' ' ∷ (b ++ b' ' ∷ (c ++ b' ' ∷ (d ++ b' ' ∷ (e ++ b' ' ∷ f)))))
fields-Lacks a b c d e f ha hb hc hd he hf =
    let both = λ (s t : Text) (hs : Lacks 0xA s) (ht : Lacks 0xA t).
      All-append (λ x. x ≢ 0xA) s (b' ' ∷ t) hs (space-Lacks.0, ht) in
    both a _ ha (both b _ hb (both c _ hc (both d _ hd (both e f he hf))))

pub write_db_line-Lacks : (x : XLine) → IsOneLine x → Lacks 0xA (write_db_line x)
unfolding write_db_line
write_db_line-Lacks x (mask_ok, (setter_ok, (reason_ok, end_ok))) =
    fields-Lacks (tag x.kind) x.mask (show_nat x.expires) (show_nat x.set_at) x.setter x.reason
      (tag-Lacks x.kind).1 mask_ok (show_nat-Lacks 0xA x.expires refl)
      (show_nat-Lacks 0xA x.set_at refl) setter_ok reason_ok

fields-ends :
    (a b c d e f : Text)
    → ends_with_char 0xD f ≡ false
    → ends_with_char 0xD (a ++ b' ' ∷ (b ++ b' ' ∷ (c ++ b' ' ∷ (d ++ b' ' ∷ (e ++ b' ' ∷ f)))))
      ≡ false
fields-ends a b c d e f h =
    let add = λ (s t : Text). ends_with_char-append 0xD b' ' s t (ground arith) in
    add a _ (add b _ (add c _ (add d _ (add e f h))))

pub write_db_line-ends : (x : XLine) → IsOneLine x → ends_with_char 0xD (write_db_line x) ≡ false
unfolding write_db_line
write_db_line-ends x (mask_ok, (setter_ok, (reason_ok, end_ok))) =
    fields-ends (tag x.kind) x.mask (show_nat x.expires) (show_nat x.set_at) x.setter x.reason
      end_ok
