-- ===== src/Channel/Member/Grants.antt =====
-- What granting and taking a prefix does to a member's rank.
use mathlib.Core.Bool.{false≢true}
use echoi_rcd.Prelude.{
  ℕ, ◌≤◌, ◌<◌, max, Bool, true, false, not, List, [], ◌∷◌, ◌++◌, Option, none, some, if◌then◌else◌,
  ◌==◌, ==_iff, ◌≡◌, refl, arith, inl, inr, Bool-cases, Option-cases, is_some, retain, map_option,
}
use echoi_rcd.Channel.Prefixes.{PrefixCfg, PrefixDef, def_for_letter}
use echoi_rcd.Channel.Member.{
  Member, builtin_rank, raise_rank, rank, custom_held, set_bit, set_prefix, clear_status, oprefix,
  rank_oper, rank_owner, rank_admin, rank_op, rank_halfop, rank_voice,
}
use echoi_rcd.Channel.Member.Bits.{Bit, mask, has_bit-with_bit, has_bit-clear, with_bit-lt}
use echoi_rcd.Channel.Member.Ranks.{top, raise_rank-top}

-- A member whose prefixes are a byte.
abbrev pub IsByte : Member → Type 0
IsByte m = m.prefixes < 256

abbrev pub bit_letter : Bit → ℕ
bit_letter Bit.oper = b'y'
bit_letter Bit.owner = b'q'
bit_letter Bit.admin = b'a'
bit_letter Bit.op = b'o'
bit_letter Bit.halfop = b'h'
bit_letter Bit.voice = b'v'

abbrev pub bit_rank : Bit → ℕ
bit_rank Bit.oper = rank_oper
bit_rank Bit.owner = rank_owner
bit_rank Bit.admin = rank_admin
bit_rank Bit.op = rank_op
bit_rank Bit.halfop = rank_halfop
bit_rank Bit.voice = rank_voice

builtin_rank-set_bit :
    (m : Member) (b : Bit)
    → IsByte m
    → builtin_rank (set_bit m (mask b) true) ≡ max (builtin_rank m) (bit_rank b)
unfolding builtin_rank
builtin_rank-set_bit m Bit.oper h = ground (
  arith,
  has_bit-with_bit m.prefixes Bit.oper Bit.oper true h,
  has_bit-with_bit m.prefixes Bit.oper Bit.owner true h,
  has_bit-with_bit m.prefixes Bit.oper Bit.admin true h,
  has_bit-with_bit m.prefixes Bit.oper Bit.op true h,
  has_bit-with_bit m.prefixes Bit.oper Bit.halfop true h,
  has_bit-with_bit m.prefixes Bit.oper Bit.voice true h,
)
builtin_rank-set_bit m b h = ground (
  arith,
  has_bit-with_bit m.prefixes b Bit.oper true h,
  has_bit-with_bit m.prefixes b Bit.owner true h,
  has_bit-with_bit m.prefixes b Bit.admin true h,
  has_bit-with_bit m.prefixes b Bit.op true h,
  has_bit-with_bit m.prefixes b Bit.halfop true h,
  has_bit-with_bit m.prefixes b Bit.voice true h,
)

-- Taking a prefix away never raises the rank.
builtin_rank-unset_bit :
    (m : Member) (b : Bit) → IsByte m → builtin_rank (set_bit m (mask b) false) ≤ builtin_rank m
unfolding builtin_rank
builtin_rank-unset_bit m Bit.oper h = ground (
  arith,
  has_bit-with_bit m.prefixes Bit.oper Bit.oper false h,
  has_bit-with_bit m.prefixes Bit.oper Bit.owner false h,
  has_bit-with_bit m.prefixes Bit.oper Bit.admin false h,
  has_bit-with_bit m.prefixes Bit.oper Bit.op false h,
  has_bit-with_bit m.prefixes Bit.oper Bit.halfop false h,
  has_bit-with_bit m.prefixes Bit.oper Bit.voice false h,
)
builtin_rank-unset_bit m b h = ground (
  arith,
  has_bit-with_bit m.prefixes b Bit.oper false h,
  has_bit-with_bit m.prefixes b Bit.owner false h,
  has_bit-with_bit m.prefixes b Bit.admin false h,
  has_bit-with_bit m.prefixes b Bit.op false h,
  has_bit-with_bit m.prefixes b Bit.halfop false h,
  has_bit-with_bit m.prefixes b Bit.voice false h,
)

module _ (cfg : PrefixCfg) where
  set_prefix-builtin :
      (m : Member) (b : Bit) (on : Bool)
      → set_prefix cfg m (bit_letter b) on ≡ set_bit m (mask b) on
  unfolding set_prefix
  set_prefix-builtin m Bit.oper on = refl
  set_prefix-builtin m _ on = refl

  rank-set_bit :
      (m : Member) (b : Bit)
      → IsByte m
      → rank cfg (set_bit m (mask b) true) ≡ max (rank cfg m) (bit_rank b)
  unfolding rank
  rank-set_bit m b h = omega (
    arith,
    builtin_rank-set_bit m b h,
    raise_rank-top cfg (builtin_rank (set_bit m (mask b) true)) m.custom_prefixes,
    raise_rank-top cfg (builtin_rank m) m.custom_prefixes,
  )

  rank-unset_bit :
      (m : Member) (b : Bit) → IsByte m → rank cfg (set_bit m (mask b) false) ≤ rank cfg m
  unfolding rank
  rank-unset_bit m b h = omega (
    arith,
    builtin_rank-unset_bit m b h,
    raise_rank-top cfg (builtin_rank (set_bit m (mask b) false)) m.custom_prefixes,
    raise_rank-top cfg (builtin_rank m) m.custom_prefixes,
  )

  abbrev without : ℕ → List ℕ → List ℕ
  without l = retain (λ c. not (c == l))

  top-without-le :
      (l : ℕ) (cs : List ℕ) → top (custom_held cfg (without l cs)) ≤ top (custom_held cfg cs)
  unfolding custom_held
  top-without-le l [] = omega arith
  top-without-le l (c ∷ cs) = ground (arith, top-without-le l cs)

  top-without :
      (l : ℕ) (d : PrefixDef) (cs : List ℕ)
      → def_for_letter cfg l ≡ some d
      → max (top (custom_held cfg (without l cs))) d.rank ≡ max (top (custom_held cfg cs)) d.rank
  unfolding custom_held
  top-without l d [] e = refl
  top-without l d (c ∷ cs) e = elim (Bool-cases (c == l)) [
    | inl k ↦ rw (k, (==_iff c l).0 k) (ground (arith, top-without l d cs e))
    | inr k ↦ ground (arith, top-without l d cs e)
  ]

  top-append :
      (cs : List ℕ) (l : ℕ) (d : PrefixDef)
      → def_for_letter cfg l ≡ some d
      → top (custom_held cfg (cs ++ l ∷ [])) ≡ max (top (custom_held cfg cs)) d.rank
  unfolding custom_held
  top-append [] l d e = ground arith
  top-append (c ∷ cs) l d e = ground (arith, top-append cs l d e)

-- The bit of a letter of a built-in tier.
abbrev pub letter_bit : ℕ → Option Bit
letter_bit l =
    if l == b'y'
    then some Bit.oper
    else if l == b'q'
    then some Bit.owner
    else if l == b'a'
    then some Bit.admin
    else if l == b'o'
    then some Bit.op
    else if l == b'h'
    then some Bit.halfop
    else if l == b'v'
    then some Bit.voice
    else none

module _ (cfg : PrefixCfg) where
  -- The rank that the prefix of a letter has.
  abbrev pub prefix_rank : ℕ → Option ℕ
  prefix_rank l = elim (letter_bit l) [
    | some b ↦ some (bit_rank b)
    | none ↦ map_option (λ (d : PrefixDef). d.rank) (def_for_letter cfg l)
  ]

  abbrev set_custom : Member → ℕ → Bool → Member
  set_custom m l on =
      if is_some (def_for_letter cfg l)
      then record m {
        custom_prefixes =
            (if on
              then without cfg l m.custom_prefixes ++ l ∷ []
              else without cfg l m.custom_prefixes);
      }
      else m

  set_prefix_lem :
      (m : Member) (l : ℕ) (on : Bool)
      → set_prefix cfg m l on
        ≡ elim (letter_bit l) [ some b ↦ set_bit m (mask b) on | none ↦ set_custom m l on ]
  unfolding set_prefix
  set_prefix_lem m l on = ground arith

  rank-set_custom :
      (m : Member) (l : ℕ) (d : PrefixDef)
      → def_for_letter cfg l ≡ some d
      → rank cfg (set_custom m l true) ≡ max (rank cfg m) d.rank
  unfolding rank raise_rank builtin_rank
  rank-set_custom m l d e =
      let kept = without cfg l m.custom_prefixes in
      rw (e) (
        omega (
          arith,
          raise_rank-top cfg (builtin_rank m) (kept ++ l ∷ []),
          raise_rank-top cfg (builtin_rank m) m.custom_prefixes,
          top-append cfg kept l d e,
          top-without cfg l d m.custom_prefixes e,
        ))

  rank-drop_custom : (m : Member) (l : ℕ) → rank cfg (set_custom m l false) ≤ rank cfg m
  unfolding rank raise_rank builtin_rank
  rank-drop_custom m l = ground (
    arith,
    raise_rank-top cfg (builtin_rank m) (without cfg l m.custom_prefixes),
    raise_rank-top cfg (builtin_rank m) m.custom_prefixes,
    top-without-le cfg l m.custom_prefixes,
  )

  -- Granting the prefix of a letter, built in or configured, raises a member whose prefixes are a
  -- byte to the rank of that prefix and no higher.
  pub rank-set_prefix :
      (m : Member) (l : ℕ) {r : ℕ}
      → IsByte m
      → prefix_rank l ≡ some r
      → rank cfg (set_prefix cfg m l true) ≡ max (rank cfg m) r
  rank-set_prefix m l {r} byte e = elim (Option-cases (letter_bit l)) [
    | inl n ↦ elim (Option-cases (def_for_letter cfg l)) [
      | inl k ↦ absurd (false≢true (ground arith))
      | inr (d, k) ↦ rw (set_prefix_lem m l true, n) (ground (arith, rank-set_custom m l d k))
    ]
    | inr (b, n) ↦ rw (set_prefix_lem m l true, n) (ground (arith, rank-set_bit cfg m b byte))
  ]

  -- Taking the prefix of a letter from a member whose prefixes are a byte never raises its rank.
  pub rank-set_prefix-le :
      (m : Member) (l : ℕ) → IsByte m → rank cfg (set_prefix cfg m l false) ≤ rank cfg m
  rank-set_prefix-le m l byte = elim (Option-cases (letter_bit l)) [
    | inl n ↦ rw (set_prefix_lem m l false, n) (rank-drop_custom m l)
    | inr (b, n) ↦ rw (set_prefix_lem m l false, n) (rank-unset_bit cfg m b byte)
  ]

  -- A letter of no prefix changes nothing.
  pub set_prefix_unknown :
      (m : Member) (l : ℕ) (on : Bool) → prefix_rank l ≡ none → set_prefix cfg m l on ≡ m
  set_prefix_unknown m l on e = elim (Option-cases (letter_bit l)) [
    | inl n ↦ rw (set_prefix_lem m l on, n) (ground arith)
    | inr (b, n) ↦ absurd (false≢true (ground arith))
  ]

  pub set_prefix-IsByte :
      (m : Member) (l : ℕ) (on : Bool) → IsByte m → IsByte (set_prefix cfg m l on)
  set_prefix-IsByte m l on byte = elim (Option-cases (letter_bit l)) [
    | inl n ↦ rw (set_prefix_lem m l on, n) (ground arith)
    | inr (b, n) ↦ rw (set_prefix_lem m l on, n) (with_bit-lt m.prefixes b on byte)
  ]

  -- A member whose prefixes are a byte has, once its status is cleared, the greater of the rank
  -- of the network staff, if it had that, and of its custom prefixes.
  pub rank-clear_status :
      (m : Member)
      → IsByte m
      → rank cfg (clear_status m)
        ≡ max (if oprefix m then rank_oper else 0) (top (custom_held cfg m.custom_prefixes))
  unfolding rank clear_status builtin_rank raise_rank
  rank-clear_status m byte = ground (
    arith,
    raise_rank-top cfg (builtin_rank (clear_status m)) m.custom_prefixes,
    has_bit-clear m.prefixes Bit.oper byte,
    has_bit-clear m.prefixes Bit.owner byte,
    has_bit-clear m.prefixes Bit.admin byte,
    has_bit-clear m.prefixes Bit.op byte,
    has_bit-clear m.prefixes Bit.halfop byte,
    has_bit-clear m.prefixes Bit.voice byte,
  )
