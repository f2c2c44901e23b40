-- ===== src/Channel/Member.antt =====
-- The member record: built-in prefixes as the bits of a byte, custom prefixes as letters.
pub mod Bits
pub mod Ranks
pub mod Grants
use Prim.Native.Nat.{bit_and, bit_or}
use echoi_rcd.Prelude.{
  ℕ, ◌-◌, ◌^◌, Bool, true, false, not, ◌&&◌, List, [], ◌∷◌, ◌++◌, Option, none, some, Text, codes,
  if◌then◌else◌, ◌==◌, ltb, max, retain, is_nil, is_some,
}
use echoi_rcd.Channel.Prefixes.{PrefixCfg, PrefixDef, def_for_letter}

pub record Member : Type 0 where
  pub prefixes : ℕ
  pub custom_prefixes : List ℕ
  pub joined : ℕ
  pub recent_msgs : List Text
  pub slow_hits : List ℕ
  pub hidden : Bool

abbrev pub default_member : Member
default_member = record {
  prefixes = 0;
  custom_prefixes = [];
  joined = 0;
  recent_msgs = [];
  slow_hits = [];
  hidden = false;
}

abbrev pub pfx_oper : ℕ
pfx_oper = 0b10_0000

abbrev pub pfx_owner : ℕ
pfx_owner = 0b01_0000

abbrev pub pfx_admin : ℕ
pfx_admin = 0b00_1000

abbrev pub pfx_op : ℕ
pfx_op = 0b00_0100

abbrev pub pfx_halfop : ℕ
pfx_halfop = 0b00_0010

abbrev pub pfx_voice : ℕ
pfx_voice = 0b00_0001

abbrev pub rank_oper : ℕ
rank_oper = 60

abbrev pub rank_owner : ℕ
rank_owner = 50

abbrev pub rank_admin : ℕ
rank_admin = 40

abbrev pub rank_op : ℕ
rank_op = 30

abbrev pub rank_halfop : ℕ
rank_halfop = 20

abbrev pub rank_voice : ℕ
rank_voice = 10

-- `x & bit != 0`
unfoldable pub has_bit : ℕ → ℕ → Bool
has_bit x bit = not (bit_and x bit == 0)

-- `!bit` on a byte
abbrev pub complement : ℕ → ℕ
complement bit = 2 ^ 8 - 1 - bit

unfoldable pub with_bit : ℕ → ℕ → Bool → ℕ
with_bit x bit true = bit_or x bit
with_bit x bit false = bit_and x (complement bit)

abbrev pub oprefix : Member → Bool
oprefix m = has_bit m.prefixes pfx_oper

abbrev pub owner : Member → Bool
owner m = has_bit m.prefixes pfx_owner

abbrev pub admin : Member → Bool
admin m = has_bit m.prefixes pfx_admin

abbrev pub op : Member → Bool
op m = has_bit m.prefixes pfx_op

abbrev pub halfop : Member → Bool
halfop m = has_bit m.prefixes pfx_halfop

abbrev pub voice : Member → Bool
voice m = has_bit m.prefixes pfx_voice

abbrev pub set_bit : Member → ℕ → Bool → Member
set_bit m bit on = record m { prefixes = with_bit m.prefixes bit on }

unfoldable pub builtin_rank : Member → ℕ
builtin_rank m =
    if oprefix m
    then rank_oper
    else if owner m
    then rank_owner
    else if admin m
    then rank_admin
    else if op m
    then rank_op
    else if halfop m
    then rank_halfop
    else if voice m
    then rank_voice
    else 0

-- The status modes without the network staff's.
abbrev pub status_bits : ℕ
status_bits = bit_or (bit_or (bit_or (bit_or pfx_owner pfx_admin) pfx_op) pfx_halfop) pfx_voice

unfoldable pub clear_status : Member → Member
clear_status m = record m { prefixes = bit_and m.prefixes (complement status_bits) }

module _ (cfg : PrefixCfg) where
  -- The loop of `rank` over the custom prefixes.
  unfoldable pub raise_rank : ℕ → List ℕ → ℕ
  raise_rank r [] = r
  raise_rank r (c ∷ cs) =
      raise_rank (elim (def_for_letter cfg c) [ none ↦ r | some d ↦ max r d.rank ]) cs

  unfoldable pub rank : Member → ℕ
  rank m = raise_rank (builtin_rank m) m.custom_prefixes

  unfoldable pub set_prefix : Member → ℕ → Bool → Member
  set_prefix m letter on =
      if letter == b'y'
      then set_bit m pfx_oper on
      else if letter == b'q'
      then set_bit m pfx_owner on
      else if letter == b'a'
      then set_bit m pfx_admin on
      else if letter == b'o'
      then set_bit m pfx_op on
      else if letter == b'h'
      then set_bit m pfx_halfop on
      else if letter == b'v'
      then set_bit m pfx_voice on
      else if is_some (def_for_letter cfg letter)
      then record m {
        custom_prefixes =
            (let kept = retain (λ c. not (c == letter)) m.custom_prefixes in
              if on then kept ++ letter ∷ [] else kept);
      }
      else m

  -- The entries of `held` before they are sorted.
  abbrev pub when_held {ℓ} : {A : Type ℓ} → Bool → A → List A → List A
  when_held true a rest = a ∷ rest
  when_held false a rest = rest

  pub custom_held : List ℕ → List (ℕ × Text)
  custom_held [] = []
  custom_held (c ∷ cs) = elim (def_for_letter cfg c) [
    | none ↦ custom_held cs
    | some d ↦ (d.rank, d.sigil) ∷ custom_held cs
  ]

  pub builtin_held : Member → List (ℕ × Text) → List (ℕ × Text)
  builtin_held m rest =
      when_held (oprefix m) (rank_oper, cfg.oper.sigil)
        (when_held (owner m) (rank_owner, cfg.founder.sigil)
          (when_held (admin m) (rank_admin, cfg.admin.sigil)
            (when_held (op m) (rank_op, cfg.op.sigil)
              (when_held (halfop m) (rank_halfop, cfg.halfop.sigil)
                (when_held (voice m) (rank_voice, cfg.voice.sigil) rest)))))

  -- `sort_by` is stable: an entry stays before those of its rank that came after it.
  pub put_sorted : ℕ × Text → List (ℕ × Text) → List (ℕ × Text)
  put_sorted a [] = a ∷ []
  put_sorted a (b ∷ bs) = if ltb a.0 b.0 then b ∷ put_sorted a bs else a ∷ b ∷ bs

  pub sort_ranks : List (ℕ × Text) → List (ℕ × Text)
  sort_ranks [] = []
  sort_ranks (a ∷ rest) = put_sorted a (sort_ranks rest)

  pub held : Member → List (ℕ × Text)
  held m = sort_ranks (builtin_held m (custom_held m.custom_prefixes))

  abbrev pub first_sigil : List (ℕ × Text) → Text
  first_sigil [] = []
  first_sigil ((r, s) ∷ rest) = s

  pub prefix_char : Member → Text
  prefix_char m =
      if is_nil m.custom_prefixes
      then if oprefix m
        then cfg.oper.sigil
        else if owner m
        then cfg.founder.sigil
        else if admin m
        then cfg.admin.sigil
        else if op m
        then cfg.op.sigil
        else if halfop m
        then cfg.halfop.sigil
        else if voice m
        then cfg.voice.sigil
        else []
      else first_sigil (held m)

  abbrev pub sigils : List (ℕ × Text) → Text
  sigils [] = []
  sigils ((r, s) ∷ rest) = s ++ sigils rest

  abbrev append_if : Bool → Text → Text → Text
  append_if on s rest = if on then s ++ rest else rest

  pub all_prefixes : Member → Text
  all_prefixes m =
      if is_nil m.custom_prefixes
      then append_if (oprefix m) cfg.oper.sigil (
          append_if (owner m) cfg.founder.sigil (
            append_if (admin m) cfg.admin.sigil (
              append_if (op m) cfg.op.sigil
                (append_if (halfop m) cfg.halfop.sigil (append_if (voice m) cfg.voice.sigil [])))))
      else sigils (held m)

  abbrev custom_letters : List ℕ → Text
  custom_letters [] = []
  custom_letters (c ∷ cs) =
      if is_some (def_for_letter cfg c) then c ∷ custom_letters cs else custom_letters cs

  pub mode_letters : Member → Text
  mode_letters m = append_if (oprefix m) (b'y' ∷ []) (
      append_if (owner m) (b'q' ∷ []) (
        append_if (admin m) (b'a' ∷ []) (
          append_if (op m) (b'o' ∷ []) (
            append_if (halfop m) (b'h' ∷ [])
              (append_if (voice m) (b'v' ∷ []) (custom_letters m.custom_prefixes))))))
