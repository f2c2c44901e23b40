-- ===== src/Channel/Prefixes.antt =====
-- src/modules/customprefix.rs: the prefix tiers as they are configured. The configuration is read
-- once at boot, and is a parameter of what asks for it.
use echoi_rcd.Prelude.{
  ℕ, Bool, true, List, [], Option, none, some, Text, codes, if◌then◌else◌, ◌==◌, find, get_or,
  map_option,
}

-- A prefix mode that the configuration defines.
pub record PrefixDef : Type 0 where
  pub letter : ℕ
  pub sigil : Text
  pub rank : ℕ
  pub ranktoset : ℕ
  pub ranktounset : ℕ
  pub depriv : Bool

-- What the configuration says of a built-in tier: one entry of each array of `PrefixCfg`.
pub record Tier : Type 0 where
  pub sigil : Text
  pub ranktoset : Option ℕ
  pub ranktounset : Option ℕ
  pub depriv : Bool

pub record PrefixCfg : Type 0 where
  pub oper : Tier
  pub founder : Tier
  pub admin : Tier
  pub op : Tier
  pub halfop : Tier
  pub voice : Tier
  pub custom : List PrefixDef

abbrev default_tier : Text → Tier
default_tier s = record { sigil = s; ranktoset = none; ranktounset = none; depriv = true }

-- The tiers with no line in the configuration.
abbrev pub default_cfg : PrefixCfg
default_cfg = record {
  oper = default_tier (codes "!");
  founder = default_tier (codes "~");
  admin = default_tier (codes "&");
  op = default_tier (codes "@");
  halfop = default_tier (codes "%");
  voice = default_tier (codes "+");
  custom = [];
}

abbrev pub def_for_letter : PrefixCfg → ℕ → Option PrefixDef
def_for_letter cfg c = find (λ d. d.letter == c) cfg.custom

-- `builtin_index`, with the tier that stands at the index.
abbrev pub builtin_tier : PrefixCfg → ℕ → Option Tier
builtin_tier cfg c =
    if c == b'y'
    then some cfg.oper
    else if c == b'q'
    then some cfg.founder
    else if c == b'a'
    then some cfg.admin
    else if c == b'o'
    then some cfg.op
    else if c == b'h'
    then some cfg.halfop
    else if c == b'v'
    then some cfg.voice
    else none

unfoldable pub rank_to_set : PrefixCfg → ℕ → Option ℕ
rank_to_set cfg c = elim (builtin_tier cfg c) [
  | some t ↦ t.ranktoset
  | none ↦ map_option (λ (d : PrefixDef). d.ranktoset) (def_for_letter cfg c)
]

unfoldable pub rank_to_unset : PrefixCfg → ℕ → Option ℕ
rank_to_unset cfg c = elim (builtin_tier cfg c) [
  | some t ↦ t.ranktounset
  | none ↦ map_option (λ (d : PrefixDef). d.ranktounset) (def_for_letter cfg c)
]

unfoldable pub can_depriv : PrefixCfg → ℕ → Bool
can_depriv cfg c = elim (builtin_tier cfg c) [
  | some t ↦ t.depriv
  | none ↦ get_or (map_option (λ (d : PrefixDef). d.depriv) (def_for_letter cfg c)) true
]
