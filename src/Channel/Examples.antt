-- ===== src/Channel/Examples.antt =====
-- The channel on concrete members, modes and masks.
use echoi_rcd.Prelude.{max, true, false, [], ◌∷◌, some, codes, ◌≡◌, refl, arith, contains_char}
use echoi_rcd.Channel.Prefixes.{PrefixCfg, default_cfg}
use echoi_rcd.Channel.Member.{Member, default_member, rank, held, set_prefix, all_prefixes, sigils}
use echoi_rcd.Channel.Member.Ranks.{all_prefixes_lem}
use echoi_rcd.Channel.Member.Grants.{rank-set_prefix, set_prefix_unknown}
use echoi_rcd.Channel.Modes.{ChanModes, default_modes, set_by_letter, render}
use echoi_rcd.Channel.Modes.Render.{
  first_word, is_on, FlagMode, letter_of, set_by_letter_other, contains-render,
}
use echoi_rcd.Channel.Masks.{normalize_mask, normalize_ban_mask}

-- A configuration with a custom prefix `+X`, `!`, of rank 45.
abbrev star_cfg : PrefixCfg
star_cfg = record default_cfg {
  custom =
      record {
        letter = b'X';
        sigil = codes "!";
        rank = 45;
        ranktoset = 45;
        ranktounset = 45;
        depriv = true;
      }
      ∷ [];
}

abbrev op_voice : Member
op_voice = record default_member { prefixes = 10; custom_prefixes = b'X' ∷ [] }

all_prefixes_lem_example : all_prefixes star_cfg op_voice ≡ sigils star_cfg (held star_cfg op_voice)
all_prefixes_lem_example = all_prefixes_lem star_cfg op_voice

rank-set_prefix_example :
    rank star_cfg (set_prefix star_cfg op_voice b'h' true) ≡ max (rank star_cfg op_voice) 20
rank-set_prefix_example = rank-set_prefix star_cfg op_voice b'h' (omega arith) refl

set_prefix_unknown_example : set_prefix star_cfg op_voice b'Z' true ≡ op_voice
set_prefix_unknown_example = set_prefix_unknown star_cfg op_voice b'Z' true refl

abbrev keyed : ChanModes
keyed = record default_modes { topic_ops = true; key = some (codes "secret") }

set_by_letter_other_example : set_by_letter keyed b'k' false ≡ keyed
set_by_letter_other_example = set_by_letter_other keyed b'k' false refl

contains-render_example :
    contains_char (letter_of FlagMode.secret) (first_word (render keyed true))
    ≡ is_on FlagMode.secret keyed
contains-render_example = contains-render keyed FlagMode.secret true

normalize_ban_mask_test : normalize_ban_mask (codes "m:bob") ≡ codes "m:bob!*@*"
unfolding normalize_ban_mask normalize_mask
normalize_ban_mask_test = refl
