-- ===== src/Mode/Examples.antt =====
-- A change of a prefix on a channel with an owner, an op and a voice.
use echoi_rcd.Prelude.{
  ℕ, ◌≤◌, max, true, false, [], ◌∷◌, some, codes, ◌≡◌, refl, arith, get, nat_key, text_key, text_eq,
}
use echoi_rcd.Channel.Prefixes.{default_cfg, rank_to_set}
use echoi_rcd.Channel.Member.{Member, default_member, rank, builtin_rank, raise_rank, has_bit}
use echoi_rcd.Channel.Member.Grants.{IsByte}
use echoi_rcd.Channel.Record.{Channel, new}
use echoi_rcd.Server.State.{Server}
use echoi_rcd.Mode.Members.{find_member, channel_rank}
use echoi_rcd.Mode.Prefix.{Prefix, Applied, needed, prefix_apply, apply_to}
use echoi_rcd.Mode.Ladder.{rank_in, rank_in-prefix_apply}

-- `+a`
abbrev admin_prefix : Prefix
admin_prefix = record { ch = b'a'; rank = 40 }

abbrev owner_member : Member
owner_member = record default_member { prefixes = 16 }

abbrev op_member : Member
op_member = record default_member { prefixes = 4 }

abbrev channel : Channel
channel = record (new (codes "#a") 10) {
  members = (1, owner_member) ∷ (2, op_member) ∷ (3, default_member) ∷ [];
}

abbrev server : Server
server = record {
  name = codes "hub.example";
  sid = codes "42X";
  users = [];
  nick_index = (codes "ann", 1) ∷ (codes "bob", 2) ∷ (codes "eve", 3) ∷ [];
  channels = (codes "#a", channel) ∷ [];
  uuid_local = [];
  whowas = [];
  xlines = [];
  mode_sudo = false;
  raw_config = [];
  accepted_nicks = [];
  watch_by = [];
  monitor_by = [];
  redis_active = false;
  clock = 20;
  out = [];
}

bytes : (uid : ℕ) (m : Member) → find_member (codes "#a") uid server.channels ≡ some m → IsByte m
unfolding get new text_eq
bytes uid m h = ground arith

needed_rank : admin_prefix.rank ≤ needed default_cfg admin_prefix true
unfolding rank_to_set
needed_rank = omega arith

rank_in-prefix_apply_example :
    rank_in default_cfg
      (codes "#a")
      3
      (prefix_apply default_cfg admin_prefix
        (codes "#a")
        (codes "#a")
        2
        true
        (some (codes "eve"))
        server).1.channels
    ≤ max
        (rank_in default_cfg (codes "#a") 3 server.channels)
        (channel_rank default_cfg 2 (codes "#a") server)
rank_in-prefix_apply_example =
    rank_in-prefix_apply default_cfg admin_prefix (codes "#a") (codes "#a") 2 true
      (some (codes "eve")) server bytes refl needed_rank (codes "#a") 3

granted :
    (prefix_apply default_cfg admin_prefix
      (codes "#a")
      (codes "#a")
      1
      true
      (some (codes "Eve"))
      server).0
    ≡ Applied.applied (some (codes "Eve"))
unfolding prefix_apply apply_to channel_rank get new text_eq rank builtin_rank raise_rank has_bit
    rank_to_set
granted = refl

refused :
    (prefix_apply default_cfg admin_prefix
      (codes "#a")
      (codes "#a")
      2
      true
      (some (codes "eve"))
      server).0
    ≡ Applied.rejected
unfolding prefix_apply apply_to channel_rank get new text_eq rank builtin_rank raise_rank has_bit
    rank_to_set
refused = refl
