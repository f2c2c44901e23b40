-- ===== src/Entry/Examples.antt =====
-- Carol joins the channel of Ann, and a channel that sends her there.
use echoi_rcd.Prelude.{
  ℕ, Bool, true, false, [], ◌∷◌, Option, none, some, Text, codes, ◌≡◌, refl, get, nat_key, text_key,
  text_eq, length, insert, modify, parse_uint,
}
use echoi_rcd.Channel.Prefixes.{default_cfg}
use echoi_rcd.Channel.Record.{Channel, new}
use echoi_rcd.Channel.Masks.{valid_chan}
use echoi_rcd.Server.Users.{User, user_has_priv}
use echoi_rcd.Server.State.{Server}
use echoi_rcd.Server.Left.{member_of}
use echoi_rcd.XLine.Match.{matched_cban}
use echoi_rcd.Mode.Samples.{ann, channel, server, catalog}
use echoi_rcd.Membership.{admit}
use echoi_rcd.Membership.Floods.{joinflood_check}
use echoi_rcd.Entry.Bans.{ban_list_hit, redirect_target, mask_part}
use echoi_rcd.Entry.Doors.{tokenize, tokens, denied_by, restricted, badly_named}
use echoi_rcd.Entry.Denied.{Wish, entry, ask, demand}
use echoi_rcd.Entry.Join.{join, join_within, round, join_as, answer, come_in, wish}
use echoi_rcd.Entry.Rounds.{join-settled}
use echoi_rcd.Entry.Arrived.{SameOthers, join-SameOthers}

abbrev pub size : Text → ℕ
size t = length t

abbrev pub nowhere : ℕ → Server → ℕ → Text → Bool
nowhere k s uid value = false

abbrev pub any_number : Server → ℕ → Option ℕ
any_number s uid = none

-- `#full` has one member, which is its limit, and sends others to `#a`.
abbrev full_channel : Channel
full_channel = record channel {
  name = codes "#full";
  modes = record channel.modes { limit = some 1; redirect = some (codes "#A") };
}

abbrev carol : User
carol = record ann { nick = codes "carol"; channels = [] }

abbrev busy : Server
busy = record server {
  users = (1, ann) ∷ (3, carol) ∷ [];
  channels = (codes "#a", channel) ∷ (codes "#full", full_channel) ∷ [];
}

abbrev joined : Text → Server
joined name = join catalog size catalog default_cfg nowhere any_number 3 name none busy

abbrev asks : Wish
asks = wish 3 carol (codes "#full") none false false

redirect_run : member_of (codes "#a") 3 (joined (codes "#Full")).channels ≡ true
unfolding join join_within round join_as answer come_in admit valid_chan user_has_priv get insert
    modify text_eq entry ask demand ban_list_hit redirect_target mask_part joinflood_check
    parse_uint new matched_cban denied_by restricted badly_named
redirect_run = refl

tokenize_run :
    tokenize (codes "#evil* reason=\"not here\" allowopers=yes")
    ≡ codes "#evil*" ∷ codes "reason=not here" ∷ codes "allowopers=yes" ∷ []
unfolding tokens
tokenize_run = refl

join-settled_example :
    join_within catalog size catalog default_cfg nowhere any_number 15 false 0 3
      (codes "#full")
      none
      busy
    ≡ join catalog size catalog default_cfg nowhere any_number 3 (codes "#full") none busy
join-settled_example =
    join-settled catalog size catalog default_cfg nowhere any_number 5 3 (codes "#full") none busy

join-SameOthers_example :
    SameOthers 3 busy
      (join catalog size catalog default_cfg nowhere any_number 3 (codes "#full") none busy)
join-SameOthers_example =
    join-SameOthers catalog size catalog default_cfg nowhere any_number 3 (codes "#full") none busy
