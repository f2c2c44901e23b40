-- ===== src/Membership/Examples.antt =====
-- Ann, and the plain member bob, leave their channel, and its joins are counted.
use echoi_rcd.Prelude.{
  true, [], ◌∷◌, some, Text, codes, ◌≡◌, refl, arith, get, get_or, is_some, nat_key, text_key,
  text_eq, parse_uint, modify, map, keys, insert, remove, retain_values,
}
use echoi_rcd.Channel.Prefixes.{default_cfg}
use echoi_rcd.Channel.Record.{Channel, new, keep_alive, is_empty}
use echoi_rcd.Server.State.{Server}
use echoi_rcd.Server.Left.{member_of}
use echoi_rcd.Mode.Samples.{channel, server}
use echoi_rcd.Membership.{part, force_part, drop_member, to_channel_vis}
use echoi_rcd.Membership.Rename.{rename_channel, move_users}
use echoi_rcd.Membership.Floods.{joinflood_check}
use echoi_rcd.Membership.Joined.{IsJoined}
use echoi_rcd.Membership.Gone.{Loses, part-Loses, force_part-Loses}
use echoi_rcd.Membership.Locks.{at, joinflood_check-locked}

pub server-IsJoined : IsJoined server
unfolding IsJoined get text_eq
server-IsJoined key uid = ground arith

-- The second join within ten seconds trips the limit.
abbrev flooded : Channel
flooded = record channel {
  modes = record channel.modes { joinflood = some (record { count = 1; secs = 10 }) };
  joinflood_hits = 15 ∷ [];
}

abbrev flooded_server : Server
flooded_server = record server { channels = (codes "#a", flooded) ∷ [] }

part_run : (part default_cfg 2 (codes "#A") [] server).0 ≡ true
unfolding part get text_eq
part_run = refl

part_leaves :
    map keys (
      map
        (λ (e : Text × Channel). e.1.members)
        (part default_cfg 2 (codes "#A") [] server).1.channels)
    ≡ (1 ∷ []) ∷ []
unfolding part drop_member to_channel_vis get modify remove retain_values keep_alive is_empty
    text_eq
part_leaves = refl

rename_run :
    (rename_channel (codes "#a") (codes "#B") (codes "Ann!ann@a.example") [] server).0
    ≡ some (codes "#b")
unfolding rename_channel get insert modify remove move_users text_eq
rename_run = refl

part-Loses_example :
    (part default_cfg 2 (codes "#A") [] server).0 ≡ member_of (codes "#a") 2 server.channels
    × Loses (codes "#a") 2 server.channels (part default_cfg 2 (codes "#A") [] server).1.channels
part-Loses_example = part-Loses default_cfg 2 (codes "#A") [] server server-IsJoined

force_part-Loses_example :
    is_some (force_part 1 (codes "#a") (codes "bye") server) ≡ true
    × Loses
        (codes "#a")
        1
        server.channels
        (get_or (force_part 1 (codes "#a") (codes "bye") server) server).channels
force_part-Loses_example = force_part-Loses 1 (codes "#a") (codes "bye") server server-IsJoined

joinflood_check-locked_example :
    (joinflood_check (codes "#a") (at 79 (joinflood_check (codes "#a") flooded_server).1)).0 ≡ true
unfolding joinflood_check get text_eq parse_uint new
joinflood_check-locked_example =
    joinflood_check-locked (codes "#a") flooded_server flooded (record { count = 1; secs = 10 })
      refl refl (omega arith) refl (omega arith) refl 79
