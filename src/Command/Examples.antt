-- ===== src/Command/Examples.antt =====
-- A run of commands on the channel of Ann.
use echoi_rcd.Prelude.{
  ◌≤◌, [], ◌∷◌, none, some, codes, ◌≡◌, refl, get, nat_key, text_key, text_eq, split, modify,
  remove, retain_values,
}
use echoi_rcd.Channel.Prefixes.{default_cfg}
use echoi_rcd.Channel.Member.{rank_halfop, rank, builtin_rank, raise_rank, has_bit}
use echoi_rcd.Channel.Record.{new, keep_alive, is_empty}
use echoi_rcd.Server.State.{find_nick}
use echoi_rcd.Mode.Members.{channel_rank}
use echoi_rcd.Mode.Dispatch.{CmdResult}
use echoi_rcd.Mode.Samples.{catalog, server}
use echoi_rcd.Membership.{drop_member}
use echoi_rcd.Membership.Joined.{IsJoined}
use echoi_rcd.Membership.Examples.{server-IsJoined}
use echoi_rcd.Entry.Examples.{size, nowhere, any_number}
use echoi_rcd.Command.{targets, handle_join, handle_remove}
use echoi_rcd.Command.Ranked.{handle_remove-ranked}
use echoi_rcd.Command.Ways.{Reaches-IsJoined, next, here, joins, removes}

targets_run : targets (codes "#a,,#b") ≡ codes "#a" ∷ codes "#b" ∷ []
unfolding split
targets_run = refl

remove_run : (handle_remove default_cfg 1 (codes "#A") (codes "Bob") none server).0 ≡ CmdResult.ok
unfolding handle_remove channel_rank rank builtin_rank raise_rank has_bit get text_eq
remove_run = refl

remove_refused :
    (handle_remove default_cfg 2 (codes "#A") (codes "ann") none server).0 ≡ CmdResult.fail
unfolding handle_remove channel_rank rank builtin_rank raise_rank has_bit get text_eq
remove_refused = refl

handle_remove-ranked_example :
    (codes "#a" ≡ codes "#a")
    × ((find_nick server (codes "Bob") ≡ some 2)
        × ((rank_halfop ≤ channel_rank default_cfg 1 (codes "#a") server)
            × (channel_rank default_cfg 2 (codes "#a") server
                ≤ channel_rank default_cfg 1 (codes "#a") server)))
unfolding handle_remove channel_rank rank builtin_rank raise_rank has_bit get text_eq drop_member
    modify remove retain_values keep_alive is_empty new
handle_remove-ranked_example =
    handle_remove-ranked default_cfg 1 (codes "#a") (codes "Bob") none server (codes "#a") 2 refl
      refl

Reaches-IsJoined_example :
    IsJoined
      (handle_remove default_cfg 1
        (codes "#a")
        (codes "Bob")
        none
        (handle_join catalog size catalog default_cfg nowhere any_number 3
          (codes "#a")
          none
          server).1).1
Reaches-IsJoined_example =
    Reaches-IsJoined catalog size catalog default_cfg nowhere any_number
      (next (next here (joins 3 (codes "#a") none)) (removes 1 (codes "#a") (codes "Bob") none))
      server-IsJoined
