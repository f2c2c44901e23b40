-- ===== src/Membership.antt =====
-- src/channels.rs: who is on which channel.
pub mod Rename
pub mod Floods
pub mod Joined
pub mod Moved
pub mod Counted
pub mod Gone
pub mod Kept
pub mod Locks
pub mod Examples
use echoi_rcd.Prelude.{
  ℕ, Bool, true, false, not, ◌&&◌, ◌||◌, List, [], ◌∷◌, ◌++◌, map, Option, none, some, Text, codes,
  if◌then◌else◌, ltb, ◌==◌, is_nil, any, text_eq, to_lower, get, get_or, map_option, insert, modify,
  remove, retain, retain_values, contains, contains_key, without, set_insert, keys, show_nat,
  nat_key, text_key,
}
use echoi_rcd.Channel.Prefixes.{PrefixCfg}
use echoi_rcd.Channel.Member.{Member, default_member, pfx_op, rank, rank_op}
use echoi_rcd.Channel.Record.{Channel, Ban, new, keep_alive}
use echoi_rcd.I18n.{trf}
use echoi_rcd.Server.Users.{User, prefix, host_display}
use echoi_rcd.Server.State.{Server, Effect, emit, conf_bool, is_member}
use echoi_rcd.Server.Quit.{emit_all}
use echoi_rcd.Mode.Members.{find_member, modify_member, channel_rank, join_line}

-- The member leaves the channel, the channel the list of the user, and empty channels go.
unfoldable pub drop_member : ℕ → Text → Server → Server
drop_member uid key s = record s {
  channels =
      retain_values keep_alive
        (modify key (λ ch. record ch { members = remove uid ch.members }) s.channels);
  users = modify uid (λ u. record u { channels = without key u.channels }) s.users;
}

abbrev is_hidden : ℕ → Text → Server → Bool
is_hidden uid key s = get_or (map_option (λ m. m.hidden) (find_member key uid s.channels)) false

abbrev part_line : User → Text → Text → Text
part_line u target reason =
    b':'
    ∷ (prefix u
        ++ (codes " PART " ++ (target ++ (if is_nil reason then [] else codes " :" ++ reason))))

-- SAPART and SVSPART. `none` stands for a member that is no user, which is a panic.
unfoldable pub force_part : ℕ → Text → Text → Server → Option Server
force_part uid chan reason s =
    let key = to_lower chan in
    let gone : Option Server = elim (get uid s.users) [
      | none ↦ none
      | some u ↦
          let line = b':' ∷ (prefix u ++ (codes " PART " ++ (chan ++ (codes " :" ++ reason)))) in
          let told =
            if is_hidden uid key s
            then emit (Effect.send uid line) s
            else emit (Effect.to_channel key line none) s in
          some (drop_member uid key (emit (Effect.propagate_part uid chan reason) told))
    ] in
    if is_member s uid key then gone else some s

abbrev pub flood_ban : Text → Server → Ban
flood_ban host s = record {
  mask = codes "*!*@" ++ host;
  setter = s.name;
  ts = s.clock;
  expires = none;
}

abbrev pub add_ban : Ban → Channel → Channel
add_ban b ch =
    if any (λ x. text_eq x.mask b.mask) ch.bans then ch else record ch { bans = ch.bans ++ b ∷ [] }

-- `+f`: the member is kicked, and banned first if the mode asks it.
unfoldable pub flood_kick : ℕ → Text → Bool → Server → Server
flood_kick uid key ban s = elim (get uid s.users) [
  | none ↦ s
  | some u ↦
      let cname = get_or (map_option (λ c. c.name) (get key s.channels)) key in
      let line =
        b':' ∷ (s.name ++ (codes " KICK " ++ (cname ++ b' ' ∷ (u.nick ++ codes " :Flood")))) in
      let banned =
        if ban
        then record s { channels = modify key (add_ban (flood_ban (host_display u) s)) s.channels }
        else s in
      emit (Effect.hook_part uid key (codes "flood")) (
        drop_member uid key (
          emit (Effect.propagate_kick uid cname u.nick (codes "Flood"))
            (emit (Effect.to_channel key line none) banned)))
]

-- What a member that arrives is; the first one is the op of a new channel.
abbrev pub newcomer : Bool → Bool → Server → Member
newcomer is_new hidden s = record default_member {
  prefixes = if is_new then pfx_op else 0;
  joined = s.clock;
  hidden = hidden;
}

abbrev pub entered : ℕ → Member → Channel → Channel
entered uid m ch = record ch {
  members = insert uid m ch.members;
  invites = without uid ch.invites;
  recent_kicks = remove uid ch.recent_kicks;
}

abbrev topic_lines : ℕ → Text → Channel → List Effect
topic_lines uid name ch = elim ch.topic [
  | none ↦ []
  | some t ↦
      Effect.numeric uid 332 (name ++ (codes " :" ++ t.text))
      ∷ Effect.numeric uid 333 (name ++ b' ' ∷ (t.setter ++ b' ' ∷ show_nat t.ts))
      ∷ []
]

module _ (cfg : PrefixCfg) where
  -- A line to the members that may see it: of a channel with `+u`, the actor and the ops.
  unfoldable pub to_channel_vis : Text → Text → ℕ → Server → Server
  to_channel_vis key line actor s = elim (get key s.channels) [
    | none ↦ s
    | some ch ↦
        emit_all
          (map (λ m. Effect.send m.0 line)
            (retain
              (λ m. not (ch.modes.auditorium && (not (m.0 == actor) && ltb (rank cfg m.1) rank_op)))
              ch.members))
          s
  ]

  -- Whether the user was on the channel, and the state after.
  unfoldable pub part : ℕ → Text → Text → Server → Bool × Server
  part uid target reason s = elim (get uid s.users) [
    | none ↦ (false, s)
    | some u ↦
        let key = to_lower target in
        let line = part_line u target reason in
        let told =
          if is_hidden uid key s
          then emit (Effect.send uid line) s
          else to_channel_vis key line uid s in
        if contains key u.channels
        then (
          true,
          emit (Effect.hook_part uid key reason)
              (drop_member uid key (emit (Effect.propagate_part uid target reason) told)),
        )
        else (false, s)
  ]

  -- Who is shown the arrival.
  abbrev hears : ℕ → Text → Channel → Server → ℕ → Bool
  hears uid key ch s m =
      m == uid
      || (not (ch.modes.auditorium && ltb (channel_rank cfg m key s) rank_op)
          && not ch.modes.delayjoin)

  -- The arrival of a user on a channel that lets it in: the second half of `join`.
  unfoldable pub admit : (Text → Text) → ℕ → User → Text → Bool → Server → Server
  admit catalog uid u name overrode s =
      let key = to_lower name in
      let is_new = not (contains_key key s.channels) in
      let ch = get_or (get key s.channels) (new name s.clock) in
      let after = entered uid (newcomer is_new ch.modes.delayjoin s) ch in
      let t = record s {
        channels = insert key after s.channels;
        users =
            modify uid
              (λ v. record v {
                channels = set_insert key v.channels;
                invited = without key v.invited;
              })
              s.users;
      } in
      emit_all
        ((if overrode
            then Effect.snotice_c b'v'
                (trf catalog (codes "{0} used oper override to join {1}") (u.nick ∷ name ∷ []))
              ∷ []
            else [])
          ++ ((if is_new
                  && (conf_bool s (codes "chancreate") false
                      || conf_bool s (codes "announce_channels") false)
                then Effect.snotice_c b'j'
                    (trf catalog (codes "{0} created channel {1}") (u.nick ∷ name ∷ []))
                  ∷ []
                else [])
              ++ (map (λ m. Effect.send m (join_line cfg m u name t))
                    (retain (hears uid key after t) (keys after.members))
                  ++ (topic_lines uid name after
                      ++ ((if u.no_implicit_names then [] else Effect.send_names uid key ∷ [])
                          ++ Effect.replay_chanhistory uid key
                            ∷ Effect.propagate_join uid name is_new
                            ∷ Effect.hook_join uid key
                            ∷ [])))))
        t
