-- ===== src/Command.antt =====
-- src/coremods/core_channel.rs: the commands JOIN, PART, REMOVE and TOPIC.
pub mod Ranked
pub mod Steps
pub mod Ways
mod Examples
use echoi_rcd.Prelude.{
  ℕ, Bool, true, false, not, ◌&&◌, List, [], ◌∷◌, ◌++◌, Option, none, some, Text, codes,
  if◌then◌else◌, ltb, leb, is_nil, retain, split, to_lower, get, get_or, map_option, modify,
  contains, contains_key, show_nat, nat_key, text_key, is_some, ◌>>=◌,
}
use echoi_rcd.Channel.Prefixes.{PrefixCfg}
use echoi_rcd.Channel.Member.{rank_halfop, rank_op}
use echoi_rcd.Channel.Record.{Channel, Topic}
use echoi_rcd.Server.Users.{User, prefix}
use echoi_rcd.Server.State.{Server, Effect, emit, find_nick, is_member}
use echoi_rcd.Mode.Members.{channel_rank}
use echoi_rcd.Mode.Dispatch.{CmdResult}
use echoi_rcd.Membership.{drop_member, part}
use echoi_rcd.Entry.Join

-- The parts of a list with commas that are not empty.
abbrev pub targets : Text → List Text
targets list = retain (λ t. not (is_nil t)) (split b',' list)

abbrev pub fails : ℕ → ℕ → Text → Server → CmdResult × Server
fails uid num text s = (CmdResult.fail, emit (Effect.numeric uid num text) s)

abbrev needs_op : ℕ → Text → Text → Server → CmdResult × Server
needs_op uid chan text s = fails uid 482 (chan ++ text) s

-- The rest of a list without its first entry, if it has one.
abbrev rest_of : List Text → List Text
rest_of [] = []
rest_of (k ∷ ks) = ks

abbrev first_of : List Text → Option Text
first_of [] = none
first_of (k ∷ ks) = some k

module _ (to_lowercase : Text → Text) (byte_length : Text → ℕ) (catalog : Text → Text)
    (cfg : PrefixCfg) (elsewhere : ℕ → Server → ℕ → Text → Bool)
    (max_chans : Server → ℕ → Option ℕ) where
  -- The channels of JOIN, each with its key if there is one.
  unfoldable pub join_each : ℕ → List Text → List Text → Server → Server
  join_each uid [] keys s = s
  join_each uid (name ∷ names) keys s = join_each uid names (rest_of keys) (
      Join.join to_lowercase byte_length catalog cfg elsewhere max_chans uid name (first_of keys) s)

  unfoldable pub handle_join : ℕ → Text → Option Text → Server → CmdResult × Server
  handle_join uid names keys s =
      (CmdResult.ok, join_each uid (targets names) (get_or (map_option (split b',') keys) []) s)

module _ (cfg : PrefixCfg) where
  unfoldable pub part_each : ℕ → List Text → Text → Server → Server
  part_each uid [] reason s = s
  part_each uid (target ∷ rest) reason s =
      let parted = part cfg uid target reason s in
      part_each uid rest reason (
        if parted.0
        then parted.1
        else emit (Effect.numeric uid 442 (target ++ codes " :You're not on that channel"))
            parted.1)

  unfoldable pub handle_part : ℕ → Text → Option Text → Server → CmdResult × Server
  handle_part uid list reason s = (CmdResult.ok, part_each uid (targets list) (get_or reason []) s)

  abbrev removed : ℕ → User → User → Text → Text → Option Text → Server → Server
  removed tuid by target chan key reason s =
      let why =
        codes "Removed by " ++ (by.nick ++ get_or (map_option (λ r. codes ": " ++ r) reason) []) in
      let line = b':' ∷ (prefix target ++ (codes " PART " ++ (chan ++ (codes " :" ++ why)))) in
      drop_member tuid key
        (emit (Effect.propagate_part tuid chan why) (emit (Effect.to_channel key line none) s))

  -- `panicked` stands for a user that is not there.
  abbrev remove_now : ℕ → ℕ → Text → Text → Option Text → Server → CmdResult × Server
  remove_now uid tuid chan key reason s = elim (get uid s.users) [
    | none ↦ (CmdResult.panicked, s)
    | some by ↦ elim (get tuid s.users) [
      | none ↦ (CmdResult.panicked, s)
      | some target ↦ (CmdResult.ok, removed tuid by target chan key reason s)
    ]
  ]

  unfoldable pub handle_remove : ℕ → Text → Text → Option Text → Server → CmdResult × Server
  handle_remove uid chan victim reason s =
      let key = to_lower chan in
      if not (contains_key key s.channels)
      then fails uid 403 (chan ++ codes " :No such channel") s
      else if ltb (channel_rank cfg uid key s) rank_halfop
      then needs_op uid chan (codes " :You're not a channel operator") s
      else elim (find_nick s victim) [
        | none ↦ fails uid 401 (victim ++ codes " :No such nick/channel") s
        | some tuid ↦
            if not (is_member s tuid key)
            then fails uid 441 (victim ++ b' ' ∷ (chan ++ codes " :They aren't on that channel")) s
            else if ltb (channel_rank cfg uid key s) (channel_rank cfg tuid key s)
            then needs_op uid chan (codes " :You cannot remove a user of higher rank") s
            else remove_now uid tuid chan key reason s
      ]

  abbrev show_topic : ℕ → Text → Channel → Server → Server
  show_topic uid target ch s = elim ch.topic [
    | none ↦ emit (Effect.numeric uid 331 (target ++ codes " :No topic is set")) s
    | some t ↦
        emit (Effect.numeric uid 333 (target ++ b' ' ∷ (t.setter ++ b' ' ∷ show_nat t.ts)))
          (emit (Effect.numeric uid 332 (target ++ (codes " :" ++ t.text))) s)
  ]

  abbrev set_topic : ℕ → User → Text → Text → Text → Server → Server
  set_topic uid u target key text s =
      let line = b':' ∷ (prefix u ++ (codes " TOPIC " ++ (target ++ (codes " :" ++ text)))) in
      let topic : Topic = record { text = text; setter = u.nick; ts = s.clock } in
      emit (Effect.propagate_topic uid target text) (
        emit (Effect.to_channel key line none) (
          emit (Effect.record_event key line) (record s {
            channels = modify key (λ ch. record ch { topic = some topic }) s.channels;
          })))

  unfoldable pub handle_topic : ℕ → Text → Option Text → Server → CmdResult × Server
  handle_topic uid target text s =
      let key = to_lower target in
      elim (get key s.channels) [
        | none ↦ fails uid 403 (target ++ codes " :No such channel") s
        | some ch ↦ elim text [
          | none ↦ (CmdResult.ok, show_topic uid target ch s)
          | some t ↦ elim (get uid s.users) [
            | none ↦ fails uid 442 (target ++ codes " :You're not on that channel") s
            | some u ↦
                if not (contains key u.channels)
                then fails uid 442 (target ++ codes " :You're not on that channel") s
                else if ch.modes.topic_ops && ltb (channel_rank cfg uid key s) rank_op
                then needs_op uid target (codes " :You're not a channel operator") s
                else (CmdResult.ok, set_topic uid u target key t s)
          ]
        ]
      ]
