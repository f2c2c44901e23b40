-- ===== src/Server/Quit.antt =====
-- src/server.rs: `remove_user`, and what it calls of src/watch.rs. Where the code iterates over a
-- hash set or map, the order is that of the list.
use echoi_rcd.Prelude.{
  ℕ, ◌-◌, Bool, true, false, ◌&&◌, List, [], ◌∷◌, ◌++◌, map, Option, none, some, Text, codes,
  if◌then◌else◌, ltb, is_nil, to_lower, get, get_or, insert, modify, remove, retain_values, without,
  set_insert, keys, map_option, unindex_all, show_nat, nat_key, text_key,
}
use echoi_rcd.Channel.Record.{Channel, keep_alive}
use echoi_rcd.Server.Users.{User, host_display, prefix}
use echoi_rcd.Server.State.{Server, Effect, WhowasEntry, emit, conf_num}
use echoi_rcd.Server.Accept.{lower_counts, accepted, map_users}

abbrev pub rpl_logoff : ℕ
rpl_logoff = 601

abbrev pub rpl_monoffline : ℕ
rpl_monoffline = 731

abbrev pub emit_in_turn : List Effect → List Effect → List Effect
emit_in_turn [] out = out
emit_in_turn (e ∷ es) out = emit_in_turn es (e ∷ out)

abbrev pub emit_all : List Effect → Server → Server
emit_all es s = record s { out = emit_in_turn es s.out }

-- What `VecDeque` keeps when its back is popped down to the length `cap`.
abbrev pub first : ℕ → List WhowasEntry → List WhowasEntry
first cap [] = []
first cap (w ∷ ws) = let rest = first (cap - 1) ws in if ltb 0 cap then w ∷ rest else []

unfoldable pub push_whowas : Text → Text → Text → Text → Option Text → Server → Server
push_whowas nick ident host realname account s = if is_nil nick then s else record s {
  whowas = first (conf_num s (codes "whowas_maxentries") 256) (
      record {
        nick = nick;
        ident = ident;
        host = host;
        realname = realname;
        account = account;
        ts = s.clock;
      }
      ∷ s.whowas);
}

unfoldable pub watch_notify_offline : Text → Server → Server
watch_notify_offline nick s =
    let low = to_lower nick in
    emit_all
      (map
          (λ uid.
            Effect.numeric uid rpl_logoff
              (nick ++ codes " * * " ++ show_nat s.clock ++ codes " :is now offline"))
          (get_or (get low s.watch_by) [])
        ++ map (λ uid. Effect.numeric uid rpl_monoffline (b':' ∷ nick))
            (get_or (get low s.monitor_by) []))
      s

abbrev pub insert_all : List ℕ → List ℕ → List ℕ
insert_all [] seen = seen
insert_all (m ∷ ms) seen = insert_all ms (set_insert m seen)

-- The table of channels, and those who are to see the user leave.
abbrev pub Leaving : Type 0
Leaving = List (Text × Channel) × List ℕ

-- The user leaves one channel. If its arrival was never shown there, its departure is not either.
unfoldable pub leave_channel : ℕ → Text → Leaving → Leaving
leave_channel uid key (channels, seen) = elim (get key channels) [
  | none ↦ (channels, seen)
  | some ch ↦
      let hidden = get_or (map_option (λ m. m.hidden) (get uid ch.members)) false in
      let left = remove uid ch.members in
      (
        insert key (record ch { members = left }) channels,
        if hidden then seen else insert_all (keys left) seen,
      )
]

-- The loop over the channels of the user.
unfoldable pub leave_channels : ℕ → List Text → Leaving → Leaving
leave_channels uid [] acc = acc
leave_channels uid (key ∷ ks) acc = leave_channels uid ks (leave_channel uid key acc)

-- The loop over the pending invitations.
unfoldable pub uninvite : ℕ → List Text → List (Text × Channel) → List (Text × Channel)
uninvite uid [] channels = channels
uninvite uid (key ∷ ks) channels =
    uninvite uid ks (modify key (λ ch. record ch { invites = without uid ch.invites }) channels)

-- What the removal does first: the user is gone from the table and from the indexes.
unfoldable pub drop_indexes : ℕ → User → Server → Server
drop_indexes uid user s = record s {
  accepted_nicks = lower_counts user.accept s.accepted_nicks;
  watch_by = unindex_all uid user.watch s.watch_by;
  monitor_by = unindex_all uid user.monitor s.monitor_by;
  uuid_local = remove user.uuid s.uuid_local;
}

-- The nick is free again, and no accept list keeps it.
unfoldable pub scrub_nick : Text → Server → Server
scrub_nick nick s =
    if is_nil nick
    then s
    else let low = to_lower nick in
      let t = record s {
        nick_index = remove low s.nick_index;
        accepted_nicks = remove low s.accepted_nicks;
      } in
      if ltb 0 (accepted low s.accepted_nicks)
      then record t { users = map_users (λ u. record u { accept = without low u.accept }) s.users }
      else t

unfoldable pub announce_quit : ℕ → User → Text → Server → Server
announce_quit uid user reason s =
    let line = b':' ∷ (prefix user ++ codes " QUIT :" ++ reason) in
    let left = leave_channels uid user.channels (s.channels, []) in
    let t = emit_all (map (λ m. Effect.send m line) left.1) s in
    watch_notify_offline user.nick
      (record t { channels = retain_values keep_alive (uninvite uid user.invited left.0) })

-- The removal up to the point where the nick is freed.
unfoldable pub drop_user : ℕ → User → Text → Server → Server
drop_user uid user reason s =
    let gone =
      emit (Effect.count_disconnect user.ip user.class) (record s { users = remove uid s.users }) in
    let counted = if user.registered then gone else emit Effect.note_removed_unreg gone in
    let published =
      if user.registered && s.redis_active
      then emit (Effect.publish_event (codes "quit" ∷ user.nick ∷ reason ∷ [])) counted
      else counted in
    let dropped = drop_indexes uid user published in
    if user.registered
    then emit (Effect.propagate (b':' ∷ (user.uuid ++ codes " QUIT :" ++ reason)) none)
        (push_whowas user.nick user.ident (host_display user) user.realname user.account dropped)
    else dropped

-- Only a registered user was seen by others.
unfoldable pub announce_if : Bool → ℕ → User → Text → Server → Server
announce_if true uid user reason s = announce_quit uid user reason s
announce_if false uid user reason s = s

unfoldable pub remove_user : ℕ → Text → Server → Server
remove_user uid reason s = elim (get uid s.users) [
  | none ↦ s
  | some user ↦
      announce_if user.registered uid user reason
        (scrub_nick user.nick (drop_user uid user reason s))
]
