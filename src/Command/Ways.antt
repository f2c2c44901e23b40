-- ===== src/Command/Ways.antt =====
-- Steps of the server by which the members of the channels change, or their counters. KICK, CYCLE
-- and the commands of operators, services and linked servers that move users are no steps here.
use echoi_rcd.Prelude.{ℕ, Bool, true, false, [], Option, some, Text, ◌≡◌, get, nat_key}
use echoi_rcd.Channel.Prefixes.{PrefixCfg}
use echoi_rcd.Server.Users.{User}
use echoi_rcd.Server.State.{Server}
use echoi_rcd.Server.Quit.{remove_user}
use echoi_rcd.Membership.{force_part, flood_kick}
use echoi_rcd.Membership.Rename.{rename_channel}
use echoi_rcd.Membership.Floods.{
  messageflood_hit, joinflood_check, nickflood_blocked, purge_flood_state, purge_tbans,
}
use echoi_rcd.Membership.Joined.{IsJoined}
use echoi_rcd.Membership.Moved.{rename_channel-IsJoined}
use echoi_rcd.Membership.Counted.{
  messageflood_hit-IsJoined, joinflood_check-IsJoined, nickflood_blocked-IsJoined,
  purge_flood_state-IsJoined, purge_tbans-IsJoined,
}
use echoi_rcd.Membership.Kept.{
  remove_user-IsJoined, remove_user-unregistered, force_part-IsJoined, flood_kick-IsJoined,
}
use echoi_rcd.Command.{handle_join, handle_part, handle_remove, handle_topic}
use echoi_rcd.Command.Steps.{
  handle_join-IsJoined, handle_part-IsJoined, handle_remove-IsJoined, handle_topic-IsJoined,
}

module _ (to_lowercase : Text → Text) (byte_length : Text → ℕ) (catalog : Text → Text)
    (cfg : PrefixCfg) (elsewhere : ℕ → Server → ℕ → Text → Bool)
    (max_chans : Server → ℕ → Option ℕ) where
  pub data Step : Server → Server → Type 0 where
    joins :
        {s : Server} (uid : ℕ) (names : Text) (keys : Option Text)
        → Step s
            (handle_join to_lowercase byte_length catalog cfg elsewhere max_chans uid names keys
              s).1
    parts :
        {s : Server} (uid : ℕ) (list : Text) (reason : Option Text)
        → Step s (handle_part cfg uid list reason s).1
    removes :
        {s : Server} (uid : ℕ) (chan victim : Text) (reason : Option Text)
        → Step s (handle_remove cfg uid chan victim reason s).1
    sets_topic :
        {s : Server} (uid : ℕ) (target : Text) (text : Option Text)
        → Step s (handle_topic cfg uid target text s).1
    is_forced :
        {s t : Server} (uid : ℕ) (chan reason : Text)
        → force_part uid chan reason s ≡ some t
        → Step s t
    is_kicked : {s : Server} (uid : ℕ) (key : Text) (ban : Bool) → Step s (flood_kick uid key ban s)
    quits :
        {s : Server} (uid : ℕ) (u : User) (reason : Text)
        → get uid s.users ≡ some u
        → u.registered ≡ true
        → Step s (remove_user uid reason s)
    gives_up :
        {s : Server} (uid : ℕ) (u : User) (reason : Text)
        → get uid s.users ≡ some u
        → u.registered ≡ false
        → u.channels ≡ []
        → Step s (remove_user uid reason s)
    renames :
        {s : Server} (old name src reason : Text) → Step s (rename_channel old name src reason s).1
    counts_line : {s : Server} (uid : ℕ) (key : Text) → Step s (messageflood_hit uid key s).1
    counts_join : {s : Server} (key : Text) → Step s (joinflood_check key s).1
    counts_nick : {s : Server} (uid : ℕ) → Step s (nickflood_blocked uid s).1
    ticks : {s : Server} → Step s (purge_flood_state s)
    lifts : {s : Server} → Step s (purge_tbans s)

  -- The servers that some run of steps leads to.
  pub data Reaches : Server → Server → Type 0 where
    here : {s : Server} → Reaches s s
    next : {s t r : Server} → Reaches s t → Step t r → Reaches s r

  Step-IsJoined : {s t : Server} → Step s t → IsJoined s → IsJoined t
  Step-IsJoined (joins uid names keys) ok =
      handle_join-IsJoined to_lowercase byte_length catalog cfg elsewhere max_chans uid names keys _
        ok
  Step-IsJoined (parts uid list reason) ok = handle_part-IsJoined cfg uid list reason _ ok
  Step-IsJoined (removes uid chan victim reason) ok =
      handle_remove-IsJoined cfg uid chan victim reason _ ok
  Step-IsJoined (sets_topic uid target text) ok = handle_topic-IsJoined cfg uid target text _ ok
  Step-IsJoined (is_forced uid chan reason e) ok = force_part-IsJoined uid chan reason _ _ e ok
  Step-IsJoined (is_kicked uid key ban) ok = flood_kick-IsJoined uid key ban _ ok
  Step-IsJoined (quits uid u reason h reg) ok = remove_user-IsJoined uid u reason _ h reg ok
  Step-IsJoined (gives_up uid u reason h reg no_channels) ok =
      remove_user-unregistered uid u reason _ h reg no_channels ok
  Step-IsJoined (renames old name src reason) ok = rename_channel-IsJoined old name src reason _ ok
  Step-IsJoined (counts_line uid key) ok = messageflood_hit-IsJoined uid key _ ok
  Step-IsJoined (counts_join key) ok = joinflood_check-IsJoined key _ ok
  Step-IsJoined (counts_nick uid) ok = nickflood_blocked-IsJoined uid _ ok
  Step-IsJoined ticks ok = purge_flood_state-IsJoined _ ok
  Step-IsJoined lifts ok = purge_tbans-IsJoined _ ok

  -- If the members of the channels are those users that list them, it is so after every run of
  -- the commands JOIN, PART, REMOVE and TOPIC, of forced parts, kicks of floods, renames, the
  -- work of the background, and removals of users that are registered or list no channel.
  pub Reaches-IsJoined : {s t : Server} → Reaches s t → IsJoined s → IsJoined t
  Reaches-IsJoined here ok = ok
  Reaches-IsJoined (next run step) ok = Step-IsJoined step (Reaches-IsJoined run ok)
