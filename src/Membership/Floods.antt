-- ===== src/Membership/Floods.antt =====
-- src/channels.rs: the counters of floods, and what the background tick takes away.
use echoi_rcd.Prelude.{
  ℕ, ◌+◌, ◌-◌, ◌%◌, ◌^◌, Bool, true, false, not, ◌&&◌, List, [], ◌∷◌, ◌++◌, map, Option, none, some,
  Text, codes, if◌then◌else◌, ltb, leb, length, text_eq, get, get_or, map_option, insert, modify,
  remove, retain, contains_key, nat_key, text_key,
}
use echoi_rcd.Channel.Record.{Channel, Ban}
use echoi_rcd.Server.State.{Server, Effect, emit, conf_num}

-- The times that lie within the window before `n`.
abbrev pub recent : ℕ → ℕ → List ℕ → List ℕ
recent n secs times = retain (λ t. ltb (n - t) secs) times

-- `len() as u32`
abbrev pub count_u32 : List ℕ → ℕ
count_u32 times = length times % 2 ^ 32

abbrev pub put_channel : Text → Channel → Server → Server
put_channel key ch s = record s { channels = modify key (λ old. ch) s.channels }

-- `+f`: `some ban` if the user just went over the limit.
unfoldable pub messageflood_hit : ℕ → Text → Server → Option Bool × Server
messageflood_hit uid key s = elim (get key s.channels) [
  | none ↦ (none, s)
  | some ch ↦ elim ch.modes.flood [
    | none ↦ (none, s)
    | some f ↦
        let hits = recent s.clock f.secs (get_or (get uid ch.msgflood_hits) []) ++ s.clock ∷ [] in
        if ltb f.lines (count_u32 hits)
        then (
          some f.ban,
          put_channel key (record ch { msgflood_hits = remove uid ch.msgflood_hits }) s,
        )
        else (
          none,
          put_channel key (record ch { msgflood_hits = insert uid hits ch.msgflood_hits }) s,
        )
  ]
]

abbrev pub locked_until : ℕ → Text → Server → ℕ
locked_until n option s = (n + conf_num s option 60) % 2 ^ 64

-- `+j`: whether joins are locked out, now or still.
unfoldable pub joinflood_check : Text → Server → Bool × Server
joinflood_check key s = elim (get key s.channels) [
  | none ↦ (false, s)
  | some ch ↦ elim ch.modes.joinflood [
    | none ↦ (false, s)
    | some f ↦
        let hits = recent s.clock f.secs ch.joinflood_hits ++ s.clock ∷ [] in
        if ltb s.clock ch.joinflood_until
        then (true, s)
        else if ltb f.count (count_u32 hits)
        then (
          true,
          put_channel key
              (record ch {
                joinflood_until = locked_until s.clock (codes "joinflood_duration") s;
                joinflood_hits = [];
              })
              s,
        )
        else (false, put_channel key (record ch { joinflood_hits = hits }) s)
  ]
]

-- One channel of the loop of `nickflood_blocked`.
unfoldable pub nickflood_one : Text → Option Text × Server → Option Text × Server
nickflood_one key (blocked, s) = elim (get key s.channels) [
  | none ↦ (blocked, s)
  | some ch ↦ elim ch.modes.nickflood [
    | none ↦ (blocked, s)
    | some f ↦
        let named = some (get_or blocked ch.name) in
        let hits = recent s.clock f.secs ch.nickflood_hits ++ s.clock ∷ [] in
        if ltb s.clock ch.nickflood_until
        then (named, s)
        else if ltb f.count (count_u32 hits)
        then (
          named,
          put_channel key
              (record ch {
                nickflood_until = locked_until s.clock (codes "nickflood_duration") s;
                nickflood_hits = [];
              })
              s,
        )
        else (blocked, put_channel key (record ch { nickflood_hits = hits }) s)
  ]
]

unfoldable pub nickflood_each : List Text → Option Text × Server → Option Text × Server
nickflood_each [] r = r
nickflood_each (key ∷ rest) r = nickflood_each rest (nickflood_one key r)

-- `+F`: a nick change is recorded on every channel of the user; the first that is locked is named.
unfoldable pub nickflood_blocked : ℕ → Server → Option Text × Server
nickflood_blocked uid s =
    nickflood_each (get_or (map_option (λ u. u.channels) (get uid s.users)) []) (none, s)

abbrev pub calmed : ℕ → Channel → Channel
calmed now ch =
    let window = get_or ch.modes.kicknorejoin 0 in
    record ch {
      msgflood_hits = retain (λ h. contains_key h.0 ch.members) ch.msgflood_hits;
      recent_kicks = retain (λ k. ltb 0 window && ltb (now - k.1) window) ch.recent_kicks;
    }

-- The counters of those who left, and the kicks that block nobody any more.
unfoldable pub purge_flood_state : Server → Server
purge_flood_state s = record s {
  channels = map (λ (e : Text × Channel). (e.0, calmed s.clock e.1)) s.channels;
}

abbrev pub is_expired : ℕ → Ban → Bool
is_expired now b = elim b.expires [ none ↦ false | some e ↦ leb e now ]

abbrev expired_of : ℕ → Text → Channel → List (Text × (Text × Text))
expired_of now key ch =
    map (λ (b : Ban). (key, (ch.name, b.mask))) (retain (is_expired now) ch.bans)

unfoldable pub expired_bans : ℕ → List (Text × Channel) → List (Text × (Text × Text))
expired_bans now [] = []
expired_bans now ((key, ch) ∷ rest) = expired_of now key ch ++ expired_bans now rest

unfoldable pub lift_ban : Text × (Text × Text) → Server → Server
lift_ban (key, (name, mask)) s =
    emit (Effect.propagate_chan_mode s.sid name (codes "-b") (mask ∷ [])) (
      emit
        (Effect.to_channel key
          (b':' ∷ (s.name ++ (codes " MODE " ++ (name ++ (codes " -b " ++ mask))))) none)
        (record s {
          channels =
              modify key
                (λ ch. record ch { bans = retain (λ b. not (text_eq b.mask mask)) ch.bans })
                s.channels;
        }))

unfoldable pub lift_bans : List (Text × (Text × Text)) → Server → Server
lift_bans [] s = s
lift_bans (b ∷ bs) s = lift_bans bs (lift_ban b s)

-- The timed bans whose time has come are lifted.
unfoldable pub purge_tbans : Server → Server
purge_tbans s = lift_bans (expired_bans s.clock s.channels) s
