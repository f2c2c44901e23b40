-- ===== src/Membership/Counted.antt =====
-- The counters of floods change no member.
use echoi_rcd.Prelude.{
  ℕ, List, [], ◌∷◌, map, Option, none, some, Text, ltb, ◌++◌, ◌≡◌, refl, sym, ◌∙◌, ap, arith, get,
  get_or, modify, contains_key, text_eq, nat_key, text_key, Option-cases, Bool-cases, inl, inr,
}
use echoi_rcd.Channel.Record.{Channel}
use echoi_rcd.Server.State.{Server}
use echoi_rcd.Server.Left.{member_of, member_of-modify, get_same}
use echoi_rcd.Membership.Floods.{
  put_channel, recent, count_u32, messageflood_hit, joinflood_check, nickflood_one, nickflood_each,
  nickflood_blocked, calmed, purge_flood_state, lift_ban, lift_bans, expired_bans, purge_tbans,
}
use echoi_rcd.Membership.Joined.{IsJoined, member_of-change}

-- A channel that is there is put back with the same members.
pub member_of-put :
    (key : Text) (ch after : Channel) (chs : List (Text × Channel))
    → get key chs ≡ some ch
    → after.members ≡ ch.members
    → (k : Text) (v : ℕ) → member_of k v (modify key (λ old. after) chs) ≡ member_of k v chs
member_of-put key ch after chs h same k v =
    member_of-change k v key (λ old. after) chs ∙ elim (Bool-cases (text_eq key k)) [
      | inl e ↦
          let there : get k chs ≡ some ch = sym (get_same key k chs e) ∙ h in
          rw (e, member_of, there) (ap (contains_key v) same)
      | inr e ↦ rw (e) refl
    ]

put_channel-IsJoined :
    (key : Text) (ch after : Channel) (s : Server)
    → get key s.channels ≡ some ch
    → after.members ≡ ch.members
    → IsJoined s
    → IsJoined (put_channel key after s)
unfolding IsJoined
put_channel-IsJoined key ch after s h same ok k v =
    member_of-put key ch after s.channels h same k v ∙ ok k v

pub messageflood_hit-IsJoined :
    (uid : ℕ) (key : Text) (s : Server) → IsJoined s → IsJoined (messageflood_hit uid key s).1
unfolding messageflood_hit
messageflood_hit-IsJoined uid key s ok = elim (Option-cases (get key s.channels)) [
  | inl h ↦ rw (messageflood_hit, h) ok
  | inr (ch, h) ↦ elim (Option-cases ch.modes.flood) [
    | inl e ↦ rw (messageflood_hit, h, e) ok
    | inr (f, e) ↦
        let hits = recent s.clock f.secs (get_or (get uid ch.msgflood_hits) []) ++ s.clock ∷ [] in
        elim (Bool-cases (ltb f.lines (count_u32 hits))) [
          | inl c ↦ rw (messageflood_hit, h, e, c) (put_channel-IsJoined key ch _ s h refl ok)
          | inr c ↦ rw (messageflood_hit, h, e, c) (put_channel-IsJoined key ch _ s h refl ok)
        ]
  ]
]

-- The check of `+j` leaves the server as it is, or changes no more than the counters of a channel.
pub joinflood_check-cases :
    (P : Server → Type 0) (key : Text) (s : Server)
    → P s
    → ((ch after : Channel)
        → get key s.channels ≡ some ch
        → after.members ≡ ch.members
        → P (put_channel key after s))
    → P (joinflood_check key s).1
unfolding joinflood_check
joinflood_check-cases P key s same put = elim (Option-cases (get key s.channels)) [
  | inl h ↦ simp (joinflood_check, h) same
  | inr (ch, h) ↦ elim (Option-cases ch.modes.joinflood) [
    | inl e ↦ simp (joinflood_check, h, e) same
    | inr (f, e) ↦
        let hits = recent s.clock f.secs ch.joinflood_hits ++ s.clock ∷ [] in
        elim (Bool-cases (ltb s.clock ch.joinflood_until)) [
          | inl l ↦ simp (joinflood_check, h, e, l) same
          | inr l ↦ elim (Bool-cases (ltb f.count (count_u32 hits))) [
            | inl c ↦ simp (joinflood_check, h, e, l, c) (put ch _ h refl)
            | inr c ↦ simp (joinflood_check, h, e, l, c) (put ch _ h refl)
          ]
        ]
  ]
]

pub joinflood_check-IsJoined :
    (key : Text) (s : Server) → IsJoined s → IsJoined (joinflood_check key s).1
joinflood_check-IsJoined key s ok =
    joinflood_check-cases IsJoined key s ok
      (λ ch after h e. put_channel-IsJoined key ch after s h e ok)

nickflood_one-IsJoined :
    (key : Text) (blocked : Option Text) (s : Server)
    → IsJoined s
    → IsJoined (nickflood_one key (blocked, s)).1
unfolding nickflood_one
nickflood_one-IsJoined key blocked s ok = elim (Option-cases (get key s.channels)) [
  | inl h ↦ rw (nickflood_one, h) ok
  | inr (ch, h) ↦ elim (Option-cases ch.modes.nickflood) [
    | inl e ↦ rw (nickflood_one, h, e) ok
    | inr (f, e) ↦
        let hits = recent s.clock f.secs ch.nickflood_hits ++ s.clock ∷ [] in
        elim (Bool-cases (ltb s.clock ch.nickflood_until)) [
          | inl l ↦ rw (nickflood_one, h, e, l) ok
          | inr l ↦ elim (Bool-cases (ltb f.count (count_u32 hits))) [
            | inl c ↦ rw (nickflood_one, h, e, l, c) (put_channel-IsJoined key ch _ s h refl ok)
            | inr c ↦ rw (nickflood_one, h, e, l, c) (put_channel-IsJoined key ch _ s h refl ok)
          ]
        ]
  ]
]

nickflood_each-IsJoined :
    (keys : List Text) (r : Option Text × Server)
    → IsJoined r.1
    → IsJoined (nickflood_each keys r).1
unfolding nickflood_each
nickflood_each-IsJoined [] r ok = ok
nickflood_each-IsJoined (k ∷ ks) r ok =
    nickflood_each-IsJoined ks (nickflood_one k r) (nickflood_one-IsJoined k r.0 r.1 ok)

pub nickflood_blocked-IsJoined :
    (uid : ℕ) (s : Server) → IsJoined s → IsJoined (nickflood_blocked uid s).1
unfolding nickflood_blocked
nickflood_blocked-IsJoined uid s ok = nickflood_each-IsJoined _ (none, s) ok

member_of-calmed :
    (key : Text) (v now : ℕ) (chs : List (Text × Channel))
    → member_of key v (map (λ (e : Text × Channel). (e.0, calmed now e.1)) chs)
      ≡ member_of key v chs
unfolding get
member_of-calmed key v now [] = refl
member_of-calmed key v now ((k, ch) ∷ chs) = ground (arith, member_of-calmed key v now chs)

pub purge_flood_state-IsJoined : (s : Server) → IsJoined s → IsJoined (purge_flood_state s)
unfolding IsJoined purge_flood_state
purge_flood_state-IsJoined s ok key v = member_of-calmed key v s.clock s.channels ∙ ok key v

lift_ban-IsJoined : (b : Text × (Text × Text)) (s : Server) → IsJoined s → IsJoined (lift_ban b s)
unfolding IsJoined lift_ban
lift_ban-IsJoined (k, (name, mask)) s ok key v =
    member_of-modify key v k _ s.channels (λ ch. refl) ∙ ok key v

lift_bans-IsJoined :
    (bs : List (Text × (Text × Text))) (s : Server) → IsJoined s → IsJoined (lift_bans bs s)
unfolding lift_bans
lift_bans-IsJoined [] s ok = ok
lift_bans-IsJoined (b ∷ bs) s ok = lift_bans-IsJoined bs (lift_ban b s) (lift_ban-IsJoined b s ok)

pub purge_tbans-IsJoined : (s : Server) → IsJoined s → IsJoined (purge_tbans s)
unfolding purge_tbans
purge_tbans-IsJoined s ok = lift_bans-IsJoined (expired_bans s.clock s.channels) s ok
