-- ===== src/Membership/Kept.antt =====
-- The members and the lists of channels, over all that happens to them.
use mathlib.Core.Bool.{false≢true}
use echoi_rcd.Prelude.{
  ℕ, ==_iff, Bool, true, false, not, List, [], ◌∷◌, some, Text, if◌then◌else◌, ltb, ◌==◌, ◌≡◌, refl,
  sym, ◌∙◌, ap, arith, is_nil, to_lower, get, get_or, map_option, modify, remove, contains,
  contains_key, without, set_insert, nat_key, text_key, Option-cases, Bool-cases, inl, inr,
  get-remove, is_some, subst,
}
use echoi_rcd.Channel.Prefixes.{PrefixCfg}
use echoi_rcd.Channel.Record.{Channel, Ban, new}
use echoi_rcd.Server.Users.{User, host_display}
use echoi_rcd.Server.State.{Server, Effect, emit, is_member}
use echoi_rcd.Server.Accept.{map_users, accepted}
use echoi_rcd.Server.Departed.{announce_if-users, drop_user-users, drop_user-channels}
use echoi_rcd.Server.Left.{scrub_nick-channels, member_of, member_of-modify, remove_user-member_of}
use echoi_rcd.Server.Quit.{announce_if, remove_user, drop_user, scrub_nick}
use echoi_rcd.Membership.{
  part, force_part, flood_kick, add_ban, flood_ban, admit, to_channel_vis, newcomer, entered,
}
use echoi_rcd.Membership.Joined.{IsJoined, lists_channel, drop_member-IsJoined, admitted-IsJoined}

lists-map_users :
    (key : Text) (v : ℕ) (f : User → User) (us : List (ℕ × User))
    → ((u : User) → (f u).channels ≡ u.channels)
    → lists_channel key v (map_users f us) ≡ lists_channel key v us
unfolding get
lists-map_users key v f [] h = refl
lists-map_users key v f ((k, u) ∷ us) h = ground (arith, lists-map_users key v f us h, h u)

lists-scrub_nick :
    (key : Text) (v : ℕ) (nick : Text) (s : Server)
    → lists_channel key v (scrub_nick nick s).users ≡ lists_channel key v s.users
unfolding scrub_nick
lists-scrub_nick key v nick s = elim (Bool-cases (is_nil nick)) [
  | inl h ↦ rw (scrub_nick, h) refl
  | inr h ↦ elim (Bool-cases (ltb 0 (accepted (to_lower nick) s.accepted_nicks))) [
    | inl k ↦ rw (scrub_nick, h, k) (lists-map_users key v _ s.users (λ u. refl))
    | inr k ↦ rw (scrub_nick, h, k) refl
  ]
]

lists-remove :
    (key : Text) (v uid : ℕ) (us : List (ℕ × User))
    → lists_channel key v (remove uid us) ≡ (if uid == v then false else lists_channel key v us)
unfolding get
lists-remove key v uid us = rw (lists_channel, get-remove uid v us) (ground arith)

lists-remove_user :
    (key : Text) (v uid : ℕ) (u : User) (reason : Text) (s : Server)
    → get uid s.users ≡ some u
    → lists_channel key v (remove_user uid reason s).users
      ≡ (if uid == v then false else lists_channel key v s.users)
unfolding remove_user get
lists-remove_user key v uid u reason s h =
    rw
      (
        remove_user,
        h,
        announce_if-users u.registered uid u reason (scrub_nick u.nick (drop_user uid u reason s)),
        lists-scrub_nick key v u.nick (drop_user uid u reason s),
        drop_user-users uid u reason s,
      )
      (lists-remove key v uid s.users)

pub remove_user-IsJoined :
    (uid : ℕ) (u : User) (reason : Text) (s : Server)
    → get uid s.users ≡ some u
    → u.registered ≡ true
    → IsJoined s
    → IsJoined (remove_user uid reason s)
unfolding IsJoined
remove_user-IsJoined uid u reason s h reg ok key v =
    let listed : (k : Text) → member_of k uid s.channels ≡ true → contains k u.channels ≡ true =
      λ k m.
        sym (ap (λ o. get_or (map_option (λ (w : User). contains k w.channels) o) false) h)
        ∙ (sym (ok k uid) ∙ m) in
    rw
      (
        remove_user-member_of uid u reason s h reg listed key v,
        lists-remove_user key v uid u reason s h,
        ok key v,
      )
      refl

announce_if-unregistered :
    (b : Bool) (uid : ℕ) (u : User) (reason : Text) (s : Server)
    → b ≡ false
    → (announce_if b uid u reason s).channels ≡ s.channels
unfolding announce_if
announce_if-unregistered true uid u reason s e = cc
announce_if-unregistered false uid u reason s e = refl

-- A user that was not registered has left no channel, for it was on none.
pub remove_user-unregistered :
    (uid : ℕ) (u : User) (reason : Text) (s : Server)
    → get uid s.users ≡ some u
    → u.registered ≡ false
    → u.channels ≡ []
    → IsJoined s
    → IsJoined (remove_user uid reason s)
unfolding IsJoined remove_user
remove_user-unregistered uid u reason s h reg no_channels ok key v =
    let alone : lists_channel key uid s.users ≡ false = rw (lists_channel, h, no_channels) refl in
    let same : member_of key v (remove_user uid reason s).channels ≡ member_of key v s.channels =
      rw
        (
          remove_user,
          h,
          announce_if-unregistered u.registered uid u reason
              (scrub_nick u.nick (drop_user uid u reason s)) reg,
          scrub_nick-channels u.nick (drop_user uid u reason s),
          drop_user-channels uid u reason s,
        )
        refl in
    same ∙ ok key v ∙ elim (Bool-cases (uid == v)) [
      | inl e ↦
          rw (lists-remove_user key v uid u reason s h, e)
            (ap (λ n. lists_channel key n s.users) (sym ((==_iff uid v).0 e)) ∙ alone)
      | inr e ↦ rw (lists-remove_user key v uid u reason s h, e) refl
    ]

-- What is sent changes neither table.
to_channel_vis-IsJoined :
    (cfg : PrefixCfg) (key line : Text) (actor : ℕ) (s : Server)
    → IsJoined s
    → IsJoined (to_channel_vis cfg key line actor s)
unfolding to_channel_vis IsJoined
to_channel_vis-IsJoined cfg key line actor s ok = elim (Option-cases (get key s.channels)) [
  | inl h ↦ rw (to_channel_vis, h) ok
  | inr (ch, h) ↦ rw (to_channel_vis, h) ok
]

pub emit-IsJoined : (e : Effect) (s : Server) → IsJoined s → IsJoined (emit e s)
unfolding IsJoined
emit-IsJoined e s ok = ok

told-IsJoined :
    (cfg : PrefixCfg) (b : Bool) (key line : Text) (uid : ℕ) (s : Server)
    → IsJoined s
    → IsJoined (if b then emit (Effect.send uid line) s else to_channel_vis cfg key line uid s)
told-IsJoined cfg true key line uid s ok = emit-IsJoined (Effect.send uid line) s ok
told-IsJoined cfg false key line uid s ok = to_channel_vis-IsJoined cfg key line uid s ok

pub part-IsJoined :
    (cfg : PrefixCfg) (uid : ℕ) (target reason : Text) (s : Server)
    → IsJoined s
    → IsJoined (part cfg uid target reason s).1
unfolding part
part-IsJoined cfg uid target reason s ok = elim (Option-cases (get uid s.users)) [
  | inl h ↦ rw (part, h) ok
  | inr (u, h) ↦
      let key = to_lower target in
      elim (Bool-cases (contains key u.channels)) [
        | inl c ↦
            rw (part, h, c)
              (emit-IsJoined _ _ (
                drop_member-IsJoined uid key _
                  (emit-IsJoined _ _ (told-IsJoined cfg _ key _ uid s ok))))
        | inr c ↦ rw (part, h, c) ok
      ]
]

same_server : (s t r : Server) → some r ≡ some t → IsJoined r → IsJoined t
same_server s t r e ok = subst IsJoined (ap (λ o. get_or o s) e) ok

heard-IsJoined :
    (b : Bool) (d e : Effect) (s : Server)
    → IsJoined s
    → IsJoined (if b then emit d s else emit e s)
heard-IsJoined true d e s ok = emit-IsJoined d s ok
heard-IsJoined false d e s ok = emit-IsJoined e s ok

pub force_part-IsJoined :
    (uid : ℕ) (chan reason : Text) (s t : Server)
    → force_part uid chan reason s ≡ some t
    → IsJoined s
    → IsJoined t
unfolding force_part
force_part-IsJoined uid chan reason s t e ok = elim (Option-cases (get uid s.users)) [
  | inl h ↦ elim (Bool-cases (is_member s uid (to_lower chan))) [
    | inl m ↦ absurd (false≢true (ap is_some (rw (force_part, h, m) at e)))
    | inr m ↦ same_server s t s (rw (force_part, h, m) at e) ok
  ]
  | inr (u, h) ↦ elim (Bool-cases (is_member s uid (to_lower chan))) [
    | inl m ↦
        same_server s t _ (rw (force_part, h, m) at e) (
          drop_member-IsJoined uid (to_lower chan) _
            (emit-IsJoined _ _ (heard-IsJoined _ _ _ s ok)))
    | inr m ↦ same_server s t s (rw (force_part, h, m) at e) ok
  ]
]

banned-IsJoined :
    (b : Bool) (ban : Ban) (key : Text) (s : Server)
    → IsJoined s
    → IsJoined (if b then record s { channels = modify key (add_ban ban) s.channels } else s)
unfolding IsJoined
banned-IsJoined false ban key s ok = ok
banned-IsJoined true ban key s ok =
    λ k v. member_of-modify k v key (add_ban ban) s.channels (λ ch. ground arith) ∙ ok k v

pub flood_kick-IsJoined :
    (uid : ℕ) (key : Text) (ban : Bool) (s : Server)
    → IsJoined s
    → IsJoined (flood_kick uid key ban s)
unfolding flood_kick
flood_kick-IsJoined uid key ban s ok = elim (Option-cases (get uid s.users)) [
  | inl h ↦ rw (flood_kick, h) ok
  | inr (u, h) ↦
      rw (flood_kick, h)
        (emit-IsJoined _ _ (
          drop_member-IsJoined uid key _ (
            emit-IsJoined _ _
              (emit-IsJoined _ _ (banned-IsJoined ban (flood_ban (host_display u) s) key s ok)))))
]

-- The members of a channel, or of a new one.
pub member_of-new :
    (key name : Text) (now v : ℕ) (chs : List (Text × Channel))
    → contains_key v (get_or (get key chs) (new name now)).members ≡ member_of key v chs
unfolding get new
member_of-new key name now v chs = elim (Option-cases (get key chs)) [
  | inl h ↦ rw (member_of, h) refl
  | inr (ch, h) ↦ rw (member_of, h) refl
]

pub admit-IsJoined :
    (cfg : PrefixCfg) (catalog : Text → Text) (uid : ℕ) (u : User) (name : Text) (overrode : Bool)
    (s : Server)
    → get uid s.users ≡ some u
    → IsJoined s
    → IsJoined (admit cfg catalog uid u name overrode s)
unfolding admit IsJoined
admit-IsJoined cfg catalog uid u name overrode s h ok =
    let key = to_lower name in
    let before = get_or (get key s.channels) (new name s.clock) in
    let m = newcomer (not (contains_key key s.channels)) before.modes.delayjoin s in
    admitted-IsJoined uid u key before (entered uid m before) m
      (λ v. record v { channels = set_insert key v.channels; invited = without key v.invited }) s h
      (λ v. member_of-new key name s.clock v s.channels) refl refl ok
