-- ===== src/Entry/Arrived.antt =====
-- The members of the channels and the lists of the users after `join`.
use echoi_rcd.Prelude.{
  ℕ, zero, suc, Bool, true, false, not, ◌&&◌, Option, none, some, Text, if◌then◌else◌, ltb, ◌≡◌,
  refl, ◌∙◌, ap, arith, to_lower, get, contains_key, text_key, nat_key, Option-cases, Bool-cases,
  inl, inr, eq_ignore_case, get_or, ◌==◌,
}
use echoi_rcd.Channel.Prefixes.{PrefixCfg}
use echoi_rcd.Server.Users.{User}
use echoi_rcd.Server.State.{Server, Effect, emit}
use echoi_rcd.Membership.{admit, newcomer, entered}
use echoi_rcd.Membership.Floods.{joinflood_check}
use echoi_rcd.Channel.Record.{new}
use echoi_rcd.Server.Left.{member_of}
use echoi_rcd.Membership.Joined.{IsJoined, member_of-arrived}
use echoi_rcd.Membership.Counted.{joinflood_check-IsJoined, joinflood_check-cases, member_of-put}
use echoi_rcd.Membership.Kept.{admit-IsJoined, emit-IsJoined, member_of-new}
use echoi_rcd.Entry.Doors.{BadChan}
use echoi_rcd.Entry.Denied.{Entry, refused, redirected, let_in}
use echoi_rcd.Entry.Join.{
  Turn, stops, goes_on, max_redir, deny, come_in, answer, wish, round, go_on, join_within, join,
}
use echoi_rcd.Entry.Rounds.{join_as-cases, round-cases}

joinflood_check-users : (key : Text) (s : Server) → (joinflood_check key s).1.users ≡ s.users
joinflood_check-users key s =
    joinflood_check-cases (λ t. t.users ≡ s.users) key s refl (λ ch after h e. refl)

-- What does not depend on what is sent, and is kept by the counter of joins and by an arrival, is
-- kept by `join`.
module _ (to_lowercase : Text → Text) (byte_length : Text → ℕ) (catalog : Text → Text)
    (cfg : PrefixCfg) (elsewhere : ℕ → Server → ℕ → Text → Bool) (max_chans : Server → ℕ → Option ℕ)
    (P : Server → Type 0) (uid : ℕ) (emitted : (e : Effect) (s : Server) → P s → P (emit e s))
    (counted : (key : Text) (s : Server) → P s → P (joinflood_check key s).1)
    (admitted : (u : User) (name : Text) (overrode : Bool) (s : Server)
      → get uid s.users ≡ some u
      → P s
      → P (admit cfg catalog uid u name overrode s)) where
  -- What a round leads to.
  abbrev Leads : Turn → Type 0
  Leads (stops s) = P s
  Leads (goes_on r d t s) = P s

  go_on-Leads :
      (next : Turn) (f : Bool → ℕ → Text → Server → Server)
      → Leads next
      → ((r : Bool) (d : ℕ) (t : Text) (s : Server) → P s → P (f r d t s))
      → P (go_on next f)
  go_on-Leads (stops s) f ok kept = ok
  go_on-Leads (goes_on r d t s) f ok kept = kept r d t s ok

  deny-Leads :
      (name : Text) (bc : BadChan) (r : Bool) (depth : ℕ) (s : Server)
      → P s
      → Leads (deny uid name bc r depth s)
  unfolding deny
  deny-Leads name bc r depth s ok = elim (Option-cases bc.redirect) [
    | inl h ↦ simp (deny, h) (emitted _ s ok)
    | inr (t, h) ↦ elim (Bool-cases (not (eq_ignore_case t name) && ltb depth max_redir)) [
      | inl c ↦ simp (deny, h, c) (emitted _ _ (emitted _ s ok))
      | inr c ↦ simp (deny, h, c) (emitted _ s ok)
    ]
  ]

  checked_kept :
      (b : Bool) (key name told : Text) (u : User) (overrode : Bool) (s : Server)
      → get uid s.users ≡ some u
      → P s
      → P (
          let checked = if b then joinflood_check key s else (false, s) in
          if checked.0
          then emit (Effect.numeric uid 437 told) checked.1
          else admit cfg catalog uid u name overrode checked.1)
  checked_kept false key name told u overrode s found ok = admitted u name overrode s found ok
  checked_kept true key name told u overrode s found ok =
      elim (Bool-cases (joinflood_check key s).0) [
        | inl h ↦ simp (h) (emitted _ _ (counted key s ok))
        | inr h ↦ simp (h) (
            admitted u name overrode (joinflood_check key s).1
              (ap (get uid) (joinflood_check-users key s) ∙ found) (counted key s ok))
      ]

  answer-Leads :
      (u : User) (name : Text) (key_arg : Option Text) (r can : Bool) (depth : ℕ) (e : Entry)
      (s : Server)
      → get uid s.users ≡ some u
      → P s
      → Leads (
          answer to_lowercase byte_length catalog cfg elsewhere max_chans
            (wish uid u name key_arg r can)
            (to_lower name)
            depth
            e
            s)
  unfolding answer come_in
  answer-Leads u name key_arg r can depth (refused num text) s found ok = emitted _ s ok
  answer-Leads u name key_arg r can depth (redirected t text) s found ok = emitted _ s ok
  answer-Leads u name key_arg r can depth (let_in o) s found ok =
      checked_kept (not can && contains_key (to_lower name) s.channels) (to_lower name) name _ u o s
        found ok

  round-Leads :
      (r : Bool) (depth : ℕ) (name : Text) (key_arg : Option Text) (s : Server)
      → P s
      → Leads (
          round to_lowercase byte_length catalog cfg elsewhere max_chans r depth uid name key_arg s)
  round-Leads r depth name key_arg s ok =
      round-cases to_lowercase byte_length catalog cfg elsewhere max_chans Leads r depth uid name
        key_arg s (λ num text. emitted _ s ok) ok
        (λ u found can.
          join_as-cases to_lowercase byte_length catalog cfg elsewhere max_chans Leads
            (wish uid u name key_arg r can) depth s (λ num text. emitted _ s ok)
            (λ bc. deny-Leads name bc r depth s ok)
            (λ e o. answer-Leads u name key_arg r can depth e s found ok))

  join_within_keeps :
      (n depth : ℕ) (r : Bool) (name : Text) (key_arg : Option Text) (s : Server)
      → P s
      → P (
          join_within to_lowercase byte_length catalog cfg elsewhere max_chans n r depth uid name
            key_arg s)
  unfolding join_within
  join_within_keeps zero depth r name key_arg s ok = ok
  join_within_keeps (suc n) depth r name key_arg s ok =
      go_on-Leads _ _ (round-Leads r depth name key_arg s ok)
        (λ r' d t after kept. join_within_keeps n d r' t none after kept)

  join_keeps :
      (name : Text) (key_arg : Option Text) (s : Server)
      → P s
      → P (join to_lowercase byte_length catalog cfg elsewhere max_chans uid name key_arg s)
  unfolding join
  join_keeps name key_arg s ok = join_within_keeps 10 0 false name key_arg s ok

-- The members and lists but for those of the user that joins.
unfoldable pub SameOthers : ℕ → Server → Server → Type 0
SameOthers uid before s =
    (key : Text) (v : ℕ)
    → (uid == v) ≡ false
    → member_of key v s.channels ≡ member_of key v before.channels

counted-SameOthers :
    (uid : ℕ) (before : Server) (key : Text) (s : Server)
    → SameOthers uid before s
    → SameOthers uid before (joinflood_check key s).1
unfolding SameOthers
counted-SameOthers uid before key s same =
    joinflood_check-cases (SameOthers uid before) key s same
      (λ ch after h e k v ne. member_of-put key ch after s.channels h e k v ∙ same k v ne)

admit-SameOthers :
    (cfg : PrefixCfg) (catalog : Text → Text) (uid : ℕ) (before : Server) (u : User) (name : Text)
    (overrode : Bool) (s : Server)
    → SameOthers uid before s
    → SameOthers uid before (admit cfg catalog uid u name overrode s)
unfolding SameOthers admit
admit-SameOthers cfg catalog uid before u name overrode s same key v ne =
    let k = to_lower name in
    let ch = get_or (get k s.channels) (new name s.clock) in
    let m = newcomer (not (contains_key k s.channels)) ch.modes.delayjoin s in
    member_of-arrived key v uid k (entered uid m ch) m ch.members s.channels refl
      (member_of-new k name s.clock v s.channels)
    ∙ (ground (arith, ne, same key v ne))

module _ (to_lowercase : Text → Text) (byte_length : Text → ℕ) (catalog : Text → Text)
    (cfg : PrefixCfg) (elsewhere : ℕ → Server → ℕ → Text → Bool)
    (max_chans : Server → ℕ → Option ℕ) where
  -- JOIN makes nobody else a member of a channel, and takes nobody else out of one.
  pub join-SameOthers :
      (uid : ℕ) (name : Text) (key_arg : Option Text) (s : Server)
      → SameOthers uid s
          (join to_lowercase byte_length catalog cfg elsewhere max_chans uid name key_arg s)
  unfolding SameOthers
  join-SameOthers uid name key_arg s =
      join_keeps to_lowercase byte_length catalog cfg elsewhere max_chans (SameOthers uid s) uid
        (λ e t same. same) (counted-SameOthers uid s)
        (λ u n o t found same. admit-SameOthers cfg catalog uid s u n o t same) name key_arg s
        (λ key v ne. refl)

  pub join-IsJoined :
      (uid : ℕ) (name : Text) (key_arg : Option Text) (s : Server)
      → IsJoined s
      → IsJoined (join to_lowercase byte_length catalog cfg elsewhere max_chans uid name key_arg s)
  join-IsJoined uid name key_arg s ok =
      join_keeps to_lowercase byte_length catalog cfg elsewhere max_chans IsJoined uid emit-IsJoined
        joinflood_check-IsJoined
        (λ u n o t found kept. admit-IsJoined cfg catalog uid u n o t found kept) name key_arg s ok
