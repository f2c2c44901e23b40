-- ===== src/Membership/Locks.antt =====
-- How long a channel stays locked after a flood of joins.
use mathlib.Core.Bool.{false≢true}
use echoi_rcd.Prelude.{
  ℕ, ◌+◌, ◌%◌, ◌^◌, ◌<◌, true, false, [], ◌∷◌, ◌++◌, some, Text, codes, ltb, ◌≡◌, refl, ◌∙◌, ap,
  arith, get, modify, text_eq, text_eq_refl, nat_key, text_key, get-modify, Bool-cases, inl, inr,
}
use echoi_rcd.Channel.Record.{Channel}
use echoi_rcd.Channel.Modes.{Rate}
use echoi_rcd.Server.State.{Server, conf_num}
use echoi_rcd.Membership.Floods.{put_channel, recent, count_u32, locked_until, joinflood_check}

-- The server at a later time.
abbrev pub at : ℕ → Server → Server
at n s = record s { clock = n }

abbrev pub locked : ℕ → Channel → Channel
locked until ch = record ch { joinflood_until = until; joinflood_hits = [] }

joinflood_check-tripped :
    (key : Text) (s : Server) (ch : Channel) (f : Rate)
    → get key s.channels ≡ some ch
    → ch.modes.joinflood ≡ some f
    → ltb s.clock ch.joinflood_until ≡ false
    → (joinflood_check key s).0 ≡ true
    → (joinflood_check key s).1
      ≡ put_channel key (locked (locked_until s.clock (codes "joinflood_duration") s) ch) s
unfolding joinflood_check
joinflood_check-tripped key s ch f h e l =
    let hits = recent s.clock f.secs ch.joinflood_hits ++ s.clock ∷ [] in
    elim (Bool-cases (ltb f.count (count_u32 hits))) [
      | inl c ↦ simp (joinflood_check, h, e, l, c) (λ t. refl)
      | inr c ↦ simp (joinflood_check, h, e, l, c) (λ t. absurd (false≢true t))
    ]

joinflood_check-after :
    (key : Text) (s : Server) (ch : Channel) (f : Rate) (until n : ℕ)
    → get key s.channels ≡ some ch
    → ch.modes.joinflood ≡ some f
    → 0 < f.count
    → (joinflood_check key (at n (put_channel key (locked until ch) s))).0 ≡ ltb n until
unfolding joinflood_check get text_eq
joinflood_check-after key s ch f until n h e pos =
    let there : get key (modify key (λ old. locked until ch) s.channels) ≡ some (locked until ch) =
      rw (get-modify key key (λ old. locked until ch) s.channels, text_eq_refl key, h) refl in
    elim (Bool-cases (ltb n until)) [
      | inl l ↦ rw (joinflood_check, there, e, l) refl
      | inr l ↦ rw (joinflood_check, there, e, l) (ground (arith, pos))
    ]

-- If a join trips the limit of `+j` on a channel that was not locked, the limit is at least one,
-- and the end of the lock does not overflow, then at any time the next join of the channel is
-- refused just if the lock has not ended: a channel gets out of the lock.
pub joinflood_check-locked :
    (key : Text) (s : Server) (ch : Channel) (f : Rate)
    → get key s.channels ≡ some ch
    → ch.modes.joinflood ≡ some f
    → 0 < f.count
    → ltb s.clock ch.joinflood_until ≡ false
    → s.clock + conf_num s (codes "joinflood_duration") 60 < 2 ^ 64
    → (joinflood_check key s).0 ≡ true
    → (n : ℕ)
    → (joinflood_check key (at n (joinflood_check key s).1)).0
      ≡ ltb n (s.clock + conf_num s (codes "joinflood_duration") 60)
joinflood_check-locked key s ch f h e pos l small tripped n =
    let span = conf_num s (codes "joinflood_duration") 60 in
    rw (joinflood_check-tripped key s ch f h e l tripped) (
      joinflood_check-after key s ch f ((s.clock + span) % 2 ^ 64) n h e pos
      ∙ ap (ltb n) (ground (arith, small)))
