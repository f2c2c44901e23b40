-- ===== src/Command/Ranked.antt =====
-- Whom REMOVE takes out of a channel.
use mathlib.Core.Bool.{false≢true}
use echoi_rcd.Prelude.{
  ℕ, ◌≤◌, true, false, not, ◌&&◌, Option, some, Text, if◌then◌else◌, ltb, ◌==◌, ==_iff, ◌≡◌, sym,
  ◌∙◌, ap, arith, to_lower, get, contains_key, text_eq, text_eq_iff, text_key, nat_key,
  Option-cases, Bool-cases, inl, inr, subst,
}
use echoi_rcd.Channel.Prefixes.{PrefixCfg}
use echoi_rcd.Channel.Member.{rank_halfop}
use echoi_rcd.Server.Users.{User}
use echoi_rcd.Server.State.{Server, find_nick, is_member}
use echoi_rcd.Server.Left.{member_of}
use echoi_rcd.Mode.Members.{channel_rank}
use echoi_rcd.Mode.Dispatch.{CmdResult}
use echoi_rcd.Membership.Joined.{member_of-drop_member}
use echoi_rcd.Command.{handle_remove, remove_now, fails, removed}

module _ (cfg : PrefixCfg) (uid : ℕ) (chan victim : Text) (reason : Option Text) (s : Server) where
  pub handle_remove-cases :
      (P : CmdResult × Server → Type 0)
      → ((num : ℕ) (text : Text) → P (fails uid num text s))
      → P (CmdResult.panicked, s)
      → ((tuid : ℕ) (by target : User)
          → find_nick s victim ≡ some tuid
          → ltb (channel_rank cfg uid (to_lower chan) s) rank_halfop ≡ false
          → ltb (channel_rank cfg uid (to_lower chan) s) (channel_rank cfg tuid (to_lower chan) s)
            ≡ false
          → P (CmdResult.ok, removed cfg tuid by target chan (to_lower chan) reason s))
      → P (handle_remove cfg uid chan victim reason s)
  unfolding handle_remove
  handle_remove-cases P failed panics done =
      elim (Bool-cases (not (contains_key (to_lower chan) s.channels))) [
        | inl c ↦ simp (handle_remove, c) (failed _ _)
        | inr c ↦ elim (Bool-cases (ltb (channel_rank cfg uid (to_lower chan) s) rank_halfop)) [
          | inl r ↦ simp (handle_remove, c, r) (failed _ _)
          | inr r ↦ elim (Option-cases (find_nick s victim)) [
            | inl f ↦ simp (handle_remove, c, r, f) (failed _ _)
            | inr (tuid, f) ↦ elim (Bool-cases (not (is_member s tuid (to_lower chan)))) [
              | inl m ↦ simp (handle_remove, c, r, f, m) (failed _ _)
              | inr m ↦
                  elim (Bool-cases (
                    ltb (channel_rank cfg uid (to_lower chan) s)
                      (channel_rank cfg tuid (to_lower chan) s))) [
                        | inl l ↦ simp (handle_remove, c, r, f, m, l) (failed _ _)
                        | inr l ↦ elim (Option-cases (get uid s.users)) [
                          | inl u ↦ simp (handle_remove, remove_now, c, r, f, m, l, u) panics
                          | inr (by, u) ↦ elim (Option-cases (get tuid s.users)) [
                            | inl t ↦ simp (handle_remove, remove_now, c, r, f, m, l, u, t) panics
                            | inr (target, t) ↦
                                simp (handle_remove, remove_now, c, r, f, m, l, u, t)
                                  (done tuid by target f r l)
                          ]
                        ]
                      ]
            ]
          ]
        ]
      ]

  taken_out :
      (key : Text) (v tuid : ℕ)
      → find_nick s victim ≡ some tuid
      → ltb (channel_rank cfg uid (to_lower chan) s) rank_halfop ≡ false
      → ltb (channel_rank cfg uid (to_lower chan) s) (channel_rank cfg tuid (to_lower chan) s)
        ≡ false
      → (if text_eq (to_lower chan) key && tuid == v then false else member_of key v s.channels)
        ≡ false
      → member_of key v s.channels ≡ true
      → (to_lower chan ≡ key)
        × ((find_nick s victim ≡ some v)
            × ((rank_halfop ≤ channel_rank cfg uid key s)
                × (channel_rank cfg v key s ≤ channel_rank cfg uid key s)))
  taken_out key v tuid f r l gone was = elim (Bool-cases (text_eq (to_lower chan) key)) [
    | inr e ↦ absurd (false≢true (sym (rw (e) at gone) ∙ was))
    | inl e ↦ elim (Bool-cases (tuid == v)) [
      | inr n ↦ absurd (false≢true (sym (rw (e, n) at gone) ∙ was))
      | inl n ↦
          let same : to_lower chan ≡ key = (text_eq_iff (to_lower chan) key).0 e in
          let them : tuid ≡ v = (==_iff tuid v).0 n in
          (
            same,
            (
              f ∙ ap some them,
              (
                subst (λ k. rank_halfop ≤ channel_rank cfg uid k s) same (ground (arith, r)),
                subst (λ k. channel_rank cfg v k s ≤ channel_rank cfg uid k s) same
                    (subst
                      (λ w.
                        channel_rank cfg w (to_lower chan) s
                        ≤ channel_rank cfg uid (to_lower chan) s)
                      them (ground (arith, l))),
              ),
            ),
          )
    ]
  ]

  -- Who is no longer a member after REMOVE was one of the channel that was named, had the nick
  -- that was named, and had no higher rank there than the sender, which is a half-op at least.
  pub handle_remove-ranked :
      (key : Text) (v : ℕ)
      → member_of key v s.channels ≡ true
      → member_of key v (handle_remove cfg uid chan victim reason s).1.channels ≡ false
      → (to_lower chan ≡ key)
        × ((find_nick s victim ≡ some v)
            × ((rank_halfop ≤ channel_rank cfg uid key s)
                × (channel_rank cfg v key s ≤ channel_rank cfg uid key s)))
  handle_remove-ranked key v was =
      handle_remove-cases
        (λ t.
          member_of key v t.1.channels ≡ false
          → (to_lower chan ≡ key)
            × ((find_nick s victim ≡ some v)
                × ((rank_halfop ≤ channel_rank cfg uid key s)
                    × (channel_rank cfg v key s ≤ channel_rank cfg uid key s))))
        (λ num text gone. absurd (false≢true (sym gone ∙ was)))
        (λ gone. absurd (false≢true (sym gone ∙ was)))
        (λ tuid by target f r l gone.
          taken_out key v tuid f r l
            (sym (member_of-drop_member key v tuid (to_lower chan) _) ∙ gone) was)
