-- ===== src/Entry/Rounds.antt =====
-- The redirects of `join` come to an end.
use echoi_rcd.Prelude.{
  ℕ, zero, suc, ◌+◌, ◌-◌, ◌<◌, Bool, true, false, not, ◌&&◌, Option, none, some, Text, codes,
  if◌then◌else◌, ltb, leb, length, eq_ignore_case, to_lower, get, get_or, map_option, contains,
  text_key, nat_key, ◌≡◌, refl, ◌∙◌, ap, arith, Option-cases, Bool-cases, inl, inr,
}
use echoi_rcd.Channel.Prefixes.{PrefixCfg}
use echoi_rcd.Channel.Masks.{valid_chan}
use echoi_rcd.Server.Users.{User}
use echoi_rcd.Server.State.{Server, conf_num, has_priv}
use echoi_rcd.XLine.Match.{matched_cban}
use echoi_rcd.Entry.Doors.{BadChan, denied_by, restricted, badly_named}
use echoi_rcd.Entry.Denied.{Entry, Wish, refused, redirected, let_in}
use echoi_rcd.Entry.Join.{
  Turn, refuse, stops, goes_on, max_redir, deny, answer, join_as, wish, round, go_on, join_within,
  join,
}
use echoi_rcd.Entry.Asked.{once, entry-once}

-- How many redirects are left.
abbrev pub left : Bool → ℕ → ℕ
left in_redirect depth = (if in_redirect then 0 else 1) + (max_redir - depth)

-- A round that goes on has fewer redirects left.
abbrev Lowers : ℕ → Turn → Type 0
Lowers n (stops s) = Unit
Lowers n (goes_on r d t s) = left r d < n

deny-Lowers :
    (uid : ℕ) (name : Text) (bc : BadChan) (r : Bool) (depth : ℕ) (s : Server)
    → Lowers (left r depth) (deny uid name bc r depth s)
unfolding deny
deny-Lowers uid name bc r depth s = elim (Option-cases bc.redirect) [
  | inl h ↦ simp (deny, h) tt
  | inr (t, h) ↦ elim (Bool-cases (not (eq_ignore_case t name) && ltb depth max_redir)) [
    | inl c ↦ simp (deny, h, c) (ground (arith, c))
    | inr c ↦ simp (deny, h, c) tt
  ]
]

suc_first : (n k : ℕ) → suc n + k ≡ suc (n + k)
suc_first n k = omega arith

go_on-same :
    (m : ℕ) (next : Turn) (f g : Bool → ℕ → Text → Server → Server)
    → Lowers m next
    → ((r : Bool) (d : ℕ) (t : Text) (s : Server) → left r d < m → f r d t s ≡ g r d t s)
    → go_on next f ≡ go_on next g
go_on-same m (stops s) f g l same = refl
go_on-same m (goes_on r d t s) f g l same = same r d t s l

module _ (to_lowercase : Text → Text) (byte_length : Text → ℕ) (catalog : Text → Text)
    (cfg : PrefixCfg) (elsewhere : ℕ → Server → ℕ → Text → Bool)
    (max_chans : Server → ℕ → Option ℕ) where
  -- A round refuses, is denied by a line of `badchan`, or comes to the doors of the channel.
  pub join_as-cases :
      (P : Turn → Type 0) (w : Wish) (depth : ℕ) (s : Server)
      → ((num : ℕ) (text : Text) → P (refuse w.uid num text s))
      → ((bc : BadChan) → P (deny w.uid w.name bc w.in_redirect depth s))
      → ((e : Entry)
          → once w e ≡ true
          → P (
              answer to_lowercase byte_length catalog cfg elsewhere max_chans w
                (to_lower w.name)
                depth
                e
                s))
      → P (join_as to_lowercase byte_length catalog cfg elsewhere max_chans w depth s)
  unfolding join_as
  join_as-cases P w depth s turned denied doors =
      elim (Bool-cases (
        not w.can_override
        && get_or (map_option (λ most. leb most (length w.user.channels)) (max_chans s w.uid))
            false)) [
              | inl h ↦ simp (join_as, h) (turned _ _)
              | inr h ↦
                  elim (Option-cases (
                    if w.can_override
                    then none
                    else matched_cban to_lowercase s (to_lower w.name))) [
                      | inr (reason, c) ↦ simp (join_as, h, c) (turned _ _)
                      | inl c ↦ elim (Option-cases (denied_by to_lowercase s w.name w.by_oper)) [
                        | inr (bc, d) ↦ simp (join_as, h, c, d) (denied bc)
                        | inl d ↦
                            elim (Bool-cases (
                              restricted to_lowercase s w.name
                                (has_priv s w.uid (codes "channels/restricted-create")))) [
                                  | inl r ↦ simp (join_as, h, c, d, r) (turned _ _)
                                  | inr r ↦ elim (Bool-cases (badly_named s w.name)) [
                                    | inl b ↦ simp (join_as, h, c, d, r, b) (turned _ _)
                                    | inr b ↦
                                        elim (Option-cases (get (to_lower w.name) s.channels)) [
                                          | inl g ↦
                                              simp (join_as, h, c, d, r, b, g)
                                                (doors (let_in false) refl)
                                          | inr (ch, g) ↦
                                              simp (join_as, h, c, d, r, b, g)
                                                (doors _ (
                                                  entry-once to_lowercase cfg elsewhere w
                                                    (to_lower w.name) ch s))
                                        ]
                                  ]
                                ]
                      ]
                    ]
            ]

  pub round-cases :
      (P : Turn → Type 0) (r : Bool) (depth uid : ℕ) (name : Text) (key_arg : Option Text)
      (s : Server)
      → ((num : ℕ) (text : Text) → P (refuse uid num text s))
      → P (stops s)
      → ((u : User)
          → get uid s.users ≡ some u
          → (can_override : Bool)
          → P (
              join_as to_lowercase byte_length catalog cfg elsewhere max_chans
                (wish uid u name key_arg r can_override)
                depth
                s))
      → P (
          round to_lowercase byte_length catalog cfg elsewhere max_chans r depth uid name key_arg s)
  unfolding round
  round-cases P r depth uid name key_arg s turned same enters =
      elim (Bool-cases (not (valid_chan byte_length name (conf_num s (codes "maxchannel") 50)))) [
        | inl h ↦ simp (round, h) (turned _ _)
        | inr h ↦ elim (Option-cases (get uid s.users)) [
          | inl e ↦ simp (round, h, e) same
          | inr (u, e) ↦ elim (Bool-cases (contains (to_lower name) u.channels)) [
            | inl c ↦ simp (round, h, e, c) same
            | inr c ↦ simp (round, h, e, c) (enters u e _)
          ]
        ]
      ]

  answer-Lowers :
      (w : Wish) (key : Text) (depth : ℕ) (e : Entry) (s : Server)
      → once w e ≡ true
      → Lowers
          (left w.in_redirect depth)
          (answer to_lowercase byte_length catalog cfg elsewhere max_chans w key depth e s)
  unfolding answer
  answer-Lowers w key depth (refused num text) s h = tt
  answer-Lowers w key depth (redirected t text) s h = ground (arith, h)
  answer-Lowers w key depth (let_in o) s h = tt

  round-Lowers :
      (r : Bool) (depth uid : ℕ) (name : Text) (key_arg : Option Text) (s : Server)
      → Lowers (left r depth) (
          round to_lowercase byte_length catalog cfg elsewhere max_chans r depth uid name key_arg s)
  round-Lowers r depth uid name key_arg s =
      round-cases (Lowers (left r depth)) r depth uid name key_arg s (λ num text. tt) tt
        (λ u found can.
          join_as-cases (Lowers (left r depth)) _ depth s (λ num text. tt)
            (λ bc. deny-Lowers uid name bc r depth s)
            (λ e o. answer-Lowers _ (to_lower name) depth e s o))

  settled :
      (n k depth uid : ℕ) (r : Bool) (name : Text) (key_arg : Option Text) (s : Server)
      → left r depth < n
      → join_within to_lowercase byte_length catalog cfg elsewhere max_chans
          (n + k)
          r
          depth
          uid
          name
          key_arg
          s
        ≡ join_within to_lowercase byte_length catalog cfg elsewhere max_chans n r depth uid name
            key_arg s
  unfolding join_within
  settled zero k depth uid r name key_arg s h = absurd (omega (arith, h))
  settled (suc n) k depth uid r name key_arg s h =
      ap
        (λ m.
          join_within to_lowercase byte_length catalog cfg elsewhere max_chans m r depth uid name
            key_arg s)
        (suc_first n k)
      ∙ go_on-same (left r depth)
          (round to_lowercase byte_length catalog cfg elsewhere max_chans r depth uid name key_arg
            s)
          _ _ (round-Lowers r depth uid name key_arg s)
          (λ r' d t after l. settled n k d uid r' t none after (omega (arith, l, h)))

  -- The ten rounds of `join` are enough: with more of them it does the same.
  pub join-settled :
      (k uid : ℕ) (name : Text) (key_arg : Option Text) (s : Server)
      → join_within to_lowercase byte_length catalog cfg elsewhere max_chans
          (10 + k)
          false
          0
          uid
          name
          key_arg
          s
        ≡ join to_lowercase byte_length catalog cfg elsewhere max_chans uid name key_arg s
  unfolding join
  join-settled k uid name key_arg s = settled 10 k 0 uid false name key_arg s (omega arith)
