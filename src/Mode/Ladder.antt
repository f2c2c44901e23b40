-- ===== src/Mode/Ladder.antt =====
-- The ladder of ranks: what a change of a prefix asks for, and what it cannot do.
use echoi_rcd.Prelude.{
  ℕ, ◌≤◌, max, Bool, true, false, not, ◌||◌, ◌&&◌, List, Option, none, some, Text, ◌==◌, ==_iff,
  ltb, ◌≡◌, refl, sym, ap₂, and_left, and_right, ◌∙◌, arith, get_or, map_option, text_eq,
  text_eq_iff, Option-cases, Bool-cases, inl, inr, nat_key, text_key,
}
use echoi_rcd.Channel.Prefixes.{PrefixCfg, can_depriv}
use echoi_rcd.Channel.Member.{Member, rank, builtin_rank, set_prefix}
use echoi_rcd.Channel.Member.Grants.{IsByte, prefix_rank, rank-set_prefix, rank-set_prefix-le}
use echoi_rcd.Channel.Record.{Channel}
use echoi_rcd.Server.State.{Server, find_nick}
use echoi_rcd.Mode.Members.{
  find_member, modify_member, channel_rank, reveal_member, find_member-modify_member,
}
use echoi_rcd.Mode.Prefix.{Prefix, Applied, needed, grant, apply_to, prefix_apply}

member_same :
    (key k : Text) (uid v : ℕ) (chs : List (Text × Channel))
    → (text_eq key k && (uid == v)) ≡ true
    → find_member k v chs ≡ find_member key uid chs
member_same key k uid v chs h =
    let keys = (text_eq_iff key k).0 (and_left _ _ h) in
    let uids = (==_iff uid v).0 (and_right _ _ h) in
    ap₂ (λ a b. find_member a b chs) (sym keys) (sym uids)

module _ (cfg : PrefixCfg) where
  -- The rank of a member of a channel; 0 if it is none.
  abbrev pub rank_in : Text → ℕ → List (Text × Channel) → ℕ
  rank_in key uid chs = elim (find_member key uid chs) [ none ↦ 0 | some m ↦ rank cfg m ]

  rank_in-keep :
      (k key : Text) (v uid : ℕ) (f : Member → Member) (chs : List (Text × Channel))
      → ((m : Member) → rank cfg (f m) ≡ rank cfg m)
      → rank_in k v (modify_member key uid f chs) ≡ rank_in k v chs
  rank_in-keep k key v uid f chs same = elim (Option-cases (find_member k v chs)) [
    | inl h ↦ rw (rank_in, find_member-modify_member key k uid v f chs) (ground (arith, h))
    | inr (m, h) ↦
        rw (rank_in, find_member-modify_member key k uid v f chs) (ground (arith, h, same m))
  ]

  rank-hidden : (m : Member) → rank cfg (record m { hidden = false }) ≡ rank cfg m
  unfolding rank builtin_rank
  rank-hidden m = refl

  rank_in-reveal_member :
      (k : Text) (v uid : ℕ) (key : Text) (s : Server)
      → rank_in k v (reveal_member cfg uid key s).channels ≡ rank_in k v s.channels
  unfolding reveal_member
  rank_in-reveal_member k v uid key s =
      elim (Bool-cases
        (get_or (map_option (λ m. m.hidden) (find_member key uid s.channels)) false)) [
          | inl h ↦
              rw (reveal_member, h)
                (rank_in-keep k key v uid (λ m. record m { hidden = false }) s.channels rank-hidden)
          | inr h ↦ rw (reveal_member, h) refl
        ]

  set_prefix-bound :
      (p : Prefix) (adding : Bool) (target : Member) (src : ℕ)
      → IsByte target
      → prefix_rank cfg p.ch ≡ some p.rank
      → (adding ≡ true → p.rank ≤ src)
      → rank cfg (set_prefix cfg target p.ch adding) ≤ max (rank cfg target) src
  set_prefix-bound p true target src byte e le =
      omega (arith, rank-set_prefix cfg target p.ch byte e, le refl)
  set_prefix-bound p false target src byte e le =
      omega (arith, rank-set_prefix-le cfg target p.ch byte)

  rank_in-changed :
      (k key : Text) (v tuid : ℕ) (f : Member → Member) (chs : List (Text × Channel))
      (target : Member) (src : ℕ)
      → find_member key tuid chs ≡ some target
      → rank cfg (f target) ≤ max (rank cfg target) src
      → rank_in k v (modify_member key tuid f chs) ≤ max (rank_in k v chs) src
  rank_in-changed k key v tuid f chs target src e bound =
      elim (Bool-cases (text_eq key k && (tuid == v))) [
        | inl h ↦
            let here : find_member k v chs ≡ some target = member_same key k tuid v chs h ∙ e in
            rw (rank_in, find_member-modify_member key k tuid v f chs, h, here) bound
        | inr h ↦ rw (rank_in, find_member-modify_member key k tuid v f chs, h) (omega arith)
      ]

  rank_in-grant :
      (p : Prefix) (key : Text) (tuid : ℕ) (adding : Bool) (s : Server) (target : Member) (src : ℕ)
      (k : Text) (v : ℕ)
      → find_member key tuid s.channels ≡ some target
      → IsByte target
      → prefix_rank cfg p.ch ≡ some p.rank
      → (adding ≡ true → p.rank ≤ src)
      → rank_in k v (grant cfg p key tuid adding s).channels ≤ max (rank_in k v s.channels) src
  unfolding grant
  rank_in-grant p key tuid true s target src k v e byte pr le =
      rw (rank_in-reveal_member k v tuid key) (
        rank_in-changed k key v tuid (λ m. set_prefix cfg m p.ch true) s.channels target src e
          (set_prefix-bound p true target src byte pr le))
  rank_in-grant p key tuid false s target src k v e byte pr le =
      rank_in-changed k key v tuid (λ m. set_prefix cfg m p.ch false) s.channels target src e
        (set_prefix-bound p false target src byte pr le)

  high_enough :
      (p : Prefix) (adding : Bool) (src : ℕ) (below : Bool)
      → (ltb src (needed cfg p adding) || below) ≡ false
      → p.rank ≤ needed cfg p true
      → adding ≡ true
      → p.rank ≤ src
  high_enough p true src below h le e = ground arith
  high_enough p false src below h le e = cc

  rank_in-apply_to :
      (p : Prefix) (chan key : Text) (uid : ℕ) (adding : Bool) (pn : Text) (tuid : ℕ)
      (target : Member) (s : Server) (k : Text) (v : ℕ)
      → find_member key tuid s.channels ≡ some target
      → IsByte target
      → prefix_rank cfg p.ch ≡ some p.rank
      → p.rank ≤ needed cfg p true
      → rank_in k v (apply_to cfg p chan key uid adding pn tuid target s).1.channels
        ≤ max (rank_in k v s.channels) (channel_rank cfg uid key s)
  unfolding apply_to
  rank_in-apply_to p chan key uid adding pn tuid target s k v e byte pr le =
      let src = channel_rank cfg uid key s in
      elim (Bool-cases (not adding && (tuid == uid && not (can_depriv cfg p.ch)))) [
        | inl h ↦ rw (apply_to, h) (omega arith)
        | inr h ↦ elim (Bool-cases (ltb src (needed cfg p adding) || ltb src (rank cfg target))) [
          | inl j ↦ rw (apply_to, h, j) (omega arith)
          | inr j ↦
              rw (apply_to, h, j)
                (rank_in-grant p key tuid adding s target src k v e byte pr
                  (high_enough p adding src _ j le))
        ]
      ]

  -- Whoever sets or takes a prefix: no member ends with a rank above both the one it had and that
  -- of the actor, if the prefixes of the members of the channel are bytes, and if the
  -- configuration asks at least the rank of the prefix for setting it.
  pub rank_in-prefix_apply :
      (p : Prefix) (chan key : Text) (uid : ℕ) (adding : Bool) (param : Option Text) (s : Server)
      → ((uid' : ℕ) (m : Member) → find_member key uid' s.channels ≡ some m → IsByte m)
      → prefix_rank cfg p.ch ≡ some p.rank
      → p.rank ≤ needed cfg p true
      → (k : Text) (v : ℕ)
      → rank_in k v (prefix_apply cfg p chan key uid adding param s).1.channels
        ≤ max (rank_in k v s.channels) (channel_rank cfg uid key s)
  unfolding prefix_apply
  rank_in-prefix_apply p chan key uid adding none s byte pr le k v = omega arith
  rank_in-prefix_apply p chan key uid adding (some pn) s byte pr le k v =
      elim (Option-cases (find_nick s pn)) [
        | inl h ↦ rw (prefix_apply, h) (omega arith)
        | inr (tuid, h) ↦ elim (Option-cases (find_member key tuid s.channels)) [
          | inl e ↦ rw (prefix_apply, h, e) (omega arith)
          | inr (target, e) ↦
              rw (prefix_apply, h, e)
                (rank_in-apply_to p chan key uid adding pn tuid target s k v e (byte tuid target e)
                  pr le)
        ]
      ]

  both_le : (src a b : ℕ) → (ltb src a || ltb src b) ≡ false → (a ≤ src) × (b ≤ src)
  both_le src a b h = ground arith

  apply_to-applied :
      (p : Prefix) (chan key : Text) (uid : ℕ) (adding : Bool) (pn : Text) (tuid : ℕ)
      (target : Member) (s : Server) (shown : Option Text)
      → (apply_to cfg p chan key uid adding pn tuid target s).0 ≡ Applied.applied shown
      → (needed cfg p adding ≤ channel_rank cfg uid key s)
        × (rank cfg target ≤ channel_rank cfg uid key s)
  unfolding apply_to
  apply_to-applied p chan key uid adding pn tuid target s shown =
      let src = channel_rank cfg uid key s in
      elim (Bool-cases (not adding && (tuid == uid && not (can_depriv cfg p.ch)))) [
        | inl h ↦ rw (apply_to, h) (λ done. cc)
        | inr h ↦ elim (Bool-cases (ltb src (needed cfg p adding) || ltb src (rank cfg target))) [
          | inl j ↦ rw (apply_to, h, j) (λ done. cc)
          | inr j ↦ λ done. both_le src (needed cfg p adding) (rank cfg target) j
        ]
      ]

  -- A change of a prefix is made only if its target is on the channel and the actor has both the
  -- rank that the prefix asks for and at least the rank of the target.
  pub prefix_apply-applied :
      (p : Prefix) (chan key : Text) (uid : ℕ) (adding : Bool) (pn : Text) (s : Server)
      (shown : Option Text)
      → (prefix_apply cfg p chan key uid adding (some pn) s).0 ≡ Applied.applied shown
      → (tuid : ℕ) × (target : Member) × (find_nick s pn ≡ some tuid)
        × (find_member key tuid s.channels ≡ some target)
        × (needed cfg p adding ≤ channel_rank cfg uid key s)
        × (rank cfg target ≤ channel_rank cfg uid key s)
  unfolding prefix_apply
  prefix_apply-applied p chan key uid adding pn s shown = elim (Option-cases (find_nick s pn)) [
    | inl h ↦ rw (prefix_apply, h) (λ done. cc)
    | inr (tuid, h) ↦ elim (Option-cases (find_member key tuid s.channels)) [
      | inl e ↦ rw (prefix_apply, h, e) (λ done. cc)
      | inr (target, e) ↦
          rw (prefix_apply, h, e)
            (λ done.
              let ok = apply_to-applied p chan key uid adding pn tuid target s shown done in
              (tuid, target, refl, e, ok.0, ok.1))
    ]
  ]
