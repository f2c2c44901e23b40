-- ===== src/Mode/Bounds.antt =====
-- The parameters of the channel modes stay within their bounds.
use echoi_rcd.Prelude.{
  ℕ, Bool, true, false, not, ◌||◌, ◌&&◌, List, [], ◌∷◌, ◌++◌, Option, none, some, Text, leb, ltb,
  get, modify, map_option, All, ◌≡◌, refl, sym, Bool-cases, Option-cases, inl, inr, text_key,
  nat_key, ◌==◌, subst, codes, get_or, length,
}
use echoi_rcd.Channel.Prefixes.{PrefixCfg, can_depriv}
use echoi_rcd.Channel.Member.{Member, rank}
use echoi_rcd.Channel.Modes.{ChanModes}
use echoi_rcd.Channel.Record.{Channel, Ban}
use echoi_rcd.Server.State.{Server, conf_num, find_nick}
use echoi_rcd.Mode.Members.{find_member, channel_rank, reveal_member}
use echoi_rcd.Mode.Prefix.{Prefix, needed, grant, apply_to, prefix_apply}
use echoi_rcd.Mode.ListModes.{
  ListKind, list, list_mut, has_mask, without_mask, new_entry, stored_mask, list_add, list_remove,
  list_view, list_apply, autoop_barred, classban_barred,
}
use echoi_rcd.Mode.Authority.{list_view-channels}
use echoi_rcd.Mode.Dispatch.{apply_channel_mode, svs_set_chan_modes}
use echoi_rcd.Mode.Handlers.{ChanMode, chan_modes, chan_mode, mode_apply}
use echoi_rcd.Mode.Lookup.{chan_mode-All}
use echoi_rcd.Mode.Runs.{apply_channel_mode-Inv, svs_set_chan_modes-Inv}
use echoi_rcd.Mode.Limits.{InBounds, AllInBounds, remove-AllInBounds, modify-AllInBounds}
use echoi_rcd.Mode.Stored.{
  Good, limit_apply-Good, history_apply-Good, flood_apply-Good, joinflood_apply-Good,
  nickflood_apply-Good, slowmode_apply-Good, redirect_apply-Good, anticaps_apply-Good,
  kicknorejoin_apply-Good, delaymsg_apply-Good, repeat_apply-Good, key_apply-Good, flag_apply-Good,
  oper_flag_apply-Good, registered_apply-Good, encrypted_apply-Good, secure_only_apply-Good,
}

list_mut-modes :
    (kind : ListKind) (f : List Ban → List Ban) (ch : Channel)
    → (list_mut kind f ch).modes ≡ ch.modes
list_mut-modes ListKind.ban f ch = refl
list_mut-modes ListKind.except f ch = refl
list_mut-modes ListKind.invex f ch = refl
list_mut-modes ListKind.filter f ch = refl
list_mut-modes ListKind.exempt_chan_ops f ch = refl
list_mut-modes ListKind.auto_op f ch = refl

module _ (key : Text) (s : Server) (ok : AllInBounds s.channels) where
  modes_kept :
      (f : Channel → Channel)
      → ((ch : Channel) → (f ch).modes ≡ ch.modes)
      → AllInBounds (modify key f s.channels)
  modes_kept f same =
      modify-AllInBounds key f s.channels ok (λ ch b. subst InBounds (sym (same ch)) b)

  list_add-Good :
      (kind : ListKind) (chan : Text) (uid : ℕ) (mask : Text)
      → Good (list_add kind chan key uid mask s)
  unfolding list_add Good
  list_add-Good kind chan uid mask = elim (Option-cases (get key s.channels)) [
    | inl h ↦ rw (list_add, h) ok
    | inr (c, h) ↦ elim (Bool-cases (has_mask mask (list kind c))) [
      | inl e ↦ rw (list_add, h, e) ok
      | inr e ↦
          elim (Bool-cases
            (not s.mode_sudo && leb (conf_num s (codes "maxbans") 100) (length (list kind c)))) [
              | inl f ↦ rw (list_add, h, e, f) ok
              | inr f ↦
                  rw (list_add, h, e, f)
                    (modes_kept (list_mut kind (λ bs. bs ++ new_entry mask uid s ∷ []))
                      (list_mut-modes kind _))
            ]
    ]
  ]

  list_remove-Good : (kind : ListKind) (mask : Text) → Good (list_remove kind key mask s)
  unfolding list_remove Good
  list_remove-Good kind mask = elim (Option-cases (get key s.channels)) [
    | inl h ↦ rw (list_remove, h) ok
    | inr (c, h) ↦
        rw (list_remove, h) (modes_kept (list_mut kind (without_mask mask)) (list_mut-modes kind _))
  ]

module _ (cfg : PrefixCfg) (catalog : Text → Text) where
  list_apply-Good :
      (ch : ℕ) (kind : ListKind) (chan key : Text) (uid : ℕ) (adding : Bool) (param : Option Text)
      (s : Server)
      → AllInBounds s.channels
      → Good (list_apply cfg catalog ch kind chan key uid adding param s)
  unfolding list_apply list_view Good
  list_apply-Good ch kind chan key uid adding none s ok =
      subst AllInBounds (sym (list_view-channels cfg catalog kind ch chan key uid s)) ok
  list_apply-Good ch kind chan key uid adding (some mask) s ok =
      elim (Bool-cases (autoop_barred cfg catalog kind key uid adding mask s)) [
        | inl h ↦ rw (list_apply, h) ok
        | inr h ↦ elim (Bool-cases (classban_barred cfg catalog kind uid adding mask s)) [
          | inl e ↦ rw (list_apply, h, e) ok
          | inr e ↦ elim (Bool-cases adding) [
            | inl f ↦
                rw (list_apply, h, e, f)
                  (list_add-Good key s ok kind chan uid (stored_mask kind mask))
            | inr f ↦
                rw (list_apply, h, e, f) (list_remove-Good key s ok kind (stored_mask kind mask))
          ]
        ]
      ]

  reveal_member-Good :
      (uid : ℕ) (key : Text) (s : Server)
      → AllInBounds s.channels
      → AllInBounds (reveal_member cfg uid key s).channels
  unfolding reveal_member
  reveal_member-Good uid key s ok =
      elim (Bool-cases
        (get_or (map_option (λ m. m.hidden) (find_member key uid s.channels)) false)) [
          | inl h ↦ rw (reveal_member, h) (modes_kept key s ok _ (λ ch. refl))
          | inr h ↦ rw (reveal_member, h) ok
        ]

  grant-Good :
      (p : Prefix) (key : Text) (tuid : ℕ) (adding : Bool) (s : Server)
      → AllInBounds s.channels
      → AllInBounds (grant cfg p key tuid adding s).channels
  unfolding grant
  grant-Good p key tuid true s ok =
      reveal_member-Good tuid key _ (modes_kept key s ok _ (λ ch. refl))
  grant-Good p key tuid false s ok = modes_kept key s ok _ (λ ch. refl)

  apply_to-Good :
      (p : Prefix) (chan key : Text) (uid : ℕ) (adding : Bool) (pn : Text) (tuid : ℕ)
      (target : Member) (s : Server)
      → AllInBounds s.channels
      → Good (apply_to cfg p chan key uid adding pn tuid target s)
  unfolding apply_to Good
  apply_to-Good p chan key uid adding pn tuid target s ok =
      let src = channel_rank cfg uid key s in
      elim (Bool-cases (not adding && (tuid == uid && not (can_depriv cfg p.ch)))) [
        | inl h ↦ rw (apply_to, h) ok
        | inr h ↦ elim (Bool-cases (ltb src (needed cfg p adding) || ltb src (rank cfg target))) [
          | inl j ↦ rw (apply_to, h, j) ok
          | inr j ↦ rw (apply_to, h, j) (grant-Good p key tuid adding s ok)
        ]
      ]

  prefix_apply-Good :
      (p : Prefix) (chan key : Text) (uid : ℕ) (adding : Bool) (param : Option Text) (s : Server)
      → AllInBounds s.channels
      → Good (prefix_apply cfg p chan key uid adding param s)
  unfolding prefix_apply Good
  prefix_apply-Good p chan key uid adding none s ok = ok
  prefix_apply-Good p chan key uid adding (some pn) s ok = elim (Option-cases (find_nick s pn)) [
    | inl h ↦ rw (prefix_apply, h) ok
    | inr (tuid, h) ↦ elim (Option-cases (find_member key tuid s.channels)) [
      | inl e ↦ rw (prefix_apply, h, e) ok
      | inr (target, e) ↦
          rw (prefix_apply, h, e) (apply_to-Good p chan key uid adding pn tuid target s ok)
    ]
  ]

  -- The setters of the flags leave the parameters alone.
  abbrev Keeps : ChanMode → Type 0
  Keeps (ChanMode.flag ch set) = (m : ChanModes) (v : Bool) → InBounds m → InBounds (set m v)
  Keeps (ChanMode.oper_flag ch set) = (m : ChanModes) (v : Bool) → InBounds m → InBounds (set m v)
  Keeps other = Unit

  chan_modes-Keeps : All Keeps chan_modes
  unfolding chan_modes InBounds
  chan_modes-Keeps = search

  mode_apply-Good :
      (h : ChanMode) (chan key : Text) (uid : ℕ) (adding : Bool) (param : Option Text) (s : Server)
      → Keeps h
      → AllInBounds s.channels
      → Good (mode_apply cfg catalog h chan key uid adding param s)
  unfolding mode_apply
  mode_apply-Good (ChanMode.prefix_mode p) chan key uid adding param s keeps ok =
      prefix_apply-Good p chan key uid adding param s ok
  mode_apply-Good (ChanMode.flag ch set) chan key uid adding param s keeps ok =
      flag_apply-Good key s ok set adding keeps
  mode_apply-Good (ChanMode.oper_flag ch set) chan key uid adding param s keeps ok =
      oper_flag_apply-Good key s ok ch set chan uid adding keeps
  mode_apply-Good (ChanMode.list_mode ch kind) chan key uid adding param s keeps ok =
      list_apply-Good ch kind chan key uid adding param s ok
  mode_apply-Good ChanMode.registered_chan chan key uid adding param s keeps ok =
      registered_apply-Good key s ok chan uid adding
  mode_apply-Good ChanMode.encrypted chan key uid adding param s keeps ok =
      encrypted_apply-Good key s ok chan uid adding
  mode_apply-Good ChanMode.secure_only chan key uid adding param s keeps ok =
      secure_only_apply-Good key s ok chan uid adding
  mode_apply-Good ChanMode.key_mode chan key uid adding param s keeps ok =
      key_apply-Good key s ok adding param
  mode_apply-Good ChanMode.limit chan key uid adding param s keeps ok =
      limit_apply-Good key s ok adding param
  mode_apply-Good ChanMode.chan_history chan key uid adding param s keeps ok =
      history_apply-Good key s ok adding param
  mode_apply-Good ChanMode.msg_flood chan key uid adding param s keeps ok =
      flood_apply-Good key s ok adding param
  mode_apply-Good ChanMode.join_flood chan key uid adding param s keeps ok =
      joinflood_apply-Good key s ok adding param
  mode_apply-Good ChanMode.nick_flood chan key uid adding param s keeps ok =
      nickflood_apply-Good key s ok adding param
  mode_apply-Good ChanMode.slow_mode chan key uid adding param s keeps ok =
      slowmode_apply-Good key s ok adding param
  mode_apply-Good ChanMode.redirect chan key uid adding param s keeps ok =
      redirect_apply-Good key s ok chan adding param
  mode_apply-Good ChanMode.anti_caps chan key uid adding param s keeps ok =
      anticaps_apply-Good key s ok adding param
  mode_apply-Good ChanMode.kick_no_rejoin chan key uid adding param s keeps ok =
      kicknorejoin_apply-Good key s ok adding param
  mode_apply-Good ChanMode.delay_msg chan key uid adding param s keeps ok =
      delaymsg_apply-Good key s ok adding param
  mode_apply-Good ChanMode.repeat_mode chan key uid adding param s keeps ok =
      repeat_apply-Good key s ok adding param

  mode_step :
      (c : ℕ) (h : ChanMode)
      → chan_mode cfg c ≡ some h
      → (chan key : Text) (uid : ℕ) (adding : Bool) (param : Option Text) (s : Server)
      → AllInBounds s.channels
      → Good (mode_apply cfg catalog h chan key uid adding param s)
  mode_step c h e chan key uid adding param s ok =
      mode_apply-Good h chan key uid adding param s
        (chan_mode-All Keeps (λ ch r. tt) cfg c h chan_modes-Keeps e) ok

  -- If the parameters of the modes of all channels are within their bounds, they are so after
  -- MODE for a channel, whoever sends it and whatever it asks.
  pub apply_channel_mode-AllInBounds :
      (target : Text) (uid : ℕ) (params : List Text) (s : Server)
      → AllInBounds s.channels
      → AllInBounds (apply_channel_mode cfg catalog target uid params s).1.channels
  unfolding AllInBounds Good
  apply_channel_mode-AllInBounds =
      apply_channel_mode-Inv cfg catalog AllInBounds mode_step remove-AllInBounds

  pub svs_set_chan_modes-AllInBounds :
      (target modestring : Text) (args : List Text) (s : Server)
      → AllInBounds s.channels
      → AllInBounds (svs_set_chan_modes cfg catalog target modestring args s).1.channels
  unfolding AllInBounds Good
  svs_set_chan_modes-AllInBounds =
      svs_set_chan_modes-Inv cfg catalog AllInBounds mode_step remove-AllInBounds
