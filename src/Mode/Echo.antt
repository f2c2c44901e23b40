-- ===== src/Mode/Echo.antt =====
-- The parameter that a change shows, which is what the links are told, makes the same change.
use mathlib.Core.Option.{some-injective}
use echoi_rcd.Prelude.{
  ℕ, Bool, true, false, not, ◌||◌, ◌&&◌, [], ◌∷◌, some, Text, codes, get, ltb, leb, length, is_some,
  strip_prefix, starts_with_char, eq_ignore_case, ◌≡◌, ◌≢◌, refl, sym, ◌∙◌, ap, subst, arith,
  Bool-cases, Option-cases, inl, inr, ◌==◌, text_key, nat_key,
}
use echoi_rcd.Channel.Prefixes.{PrefixCfg, can_depriv}
use echoi_rcd.Channel.Masks.{normalize_ban_mask, normalize_mask, normalize_ban_mask_twice}
use echoi_rcd.Server.State.{Server, conf_num, find_nick}
use echoi_rcd.Channel.Member.{Member, rank}
use echoi_rcd.Mode.Members.{find_member, channel_rank}
use echoi_rcd.Mode.Handlers.{ChanMode, mode_apply}
use echoi_rcd.Mode.Prefix.{Applied, Prefix, needed, apply_to, prefix_apply}
use echoi_rcd.Mode.ListModes.{
  ListKind, stored_mask, autoop_barred, classban_barred, list_add, list_remove, list_apply, list,
  has_mask, without_mask,
}
use echoi_rcd.Mode.Params
-- What is shown of a value is read back as that value, and shown alike.
use echoi_rcd.Mode.Reread.{
  Reads, parse_limit-Reads, positive-Reads, parse_percent-Reads, parse_rate-Reads, parse_slow-Reads,
  parse_history-Reads, shown_text, param_apply-Reads,
}

abbrev is_class : Text → Bool
is_class m = is_some (strip_prefix (codes "C:") m)

is_class-normalize_ban_mask : (m : Text) → is_class (normalize_ban_mask m) ≡ is_class m
unfolding normalize_ban_mask normalize_mask
is_class-normalize_ban_mask (k ∷ d ∷ value) = ground arith
is_class-normalize_ban_mask (k ∷ []) = ground arith
is_class-normalize_ban_mask [] = ground arith

stored_mask_twice :
    (kind : ListKind) (m : Text) → stored_mask kind (stored_mask kind m) ≡ stored_mask kind m
stored_mask_twice ListKind.ban m = normalize_ban_mask_twice m
stored_mask_twice ListKind.except m = normalize_ban_mask_twice m
stored_mask_twice ListKind.invex m = normalize_ban_mask_twice m
stored_mask_twice ListKind.filter m = refl
stored_mask_twice ListKind.exempt_chan_ops m = refl
stored_mask_twice ListKind.auto_op m = refl

applied-ne-rejected : (q : Text) → Applied.applied (some q) ≢ Applied.rejected
applied-ne-rejected q e = cc

parse_redirect-Reads : (chan : Text) → Reads (Params.parse_redirect chan) (λ p t. t)
unfolding Reads Params.parse_redirect
parse_redirect-Reads chan p v =
    elim (Bool-cases (not (starts_with_char b'#' p) || eq_ignore_case p chan)) [
      | inl h ↦ rw (h) (λ e. cc)
      | inr h ↦ rw (h) (λ e.
          subst (λ t. (Params.parse_redirect chan t ≡ some t) × (t ≡ t)) (some-injective p v e)
            (rw (Params.parse_redirect, h) refl, refl))
    ]

module _ (cfg : PrefixCfg) (catalog : Text → Text) where
  autoop_barred-stored_mask :
      (kind : ListKind) (key : Text) (uid : ℕ) (adding : Bool) (m : Text) (s : Server)
      → autoop_barred cfg catalog kind key uid adding (stored_mask kind m) s
        ≡ autoop_barred cfg catalog kind key uid adding m s
  autoop_barred-stored_mask ListKind.ban key uid adding m s = ground arith
  autoop_barred-stored_mask ListKind.except key uid adding m s = ground arith
  autoop_barred-stored_mask ListKind.invex key uid adding m s = ground arith
  autoop_barred-stored_mask ListKind.filter key uid adding m s = refl
  autoop_barred-stored_mask ListKind.exempt_chan_ops key uid adding m s = refl
  autoop_barred-stored_mask ListKind.auto_op key uid adding m s = refl

  classban_barred-stored_mask :
      (kind : ListKind) (uid : ℕ) (adding : Bool) (m : Text) (s : Server)
      → classban_barred cfg catalog kind uid adding (stored_mask kind m) s
        ≡ classban_barred cfg catalog kind uid adding m s
  classban_barred-stored_mask ListKind.ban uid adding m s = rw (is_class-normalize_ban_mask m) refl
  classban_barred-stored_mask ListKind.except uid adding m s = ground arith
  classban_barred-stored_mask ListKind.invex uid adding m s = ground arith
  classban_barred-stored_mask ListKind.filter uid adding m s = refl
  classban_barred-stored_mask ListKind.exempt_chan_ops uid adding m s = refl
  classban_barred-stored_mask ListKind.auto_op uid adding m s = refl

  list_apply-stored_mask :
      (ch : ℕ) (kind : ListKind) (chan key : Text) (uid : ℕ) (adding : Bool) (m : Text) (s : Server)
      → (list_apply cfg catalog ch kind chan key uid adding (some m) s).0 ≢ Applied.rejected
      → list_apply cfg catalog ch kind chan key uid adding (some (stored_mask kind m)) s
        ≡ list_apply cfg catalog ch kind chan key uid adding (some m) s
  unfolding list_apply
  list_apply-stored_mask ch kind chan key uid adding m s =
      elim (Bool-cases (autoop_barred cfg catalog kind key uid adding m s)) [
        | inl h ↦
            rw (list_apply, autoop_barred-stored_mask kind key uid adding m s, h)
              (λ no_way. absurd (no_way refl))
        | inr h ↦ elim (Bool-cases (classban_barred cfg catalog kind uid adding m s)) [
          | inl e ↦
              rw
                (
                  list_apply,
                  autoop_barred-stored_mask kind key uid adding m s,
                  h,
                  classban_barred-stored_mask kind uid adding m s,
                  e,
                )
                (λ no_way. absurd (no_way refl))
          | inr e ↦
              rw
                (
                  list_apply,
                  autoop_barred-stored_mask kind key uid adding m s,
                  h,
                  classban_barred-stored_mask kind uid adding m s,
                  e,
                  stored_mask_twice kind m,
                )
                (λ fine. refl)
        ]
      ]

  list_add-shown :
      (kind : ListKind) (chan key : Text) (uid : ℕ) (m q : Text) (s : Server)
      → (list_add kind chan key uid m s).0 ≡ Applied.applied (some q)
      → m ≡ q
  unfolding list_add shown_text
  list_add-shown kind chan key uid m q s = elim (Option-cases (get key s.channels)) [
    | inl h ↦ rw (list_add, h) (ap shown_text)
    | inr (c, h) ↦ elim (Bool-cases (has_mask m (list kind c))) [
      | inl e ↦ rw (list_add, h, e) (λ done. cc)
      | inr e ↦
          elim (Bool-cases
            (not s.mode_sudo && leb (conf_num s (codes "maxbans") 100) (length (list kind c)))) [
              | inl f ↦ rw (list_add, h, e, f) (λ done. cc)
              | inr f ↦ rw (list_add, h, e, f) (ap shown_text)
            ]
    ]
  ]

  list_remove-shown :
      (kind : ListKind) (key m q : Text) (s : Server)
      → (list_remove kind key m s).0 ≡ Applied.applied (some q)
      → m ≡ q
  unfolding list_remove shown_text
  list_remove-shown kind key m q s = elim (Option-cases (get key s.channels)) [
    | inl h ↦ rw (list_remove, h) (λ done. cc)
    | inr (c, h) ↦
        elim (Bool-cases (ltb (length (without_mask m (list kind c))) (length (list kind c)))) [
          | inl e ↦ rw (list_remove, h, e) (ap shown_text)
          | inr e ↦ rw (list_remove, h, e) (λ done. cc)
        ]
  ]

  list_apply-shown :
      (ch : ℕ) (kind : ListKind) (chan key : Text) (uid : ℕ) (adding : Bool) (m q : Text)
      (s : Server)
      → (list_apply cfg catalog ch kind chan key uid adding (some m) s).0 ≡ Applied.applied (some q)
      → stored_mask kind m ≡ q
  unfolding list_apply
  list_apply-shown ch kind chan key uid adding m q s =
      elim (Bool-cases (autoop_barred cfg catalog kind key uid adding m s)) [
        | inl h ↦ rw (list_apply, h) (λ done. cc)
        | inr h ↦ elim (Bool-cases (classban_barred cfg catalog kind uid adding m s)) [
          | inl e ↦ rw (list_apply, h, e) (λ done. cc)
          | inr e ↦ elim (Bool-cases adding) [
            | inl f ↦
                rw (list_apply, h, e, f) (list_add-shown kind chan key uid (stored_mask kind m) q s)
            | inr f ↦ rw (list_apply, h, e, f) (list_remove-shown kind key (stored_mask kind m) q s)
          ]
        ]
      ]

  key_apply-shown :
      (key : Text) (adding : Bool) (p q : Text) (s : Server)
      → (Params.key_apply key adding (some p) s).0 ≡ Applied.applied (some q)
      → Params.key_apply key adding (some q) s ≡ Params.key_apply key adding (some p) s
  unfolding Params.key_apply shown_text
  key_apply-shown key false p q s = λ done. refl
  key_apply-shown key true p q s = elim (Bool-cases (Params.is_key p)) [
    | inl h ↦
        rw (Params.key_apply, h)
          (λ done.
            let same : p ≡ q = ap shown_text done in
            subst
              (λ t. Params.key_apply key true (some t) s ≡ (
                Applied.applied (some p),
                Params.set_modes key (λ m. record m { key = some p }) s,
              ))
              same (rw (Params.key_apply, h) refl))
    | inr h ↦ rw (Params.key_apply, h) (λ done. cc)
  ]

  apply_to-shown :
      (p : Prefix) (chan key : Text) (uid : ℕ) (adding : Bool) (pn q : Text) (tuid : ℕ)
      (target : Member) (s : Server)
      → (apply_to cfg p chan key uid adding pn tuid target s).0 ≡ Applied.applied (some q)
      → pn ≡ q
  unfolding apply_to shown_text
  apply_to-shown p chan key uid adding pn q tuid target s =
      let src = channel_rank cfg uid key s in
      elim (Bool-cases (not adding && (tuid == uid && not (can_depriv cfg p.ch)))) [
        | inl h ↦ rw (apply_to, h) (λ done. cc)
        | inr h ↦ elim (Bool-cases (ltb src (needed cfg p adding) || ltb src (rank cfg target))) [
          | inl j ↦ rw (apply_to, h, j) (λ done. cc)
          | inr j ↦ rw (apply_to, h, j) (ap shown_text)
        ]
      ]

  prefix_apply-shown :
      (p : Prefix) (chan key : Text) (uid : ℕ) (adding : Bool) (pn q : Text) (s : Server)
      → (prefix_apply cfg p chan key uid adding (some pn) s).0 ≡ Applied.applied (some q)
      → pn ≡ q
  unfolding prefix_apply
  prefix_apply-shown p chan key uid adding pn q s = elim (Option-cases (find_nick s pn)) [
    | inl h ↦ rw (prefix_apply, h) (λ done. cc)
    | inr (tuid, h) ↦ elim (Option-cases (find_member key tuid s.channels)) [
      | inl e ↦ rw (prefix_apply, h, e) (λ done. cc)
      | inr (target, e) ↦
          rw (prefix_apply, h, e) (apply_to-shown p chan key uid adding pn q tuid target s)
    ]
  ]

  -- If a handler shows a parameter for a change, then the same change with the shown parameter in
  -- place of the given one has the same outcome: the same parameter is shown, and the state after
  -- is the same.
  pub mode_apply-shown :
      (h : ChanMode) (chan key : Text) (uid : ℕ) (adding : Bool) (p q : Text) (s : Server)
      → (mode_apply cfg catalog h chan key uid adding (some p) s).0 ≡ Applied.applied (some q)
      → mode_apply cfg catalog h chan key uid adding (some q) s
        ≡ mode_apply cfg catalog h chan key uid adding (some p) s
  unfolding mode_apply Reads
  mode_apply-shown (ChanMode.prefix_mode pr) chan key uid adding p q s = λ done.
      ap (λ t. prefix_apply cfg pr chan key uid adding (some t) s)
        (sym (prefix_apply-shown pr chan key uid adding p q s done))
  mode_apply-shown (ChanMode.flag ch set) chan key uid adding p q s = λ done. refl
  mode_apply-shown (ChanMode.oper_flag ch set) chan key uid adding p q s = λ done. refl
  mode_apply-shown ChanMode.registered_chan chan key uid adding p q s = λ done. refl
  mode_apply-shown ChanMode.encrypted chan key uid adding p q s = λ done. refl
  mode_apply-shown ChanMode.secure_only chan key uid adding p q s = λ done. refl
  mode_apply-shown (ChanMode.list_mode ch kind) chan key uid adding p q s = λ done.
      let same = list_apply-shown ch kind chan key uid adding p q s done in
      subst
        (λ t.
          list_apply cfg catalog ch kind chan key uid adding (some t) s
          ≡ list_apply cfg catalog ch kind chan key uid adding (some p) s)
        same
        (list_apply-stored_mask ch kind chan key uid adding p s
          (λ bad. applied-ne-rejected q (sym done ∙ bad)))
  mode_apply-shown ChanMode.key_mode chan key uid adding p q s = key_apply-shown key adding p q s
  mode_apply-shown ChanMode.limit chan key uid adding p q s =
      param_apply-Reads key s Params.parse_limit (λ m v. record m { limit = v }) _ adding p q
        parse_limit-Reads
  mode_apply-shown ChanMode.chan_history chan key uid adding p q s =
      param_apply-Reads key s Params.parse_history (λ m v. record m { history = v }) _ adding p q
        parse_history-Reads
  mode_apply-shown ChanMode.msg_flood chan key uid adding p q s =
      param_apply-Reads key s Params.parse_flood (λ m v. record m { flood = v }) _ adding p q
        (λ t v e. (e, refl))
  mode_apply-shown ChanMode.join_flood chan key uid adding p q s =
      param_apply-Reads key s Params.parse_rate (λ m v. record m { joinflood = v }) _ adding p q
        parse_rate-Reads
  mode_apply-shown ChanMode.nick_flood chan key uid adding p q s =
      param_apply-Reads key s Params.parse_rate (λ m v. record m { nickflood = v }) _ adding p q
        parse_rate-Reads
  mode_apply-shown ChanMode.slow_mode chan key uid adding p q s =
      param_apply-Reads key s Params.parse_slow (λ m v. record m { slowmode = v }) _ adding p q
        parse_slow-Reads
  mode_apply-shown ChanMode.redirect chan key uid adding p q s =
      param_apply-Reads key s (Params.parse_redirect chan) (λ m v. record m { redirect = v }) _
        adding p q (parse_redirect-Reads chan)
  mode_apply-shown ChanMode.anti_caps chan key uid adding p q s =
      param_apply-Reads key s Params.parse_percent (λ m v. record m { anticaps = v }) _ adding p q
        parse_percent-Reads
  mode_apply-shown ChanMode.kick_no_rejoin chan key uid adding p q s =
      param_apply-Reads key s (Params.positive 3600) (λ m v. record m { kicknorejoin = v }) _ adding
        p q (positive-Reads 3600 (omega arith) (omega arith))
  mode_apply-shown ChanMode.delay_msg chan key uid adding p q s =
      param_apply-Reads key s (Params.positive 3600) (λ m v. record m { delaymsg = v }) _ adding p q
        (positive-Reads 3600 (omega arith) (omega arith))
  mode_apply-shown ChanMode.repeat_mode chan key uid adding p q s =
      param_apply-Reads key s (Params.positive 20) (λ m v. record m { repeat = v }) _ adding p q
        (positive-Reads 20 (omega arith) (omega arith))
