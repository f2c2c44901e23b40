-- ===== src/Mode/Authority.antt =====
-- What MODE does for those who are not at least half-op.
use echoi_rcd.Prelude.{
  ℕ, ◌+◌, ◌<◌, if◌then◌else◌, true, false, not, ◌&&◌, List, [], ◌∷◌, some, Text, is_nil, any, leb,
  to_lower, get, ◌≡◌, refl, sym, ◌∙◌, ap, arith, Bool-cases, Option-cases, inl, inr, text_key,
}
use echoi_rcd.Channel.Prefixes.{PrefixCfg}
use echoi_rcd.Channel.Member.{rank_halfop}
use echoi_rcd.Channel.Record.{Channel, keep_alive}
use echoi_rcd.Server.State.{Server}
use echoi_rcd.Mode.Members.{channel_rank}
use echoi_rcd.Mode.ListModes.{ListKind, list_view, list_apply}
use echoi_rcd.Mode.Handlers.{ChanMode, chan_mode, mode_apply, is_list}
use echoi_rcd.Mode.Dispatch.{
  Loop, dispatch, one_letter, letters, is_sign, list_letter, pure_list_query, is_barred, cull,
  change_modes, max_modes, start, apply_channel_mode, channel_query,
}

module _ (cfg : PrefixCfg) (catalog : Text → Text) where
  pub list_view-channels :
      (kind : ListKind) (ch : ℕ) (chan key : Text) (uid : ℕ) (s : Server)
      → (list_view cfg catalog kind ch chan key uid s).channels ≡ s.channels
  unfolding list_view
  list_view-channels kind ch chan key uid s = ground arith

  -- Without arguments the handler of a list only shows it.
  Looked : Loop → Loop → Type 0
  Looked l r = (r.args ≡ []) × (r.applied ≡ l.applied) × (r.server.channels ≡ l.server.channels)

  dispatch-Looked :
      (h : ChanMode) (target key : Text) (uid c : ℕ) (l : Loop)
      → is_list h ≡ true
      → l.args ≡ []
      → Looked l (dispatch cfg catalog h target key uid c l)
  unfolding dispatch mode_apply list_apply Looked
  dispatch-Looked (ChanMode.list_mode ch kind) target key uid c l e none_left =
      ground (arith, list_view-channels kind ch target key uid l.server)
  dispatch-Looked other target key uid c l e none_left = cc

  one_letter-Looked :
      (target key : Text) (uid c : ℕ) (l : Loop)
      → list_letter cfg catalog c ≡ true
      → l.args ≡ []
      → Looked l (one_letter cfg catalog target key uid c l)
  unfolding one_letter Looked
  one_letter-Looked target key uid c l e none_left = elim (Option-cases (chan_mode cfg c)) [
    | inl h ↦ let bad : false ≡ true = rw (list_letter, h) at e in cc
    | inr (m, h) ↦
        let listed : is_list m ≡ true = rw (list_letter, h) at e in
        rw (one_letter, h)
          (dispatch-Looked m target key uid c (record l { processed = l.processed + 1 }) listed
            none_left)
  ]

  next_letter : Text → Text → ℕ → ℕ → Loop → Loop
  next_letter target key uid c l =
      if is_sign c then record l { sign = c } else one_letter cfg catalog target key uid c l

  next_letter-Looked :
      (target key : Text) (uid c : ℕ) (l : Loop)
      → (not (is_sign c) && not (list_letter cfg catalog c)) ≡ false
      → l.args ≡ []
      → Looked l (next_letter target key uid c l)
  unfolding next_letter Looked
  next_letter-Looked target key uid c l e none_left = elim (Bool-cases (is_sign c)) [
    | inl h ↦ rw (next_letter, h) (none_left, refl, refl)
    | inr h ↦ rw (next_letter, h) (one_letter-Looked target key uid c l (ground arith) none_left)
  ]

  letters-Looked :
      (target key : Text) (uid top : ℕ) (cs : Text) (l : Loop)
      → any (λ c. not (is_sign c) && not (list_letter cfg catalog c)) cs ≡ false
      → l.args ≡ []
      → Looked l (letters cfg catalog target key uid top cs l)
  unfolding letters Looked next_letter
  letters-Looked target key uid top [] l e none_left = (none_left, refl, refl)
  letters-Looked target key uid top (c ∷ cs) l e none_left =
      let one = next_letter-Looked target key uid c l (ground arith) none_left in
      let more =
        letters-Looked target key uid top cs (next_letter target key uid c l) (ground arith)
          one.0 in
      elim (Bool-cases (not (is_sign c) && leb top l.processed)) [
        | inl h ↦ rw (letters, h) (none_left, refl, refl)
        | inr h ↦ rw (letters, h) (more.0, more.1 ∙ one.1, more.2 ∙ one.2)
      ]

  cull-alive :
      (key : Text) (s : Server)
      → ((ch : Channel) → get key s.channels ≡ some ch → keep_alive ch ≡ true)
      → (cull cfg catalog key s).channels ≡ s.channels
  unfolding cull
  cull-alive key s alive = elim (Option-cases (get key s.channels)) [
    | inl h ↦ rw (cull, h) refl
    | inr (ch, h) ↦ rw (cull, h, alive ch h) refl
  ]

  change_modes-query :
      (target key : Text) (uid : ℕ) (modestring : Text) (args : List Text) (s : Server)
      → pure_list_query cfg catalog modestring args ≡ true
      → ((ch : Channel) → get key s.channels ≡ some ch → keep_alive ch ≡ true)
      → (change_modes cfg catalog target key uid modestring args s).1.channels ≡ s.channels
  unfolding change_modes pure_list_query Looked
  change_modes-query target key uid modestring [] s query alive =
      let l =
        letters cfg catalog target key uid (max_modes cfg catalog s) modestring (start s []) in
      let seen =
        letters-Looked target key uid (max_modes cfg catalog s) modestring (start s [])
          (ground arith) refl in
      let nothing : is_nil l.applied ≡ true = ap is_nil seen.1 in
      rw (change_modes, nothing)
        (cull-alive key l.server (λ ch h. alive ch (ap (get key) (sym seen.2) ∙ h)) ∙ seen.2)
  change_modes-query target key uid modestring (a ∷ args) s query alive = cc

  channel_query-channels :
      (target key : Text) (uid : ℕ) (ch : Channel) (s : Server)
      → (channel_query cfg catalog target key uid ch s).channels ≡ s.channels
  unfolding channel_query
  channel_query-channels target key uid ch s = refl

  is_barred-query :
      (key : Text) (uid : ℕ) (modestring : Text) (args : List Text) (s : Server)
      → channel_rank cfg uid key s < rank_halfop
      → is_barred cfg catalog key uid modestring args s ≡ false
      → pure_list_query cfg catalog modestring args ≡ true
  unfolding is_barred
  is_barred-query key uid modestring args s low e = ground arith

  -- MODE for a channel, by one whose rank there is below half-op, leaves the table of channels as
  -- it is, whatever the letters and arguments are, if the channel has a reason to exist.
  pub apply_channel_mode-unauthorized :
      (target : Text) (uid : ℕ) (params : List Text) (s : Server)
      → channel_rank cfg uid (to_lower target) s < rank_halfop
      → ((ch : Channel) → get (to_lower target) s.channels ≡ some ch → keep_alive ch ≡ true)
      → (apply_channel_mode cfg catalog target uid params s).1.channels ≡ s.channels
  unfolding apply_channel_mode
  apply_channel_mode-unauthorized target uid [] s low alive =
      elim (Option-cases (get (to_lower target) s.channels)) [
        | inl h ↦ rw (apply_channel_mode, h) refl
        | inr (ch, h) ↦
            rw (apply_channel_mode, h) (channel_query-channels target (to_lower target) uid ch s)
      ]
  apply_channel_mode-unauthorized target uid (modestring ∷ args) s low alive =
      let key = to_lower target in
      elim (Option-cases (get key s.channels)) [
        | inl h ↦ rw (apply_channel_mode, h) refl
        | inr (ch, h) ↦ elim (Bool-cases (is_barred cfg catalog key uid modestring args s)) [
          | inl e ↦ rw (apply_channel_mode, h, e) refl
          | inr e ↦
              rw (apply_channel_mode, h, e)
                (change_modes-query target key uid modestring args s
                  (is_barred-query key uid modestring args s low e) alive)
        ]
      ]
