-- ===== src/Mode/Runs.antt =====
-- An invariant of the channels that every handler keeps is kept by MODE as a whole.
use echoi_rcd.Prelude.{
  ℕ, ◌+◌, Bool, not, ◌&&◌, List, [], ◌∷◌, Option, none, some, Text, to_lower, get, remove, leb, any,
  is_nil, is_some, contains_key, ◌≡◌, refl, sym, subst, true, arith, Bool-cases, Option-cases, inl,
  inr, text_key, nat_key, if◌then◌else◌, ◌==◌,
}
use echoi_rcd.Channel.Prefixes.{PrefixCfg}
use echoi_rcd.Channel.Record.{Channel, keep_alive}
use echoi_rcd.Server.State.{Server}
use echoi_rcd.Mode.Hidden.{broadcast, hidden_rank, Change}
use echoi_rcd.Mode.Prefix.{Applied}
use echoi_rcd.Mode.Handlers.{ChanMode, chan_mode, mode_apply, wants_param}
use echoi_rcd.Mode.Dispatch.{
  CmdResult, Loop, take_param, bad_param, outcome, dispatch, one_letter, letters, is_sign,
  is_barred, announce, cull, conclude, change_modes, channel_query, max_modes, start,
  apply_channel_mode, svs_outcome, svs_dispatch, svs_letter, svs_letters, svs_set_chan_modes,
}

bad_param-channels :
    (h : ChanMode) (target : Text) (uid c : ℕ) (adding : Bool) (p : Text) (s : Server)
    → (bad_param h target uid c adding (some p) s).channels ≡ s.channels
bad_param-channels h target uid c adding p s = ground arith

announce-channels :
    (cfg : PrefixCfg) (catalog : Text → Text) (target key : Text) (uid : ℕ) (l : Loop)
    → (announce cfg catalog target key uid l).1.channels ≡ l.server.channels
unfolding announce broadcast
announce-channels cfg catalog target key uid l = elim (Option-cases (get uid l.server.users)) [
  | inl h ↦ rw (announce, h) refl
  | inr (u, h) ↦
      elim (Bool-cases
        (any (λ (ch : Change). is_some (hidden_rank l.server ch.letter)) l.changes)) [
          | inl e ↦ rw (announce, h, e) refl
          | inr e ↦ rw (announce, h, e) refl
        ]
]

module _ (cfg : PrefixCfg) (catalog : Text → Text) (Inv : List (Text × Channel) → Type 0)
    (step : (c : ℕ) (h : ChanMode)
      → chan_mode cfg c ≡ some h
      → (chan key : Text) (uid : ℕ) (adding : Bool) (param : Option Text) (s : Server)
      → Inv s.channels
      → Inv (mode_apply cfg catalog h chan key uid adding param s).1.channels)
    (drop : (key : Text) (chs : List (Text × Channel)) → Inv chs → Inv (remove key chs)) where
  outcome-Inv :
      (h : ChanMode) (target : Text) (uid c : ℕ) (adding : Bool) (param : Option Text)
      (args : List Text) (done : Applied × Server) (l : Loop)
      → Inv done.1.channels
      → Inv (outcome cfg catalog h target uid c adding param args done l).server.channels
  outcome-Inv h target uid c adding param args (Applied.applied echo, s) l ok = ok
  outcome-Inv h target uid c adding none args (Applied.rejected, s) l ok = ok
  outcome-Inv h target uid c adding (some p) args (Applied.rejected, s) l ok =
      subst Inv (sym (bad_param-channels h target uid c adding p s)) ok

  one_letter-Inv :
      (target key : Text) (uid c : ℕ) (l : Loop)
      → Inv l.server.channels
      → Inv (one_letter cfg catalog target key uid c l).server.channels
  unfolding one_letter dispatch
  one_letter-Inv target key uid c l ok = elim (Option-cases (chan_mode cfg c)) [
    | inl e ↦ rw (one_letter, e) ok
    | inr (h, e) ↦
        let adding = l.sign == b'+' in
        let taken = take_param (wants_param h adding) l.args in
        rw (one_letter, e)
          (outcome-Inv h target uid c adding taken.0 taken.1
            (mode_apply cfg catalog h target key uid adding taken.0 l.server)
            (record l { processed = l.processed + 1 })
            (step c h e target key uid adding taken.0 l.server ok))
  ]

  next_Inv :
      (target key : Text) (uid c : ℕ) (l : Loop)
      → Inv l.server.channels
      → Inv
          (if is_sign c
            then record l { sign = c }
            else one_letter cfg catalog target key uid c l).server.channels
  next_Inv target key uid c l ok = elim (Bool-cases (is_sign c)) [
    | inl h ↦ rw (h) ok
    | inr h ↦ rw (h) (one_letter-Inv target key uid c l ok)
  ]

  letters-Inv :
      (target key : Text) (uid top : ℕ) (cs : Text) (l : Loop)
      → Inv l.server.channels
      → Inv (letters cfg catalog target key uid top cs l).server.channels
  unfolding letters
  letters-Inv target key uid top [] l ok = ok
  letters-Inv target key uid top (c ∷ cs) l ok =
      let rest = letters-Inv target key uid top cs _ (next_Inv target key uid c l ok) in
      elim (Bool-cases (not (is_sign c) && leb top l.processed)) [
        | inl h ↦ rw (letters, h) ok
        | inr h ↦ rw (letters, h) rest
      ]

  cull-Inv : (key : Text) (s : Server) → Inv s.channels → Inv (cull cfg catalog key s).channels
  unfolding cull
  cull-Inv key s ok = elim (Option-cases (get key s.channels)) [
    | inl h ↦ rw (cull, h) ok
    | inr (ch, h) ↦ elim (Bool-cases (keep_alive ch)) [
      | inl e ↦ rw (cull, h, e) ok
      | inr e ↦ rw (cull, h, e) (drop key s.channels ok)
    ]
  ]

  conclude-Inv :
      (key : Text) (done : CmdResult × Server)
      → Inv done.1.channels
      → Inv (conclude cfg catalog key done).1.channels
  conclude-Inv key (CmdResult.ok, s) ok = cull-Inv key s ok
  conclude-Inv key (CmdResult.fail, s) ok = cull-Inv key s ok
  conclude-Inv key (CmdResult.panicked, s) ok = ok

  change_modes-Inv :
      (target key : Text) (uid : ℕ) (modestring : Text) (args : List Text) (s : Server)
      → Inv s.channels
      → Inv (change_modes cfg catalog target key uid modestring args s).1.channels
  unfolding change_modes
  change_modes-Inv target key uid modestring args s ok =
      let top = max_modes cfg catalog s in
      let l = letters cfg catalog target key uid top modestring (start s args) in
      let kept : Inv l.server.channels =
        letters-Inv target key uid top modestring (start s args) ok in
      elim (Bool-cases (is_nil l.applied)) [
        | inl h ↦ rw (change_modes, h) (cull-Inv key l.server kept)
        | inr h ↦
            rw (change_modes, h)
              (conclude-Inv key (announce cfg catalog target key uid l)
                (subst Inv (sym (announce-channels cfg catalog target key uid l)) kept))
      ]

  pub apply_channel_mode-Inv :
      (target : Text) (uid : ℕ) (params : List Text) (s : Server)
      → Inv s.channels
      → Inv (apply_channel_mode cfg catalog target uid params s).1.channels
  unfolding apply_channel_mode channel_query
  apply_channel_mode-Inv target uid [] s ok =
      elim (Option-cases (get (to_lower target) s.channels)) [
        | inl h ↦ rw (apply_channel_mode, h) ok
        | inr (ch, h) ↦ rw (apply_channel_mode, h) ok
      ]
  apply_channel_mode-Inv target uid (modestring ∷ args) s ok =
      let key = to_lower target in
      elim (Option-cases (get key s.channels)) [
        | inl h ↦ rw (apply_channel_mode, h) ok
        | inr (ch, h) ↦ elim (Bool-cases (is_barred cfg catalog key uid modestring args s)) [
          | inl e ↦ rw (apply_channel_mode, h, e) ok
          | inr e ↦
              rw (apply_channel_mode, h, e) (change_modes-Inv target key uid modestring args s ok)
        ]
      ]

  svs_outcome-Inv :
      (c : ℕ) (args : List Text) (done : Applied × Server) (l : Loop)
      → Inv done.1.channels
      → Inv (svs_outcome cfg catalog c args done l).server.channels
  svs_outcome-Inv c args (Applied.applied echo, s) l ok = ok
  svs_outcome-Inv c args (Applied.rejected, s) l ok = ok

  svs_letter-Inv :
      (target key : Text) (c : ℕ) (l : Loop)
      → Inv l.server.channels
      → Inv (svs_letter cfg catalog target key c l).server.channels
  unfolding svs_letter svs_dispatch
  svs_letter-Inv target key c l ok = elim (Bool-cases (is_sign c)) [
    | inl b ↦ rw (svs_letter, b) ok
    | inr b ↦ elim (Option-cases (chan_mode cfg c)) [
      | inl e ↦ rw (svs_letter, b, e) ok
      | inr (h, e) ↦
          let adding = l.sign == b'+' in
          let taken = take_param (wants_param h adding) l.args in
          rw (svs_letter, b, e)
            (svs_outcome-Inv c taken.1
              (mode_apply cfg catalog h target key 0 adding taken.0 l.server) l
              (step c h e target key 0 adding taken.0 l.server ok))
    ]
  ]

  svs_letters-Inv :
      (target key : Text) (cs : Text) (l : Loop)
      → Inv l.server.channels
      → Inv (svs_letters cfg catalog target key cs l).server.channels
  unfolding svs_letters
  svs_letters-Inv target key [] l ok = ok
  svs_letters-Inv target key (c ∷ cs) l ok =
      svs_letters-Inv target key cs _ (svs_letter-Inv target key c l ok)

  pub svs_set_chan_modes-Inv :
      (target modestring : Text) (args : List Text) (s : Server)
      → Inv s.channels
      → Inv (svs_set_chan_modes cfg catalog target modestring args s).1.channels
  unfolding svs_set_chan_modes
  svs_set_chan_modes-Inv target modestring args s ok =
      let key = to_lower target in
      let l =
        svs_letters cfg catalog target key modestring
          (start (record s { mode_sudo = true }) args) in
      let kept : Inv l.server.channels =
        svs_letters-Inv target key modestring (start (record s { mode_sudo = true }) args) ok in
      elim (Bool-cases (contains_key key s.channels)) [
        | inl h ↦ elim (Bool-cases (is_nil l.applied)) [
          | inl e ↦ rw (svs_set_chan_modes, h, e) kept
          | inr e ↦ rw (svs_set_chan_modes, h, e) kept
        ]
        | inr h ↦ rw (svs_set_chan_modes, h) ok
      ]
