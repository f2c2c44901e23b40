-- ===== src/Mode/Caps.antt =====
-- One line of MODE makes no more changes than the limit of the configuration.
use echoi_rcd.Prelude.{
  ℕ, ◌+◌, ◌≤◌, max, Bool, false, List, [], ◌∷◌, Option, Text, leb, codes, length, length-append,
  ◌≡◌, refl, arith, Bool-cases, Option-cases, inl, inr, ◌==◌,
}
use echoi_rcd.Channel.Prefixes.{PrefixCfg}
use echoi_rcd.Server.State.{Server, conf_num}
use echoi_rcd.Mode.Prefix.{Applied}
use echoi_rcd.Mode.Handlers.{ChanMode, chan_mode, mode_apply, wants_param}
use echoi_rcd.Mode.Dispatch.{
  Loop, take_param, outcome, dispatch, one_letter, letters, is_sign, max_modes, start,
}

module _ (cfg : PrefixCfg) (catalog : Text → Text) where
  -- At most one change for each letter that was handled, and no more letters than the limit.
  Counted : ℕ → Loop → Type 0
  Counted top l = (length l.changes ≤ l.processed) × (l.processed ≤ top)

  outcome-changes :
      (h : ChanMode) (target : Text) (uid c : ℕ) (adding : Bool) (param : Option Text)
      (args : List Text) (done : Applied × Server) (l : Loop)
      → (length (outcome cfg catalog h target uid c adding param args done l).changes
          ≤ length l.changes + 1)
        × ((outcome cfg catalog h target uid c adding param args done l).processed ≡ l.processed)
  outcome-changes h target uid c adding param args (Applied.applied echo, s) l = (
    omega
        (arith, length-append l.changes (record { sign = l.sign; letter = c; shown = echo } ∷ [])),
    refl,
  )
  outcome-changes h target uid c adding param args (Applied.rejected, s) l = (omega arith, refl)

  one_letter-Counted :
      (target key : Text) (uid c top : ℕ) (l : Loop)
      → leb top l.processed ≡ false
      → Counted top l
      → Counted top (one_letter cfg catalog target key uid c l)
  unfolding one_letter dispatch Counted
  one_letter-Counted target key uid c top l below ok = elim (Option-cases (chan_mode cfg c)) [
    | inl e ↦ rw (one_letter, e) (ground arith)
    | inr (h, e) ↦
        let adding = l.sign == b'+' in
        let taken = take_param (wants_param h adding) l.args in
        let step =
          outcome-changes h target uid c adding taken.0 taken.1
            (mode_apply cfg catalog h target key uid adding taken.0 l.server)
            (record l { processed = l.processed + 1 }) in
        rw (one_letter, e) (ground (arith, step.0, step.1))
  ]

  letters-Counted :
      (target key : Text) (uid top : ℕ) (cs : Text) (l : Loop)
      → Counted top l
      → Counted top (letters cfg catalog target key uid top cs l)
  unfolding letters Counted
  letters-Counted target key uid top [] l ok = ok
  letters-Counted target key uid top (c ∷ cs) l ok = elim (Bool-cases (is_sign c)) [
    | inl b ↦ rw (letters, b) (letters-Counted target key uid top cs (record l { sign = c }) ok)
    | inr b ↦ elim (Bool-cases (leb top l.processed)) [
      | inl h ↦ rw (letters, b, h) ok
      | inr h ↦
          rw (letters, b, h)
            (letters-Counted target key uid top cs (one_letter cfg catalog target key uid c l)
              (one_letter-Counted target key uid c top l h ok))
    ]
  ]

  -- The letters of one line of MODE make no more changes than the configuration allows, or than
  -- one if it allows none.
  pub length-changes-letters :
      (target key : Text) (uid : ℕ) (modestring : Text) (args : List Text) (s : Server)
      → length
          (letters cfg catalog target key uid
            (max_modes cfg catalog s)
            modestring
            (start s args)).changes
        ≤ max (conf_num s (codes "modes") 20) 1
  unfolding Counted
  length-changes-letters target key uid modestring args s =
      let ok =
        letters-Counted target key uid (max_modes cfg catalog s) modestring (start s args)
          (omega arith, omega arith) in
      omega (arith, ok.0, ok.1)
