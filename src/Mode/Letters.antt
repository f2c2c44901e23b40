-- ===== src/Mode/Letters.antt =====
-- The table of the handlers against `set_by_letter`, by which bursts of links set flags.
use echoi_rcd.Prelude.{
  ℕ, Bool, true, false, List, [], ◌∷◌, map, Option, none, some, ◌==◌, ==_iff, find, All, ◌≡◌, refl,
  sym, ap, ◌∙◌, fun_ext, arith, find-append, find-All, find-none, inl, inr, Text, Option-cases,
}
use echoi_rcd.Channel.Prefixes.{PrefixCfg, PrefixDef}
use echoi_rcd.Channel.Modes.{ChanModes, set_by_letter}
use echoi_rcd.Server.State.{Server}
use echoi_rcd.Mode.Prefix.{Applied}
use echoi_rcd.Mode.Params.{
  set_modes, oper_flag_apply, registered_apply, encrypted_apply, secure_only_apply,
}
use echoi_rcd.Mode.Handlers.{ChanMode, letter, tier, mode_apply, chan_modes, chan_mode}

-- What a letter does to the flags.
abbrev pub flag_effect : Option ChanMode → ChanModes → Bool → ChanModes
flag_effect none m v = m
flag_effect (some (ChanMode.flag ch set)) m v = set m v
flag_effect (some (ChanMode.oper_flag ch set)) m v = set m v
flag_effect (some ChanMode.registered_chan) m v = record m { registered = v }
flag_effect (some ChanMode.encrypted) m v = record m { encrypted = v }
flag_effect (some ChanMode.secure_only) m v = record m { secure_only = v }
flag_effect (some other) m v = m

-- What a letter of the table does, and of no other.
Agrees : ChanMode → Type 0
Agrees h = (m : ChanModes) (v : Bool) → flag_effect (some h) m v ≡ set_by_letter m (letter h) v

chan_modes-Agrees : All Agrees chan_modes
unfolding chan_modes set_by_letter Agrees
chan_modes-Agrees = search

-- No other letter changes a flag.
set_by_letter-other :
    (c : ℕ) (m : ChanModes) (v : Bool)
    → All (λ h. (letter h == c) ≡ false) chan_modes
    → set_by_letter m c v ≡ m
unfolding chan_modes set_by_letter
set_by_letter-other c m v h = ground arith

flag_effect-custom :
    (c : ℕ) (m : ChanModes) (v : Bool) (defs : List PrefixDef)
    → flag_effect (find (λ h. letter h == c) (map (λ d. tier d.letter d.rank) defs)) m v ≡ m
flag_effect-custom c m v [] = refl
flag_effect-custom c m v (d ∷ defs) = ground (arith, flag_effect-custom c m v defs)

flag_effect-chan_mode :
    (cfg : PrefixCfg) (c : ℕ) (m : ChanModes) (v : Bool)
    → flag_effect (chan_mode cfg c) m v ≡ set_by_letter m c v
unfolding chan_mode Agrees
flag_effect-chan_mode cfg c m v =
    let table =
      find-append (λ h. letter h == c) chan_modes (map (λ d. tier d.letter d.rank) cfg.custom) in
    elim (Option-cases (find (λ h. letter h == c) chan_modes)) [
      | inl e ↦
          rw (chan_mode, table, e)
            (flag_effect-custom c m v cfg.custom
              ∙ sym (set_by_letter-other c m v (find-none (λ h. letter h == c) chan_modes e)))
      | inr (h, e) ↦
          let ok = find-All (λ h. letter h == c) Agrees chan_modes h chan_modes-Agrees e in
          rw (chan_mode, table, e)
            (ok.1 m v ∙ ap (λ d. set_by_letter m d v) ((==_iff (letter h) c).0 ok.0))
    ]

abbrev pub is_flag : ChanMode → Bool
is_flag (ChanMode.flag ch set) = true
is_flag (ChanMode.oper_flag ch set) = true
is_flag ChanMode.registered_chan = true
is_flag ChanMode.encrypted = true
is_flag ChanMode.secure_only = true
is_flag other = false

mode_apply-flag_effect :
    (cfg : PrefixCfg) (catalog : Text → Text) (h : ChanMode) (chan key : Text) (uid : ℕ)
    (adding : Bool) (param shown : Option Text) (s : Server)
    → is_flag h ≡ true
    → (mode_apply cfg catalog h chan key uid adding param s).0 ≡ Applied.applied shown
    → (mode_apply cfg catalog h chan key uid adding param s).1
      ≡ set_modes key (λ m. flag_effect (some h) m adding) s
unfolding mode_apply oper_flag_apply registered_apply encrypted_apply secure_only_apply
mode_apply-flag_effect cfg catalog (ChanMode.flag ch set) chan key uid adding param shown s f =
    λ done. refl
mode_apply-flag_effect cfg catalog (ChanMode.oper_flag ch set) chan key uid adding param shown s f =
    ground arith
mode_apply-flag_effect cfg catalog ChanMode.registered_chan chan key uid adding param shown s f =
    ground arith
mode_apply-flag_effect cfg catalog ChanMode.encrypted chan key uid adding param shown s f =
    ground arith
mode_apply-flag_effect cfg catalog ChanMode.secure_only chan key uid adding param shown s f =
    ground arith
mode_apply-flag_effect cfg catalog other chan key uid adding param shown s f = cc

-- The handler that the table has for the letter of a flag, when it makes its change, sets what
-- `set_by_letter`, by which bursts of links set flags, sets for that letter.
pub mode_apply-set_by_letter :
    (cfg : PrefixCfg) (catalog : Text → Text) (c : ℕ) (h : ChanMode) (chan key : Text) (uid : ℕ)
    (adding : Bool) (param shown : Option Text) (s : Server)
    → chan_mode cfg c ≡ some h
    → is_flag h ≡ true
    → (mode_apply cfg catalog h chan key uid adding param s).0 ≡ Applied.applied shown
    → (mode_apply cfg catalog h chan key uid adding param s).1
      ≡ set_modes key (λ m. set_by_letter m c adding) s
mode_apply-set_by_letter cfg catalog c h chan key uid adding param shown s e f done =
    let same =
      fun_ext
        (λ m. ap (λ o. flag_effect o m adding) (sym e) ∙ flag_effect-chan_mode cfg c m adding) in
    mode_apply-flag_effect cfg catalog h chan key uid adding param shown s f done
    ∙ ap (λ f. set_modes key f s) same
