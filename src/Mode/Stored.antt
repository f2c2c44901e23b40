-- ===== src/Mode/Stored.antt =====
-- The handlers of flags and of single parameters keep the bounds.
use echoi_rcd.Prelude.{
  ℕ, Bool, true, false, not, ◌&&◌, Option, none, some, Text, ltb, ◌≡◌, refl, Bool-cases,
  Option-cases, inl, inr, text_key, nat_key, length,
}
use echoi_rcd.Channel.Modes.{ChanModes}
use echoi_rcd.Server.State.{Server, is_oper, can_use_mode}
use echoi_rcd.Mode.Prefix.{Applied}
use echoi_rcd.Mode.Params
use echoi_rcd.Mode.Limits.{
  InBounds, AllInBounds, modify-AllInBounds, positive-within, parse_limit-within,
  parse_percent-within, parse_rate-within, parse_slow-within, parse_flood-within,
  parse_history-within,
}

unfoldable pub Good : Applied × Server → Type 0
Good done = AllInBounds done.1.channels

module _ (key : Text) (s : Server) (ok : AllInBounds s.channels) where
  pub set_modes-AllInBounds :
      (f : ChanModes → ChanModes)
      → ((m : ChanModes) → InBounds m → InBounds (f m))
      → AllInBounds (Params.set_modes key f s).channels
  set_modes-AllInBounds f keeps =
      modify-AllInBounds key (λ ch. record ch { modes = f ch.modes }) s.channels ok
        (λ ch. keeps ch.modes)

  pub param_apply-Good :
      {A : Type 0} (read : Text → Option A) (set : ChanModes → Option A → ChanModes)
      (shown : Text → A → Text) (adding : Bool) (param : Option Text)
      → ((p : Text) (v : A) (m : ChanModes)
          → read p ≡ some v
          → InBounds m
          → InBounds (set m (some v)))
      → ((m : ChanModes) → InBounds m → InBounds (set m none))
      → Good (Params.param_apply read set shown key adding param s)
  unfolding Good
  param_apply-Good read set shown false param put clear =
      set_modes-AllInBounds (λ m. set m none) clear
  param_apply-Good read set shown true none put clear = ok
  param_apply-Good read set shown true (some p) put clear = elim (Option-cases (read p)) [
    | inl h ↦ rw (h) ok
    | inr (v, h) ↦ rw (h) (set_modes-AllInBounds (λ m. set m (some v)) (λ m. put p v m h))
  ]

  pub limit_apply-Good :
      (adding : Bool) (param : Option Text) → Good (Params.limit_apply key adding param s)
  unfolding InBounds Good
  limit_apply-Good adding param =
      param_apply-Good Params.parse_limit (λ m v. record m { limit = v }) _ adding param
        (λ p v m e b. (b.0, parse_limit-within p v e, b.2, b.3, b.4, b.5, b.6, b.7, b.8, b.9, b.10))
        (λ m b. (b.0, refl, b.2, b.3, b.4, b.5, b.6, b.7, b.8, b.9, b.10))

  pub history_apply-Good :
      (adding : Bool) (param : Option Text) → Good (Params.history_apply key adding param s)
  unfolding InBounds Good
  history_apply-Good adding param =
      param_apply-Good Params.parse_history (λ m v. record m { history = v }) _ adding param
        (λ p v m e b.
          (b.0, b.1, b.2, b.3, b.4, b.5, parse_history-within p v e, b.7, b.8, b.9, b.10))
        (λ m b. (b.0, b.1, b.2, b.3, b.4, b.5, refl, b.7, b.8, b.9, b.10))

  pub flood_apply-Good :
      (adding : Bool) (param : Option Text) → Good (Params.flood_apply key adding param s)
  unfolding InBounds Good
  flood_apply-Good adding param =
      param_apply-Good Params.parse_flood (λ m v. record m { flood = v }) _ adding param
        (λ p v m e b. (b.0, b.1, parse_flood-within p v e, b.3, b.4, b.5, b.6, b.7, b.8, b.9, b.10))
        (λ m b. (b.0, b.1, refl, b.3, b.4, b.5, b.6, b.7, b.8, b.9, b.10))

  pub joinflood_apply-Good :
      (adding : Bool) (param : Option Text) → Good (Params.joinflood_apply key adding param s)
  unfolding InBounds Good
  joinflood_apply-Good adding param =
      param_apply-Good Params.parse_rate (λ m v. record m { joinflood = v }) _ adding param
        (λ p v m e b. (b.0, b.1, b.2, parse_rate-within p v e, b.4, b.5, b.6, b.7, b.8, b.9, b.10))
        (λ m b. (b.0, b.1, b.2, refl, b.4, b.5, b.6, b.7, b.8, b.9, b.10))

  pub nickflood_apply-Good :
      (adding : Bool) (param : Option Text) → Good (Params.nickflood_apply key adding param s)
  unfolding InBounds Good
  nickflood_apply-Good adding param =
      param_apply-Good Params.parse_rate (λ m v. record m { nickflood = v }) _ adding param
        (λ p v m e b. (b.0, b.1, b.2, b.3, parse_rate-within p v e, b.5, b.6, b.7, b.8, b.9, b.10))
        (λ m b. (b.0, b.1, b.2, b.3, refl, b.5, b.6, b.7, b.8, b.9, b.10))

  pub slowmode_apply-Good :
      (adding : Bool) (param : Option Text) → Good (Params.slowmode_apply key adding param s)
  unfolding InBounds Good
  slowmode_apply-Good adding param =
      param_apply-Good Params.parse_slow (λ m v. record m { slowmode = v }) _ adding param
        (λ p v m e b. (b.0, b.1, b.2, b.3, b.4, parse_slow-within p v e, b.6, b.7, b.8, b.9, b.10))
        (λ m b. (b.0, b.1, b.2, b.3, b.4, refl, b.6, b.7, b.8, b.9, b.10))

  pub redirect_apply-Good :
      (chan : Text) (adding : Bool) (param : Option Text)
      → Good (Params.redirect_apply chan key adding param s)
  unfolding InBounds Good
  redirect_apply-Good chan adding param =
      param_apply-Good (Params.parse_redirect chan) (λ m v. record m { redirect = v }) _ adding
        param (λ p v m e b. b) (λ m b. b)

  pub anticaps_apply-Good :
      (adding : Bool) (param : Option Text) → Good (Params.anticaps_apply key adding param s)
  unfolding InBounds Good
  anticaps_apply-Good adding param =
      param_apply-Good Params.parse_percent (λ m v. record m { anticaps = v }) _ adding param
        (λ p v m e b.
          (b.0, b.1, b.2, b.3, b.4, b.5, b.6, parse_percent-within p v e, b.8, b.9, b.10))
        (λ m b. (b.0, b.1, b.2, b.3, b.4, b.5, b.6, refl, b.8, b.9, b.10))

  pub kicknorejoin_apply-Good :
      (adding : Bool) (param : Option Text) → Good (Params.kicknorejoin_apply key adding param s)
  unfolding InBounds Good
  kicknorejoin_apply-Good adding param =
      param_apply-Good (Params.positive 3600) (λ m v. record m { kicknorejoin = v }) _ adding param
        (λ p v m e b.
          (b.0, b.1, b.2, b.3, b.4, b.5, b.6, b.7, positive-within 3600 p v refl e, b.9, b.10))
        (λ m b. (b.0, b.1, b.2, b.3, b.4, b.5, b.6, b.7, refl, b.9, b.10))

  pub delaymsg_apply-Good :
      (adding : Bool) (param : Option Text) → Good (Params.delaymsg_apply key adding param s)
  unfolding InBounds Good
  delaymsg_apply-Good adding param =
      param_apply-Good (Params.positive 3600) (λ m v. record m { delaymsg = v }) _ adding param
        (λ p v m e b.
          (b.0, b.1, b.2, b.3, b.4, b.5, b.6, b.7, b.8, positive-within 3600 p v refl e, b.10))
        (λ m b. (b.0, b.1, b.2, b.3, b.4, b.5, b.6, b.7, b.8, refl, b.10))

  pub repeat_apply-Good :
      (adding : Bool) (param : Option Text) → Good (Params.repeat_apply key adding param s)
  unfolding InBounds Good
  repeat_apply-Good adding param =
      param_apply-Good (Params.positive 20) (λ m v. record m { repeat = v }) _ adding param
        (λ p v m e b.
          (b.0, b.1, b.2, b.3, b.4, b.5, b.6, b.7, b.8, b.9, positive-within 20 p v refl e))
        (λ m b. (b.0, b.1, b.2, b.3, b.4, b.5, b.6, b.7, b.8, b.9, refl))

  pub key_apply-Good :
      (adding : Bool) (param : Option Text) → Good (Params.key_apply key adding param s)
  unfolding Params.key_apply InBounds Good
  key_apply-Good false param =
      set_modes-AllInBounds (λ m. record m { key = none })
        (λ m b. (refl, b.1, b.2, b.3, b.4, b.5, b.6, b.7, b.8, b.9, b.10))
  key_apply-Good true none = ok
  key_apply-Good true (some k) = elim (Bool-cases (Params.is_key k)) [
    | inl h ↦
        rw (Params.key_apply, h)
          (set_modes-AllInBounds (λ m. record m { key = some k })
            (λ m b. (h, b.1, b.2, b.3, b.4, b.5, b.6, b.7, b.8, b.9, b.10)))
    | inr h ↦ rw (Params.key_apply, h) ok
  ]

  pub flag_apply-Good :
      (set : ChanModes → Bool → ChanModes) (adding : Bool)
      → ((m : ChanModes) (v : Bool) → InBounds m → InBounds (set m v))
      → Good (Params.flag_apply set key adding s)
  unfolding Good
  flag_apply-Good set adding same =
      set_modes-AllInBounds (λ m. set m adding) (λ m b. same m adding b)

  pub oper_flag_apply-Good :
      (ch : ℕ) (set : ChanModes → Bool → ChanModes) (chan : Text) (uid : ℕ) (adding : Bool)
      → ((m : ChanModes) (v : Bool) → InBounds m → InBounds (set m v))
      → Good (Params.oper_flag_apply ch set chan key uid adding s)
  unfolding Params.oper_flag_apply Good
  oper_flag_apply-Good ch set chan uid adding same =
      elim (Bool-cases (adding && (not s.mode_sudo && not (is_oper s uid)))) [
        | inl h ↦ rw (Params.oper_flag_apply, h) ok
        | inr h ↦
            elim (Bool-cases (adding && (not s.mode_sudo && not (can_use_mode s uid ch true)))) [
              | inl j ↦ rw (Params.oper_flag_apply, h, j) ok
              | inr j ↦ rw (Params.oper_flag_apply, h, j) (flag_apply-Good set adding same)
            ]
      ]

  pub registered_apply-Good :
      (chan : Text) (uid : ℕ) (adding : Bool) → Good (Params.registered_apply chan key uid adding s)
  unfolding Params.registered_apply Good InBounds
  registered_apply-Good chan uid adding = elim (Bool-cases (s.mode_sudo)) [
    | inl h ↦
        rw (Params.registered_apply, h)
          (flag_apply-Good (λ m v. record m { registered = v }) adding (λ m v b. b))
    | inr h ↦ rw (Params.registered_apply, h) ok
  ]

  pub encrypted_apply-Good :
      (chan : Text) (uid : ℕ) (adding : Bool) → Good (Params.encrypted_apply chan key uid adding s)
  unfolding Params.encrypted_apply Good InBounds
  encrypted_apply-Good chan uid adding =
      elim (Bool-cases (adding && ltb 0 (length (Params.lacking (λ u. u.e2e) key s)))) [
        | inl h ↦ rw (Params.encrypted_apply, h) ok
        | inr h ↦
            rw (Params.encrypted_apply, h)
              (flag_apply-Good (λ m v. record m { encrypted = v }) adding (λ m v b. b))
      ]

  pub secure_only_apply-Good :
      (chan : Text) (uid : ℕ) (adding : Bool)
      → Good (Params.secure_only_apply chan key uid adding s)
  unfolding Params.secure_only_apply Good InBounds
  secure_only_apply-Good chan uid adding =
      elim (Bool-cases (adding && ltb 0 (length (Params.lacking (λ u. u.secure) key s)))) [
        | inl h ↦ rw (Params.secure_only_apply, h) ok
        | inr h ↦
            rw (Params.secure_only_apply, h)
              (flag_apply-Good (λ m v. record m { secure_only = v }) adding (λ m v b. b))
      ]
