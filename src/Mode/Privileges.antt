-- ===== src/Mode/Privileges.antt =====
-- What a user that is no operator can do to its own modes.
use echoi_rcd.Prelude.{
  ℕ, Bool, true, false, not, ◌||◌, ◌&&◌, List, [], ◌∷◌, Option, some, Text, get, get_or, get-modify,
  map_option, contains_key, is_nil, ==_refl, ◌==◌, eq_ignore_case, find-All, All, ◌≡◌, refl, arith,
  Bool-cases, Option-cases, inl, inr, nat_key, text_key,
}
use echoi_rcd.Server.Users.{User, UserFlags}
use echoi_rcd.Server.State.{Server, is_oper, can_use_mode}
use echoi_rcd.Mode.Members.{find_member}
use echoi_rcd.Mode.UserModes.{
  UserMode, letter, user_modes, user_mode, set_flags, uflag_apply, oper_only_apply, set_oper_prefix,
  clear_each, has_other, oper_apply, cloak_apply, serv_protect_apply, user_apply, set_snomask,
}
use echoi_rcd.Mode.Dispatch.{is_sign, take_param}
use echoi_rcd.Mode.UserDispatch.{
  UserLoop, took_effect, apply_snomask, snomask_letter, user_letter, user_letters, apply_user_modes,
  tell_user, user_start, nick_of,
}

abbrev implies : Bool → Bool → Bool
implies a b = not a || b

-- No flag that is for operators, or for services, is on that was off before.
abbrev pub Tame : UserFlags → UserFlags → Type 0
Tame f g =
    (implies g.oper f.oper ≡ true)
    × (implies g.helpop f.helpop ≡ true)
    × (implies g.hideoper f.hideoper ≡ true)
    × (implies g.showwhois f.showwhois ≡ true)
    × (implies g.snomask f.snomask ≡ true)
    × (implies g.servprotect f.servprotect ≡ true)
    × (implies g.logged_in f.logged_in ≡ true)

-- A flag of everyone leaves these alone, and one of operators can be cleared.
abbrev Harmless : UserMode → Type 0
Harmless (UserMode.flag ch set) = (f g : UserFlags) (v : Bool) → Tame f g → Tame f (set g v)
Harmless (UserMode.oper_flag ch set) = (f g : UserFlags) → Tame f g → Tame f (set g false)
Harmless other = Unit

helpop_cleared : (f g : UserFlags) → Tame f g → Tame f (record g { helpop = false })
helpop_cleared f g b = (b.0, refl, b.2, b.3, b.4, b.5, b.6)

hideoper_cleared : (f g : UserFlags) → Tame f g → Tame f (record g { hideoper = false })
hideoper_cleared f g b = (b.0, b.1, refl, b.3, b.4, b.5, b.6)

showwhois_cleared : (f g : UserFlags) → Tame f g → Tame f (record g { showwhois = false })
showwhois_cleared f g b = (b.0, b.1, b.2, refl, b.4, b.5, b.6)

snomask_cleared :
    (f g : UserFlags) → Tame f g → Tame f (record g { snomask = false; snomask_cats = [] })
snomask_cleared f g b = (b.0, b.1, b.2, b.3, refl, b.5, b.6)

user_modes-Harmless : All Harmless user_modes
unfolding user_modes set_snomask
user_modes-Harmless = search (helpop_cleared, hideoper_cleared, showwhois_cleared, snomask_cleared)

implies_refl : (a : Bool) → implies a a ≡ true
implies_refl a = ground arith

Tame-refl : (f : UserFlags) → Tame f f
Tame-refl f = (
  implies_refl f.oper,
  implies_refl f.helpop,
  implies_refl f.hideoper,
  implies_refl f.showwhois,
  implies_refl f.snomask,
  implies_refl f.servprotect,
  implies_refl f.logged_in,
)

module _ (uid : ℕ) (before : UserFlags) (plain : before.oper ≡ false) where
  -- The user is there, and got nothing that is not its own.
  Held : Server → Type 0
  Held s = (s.mode_sudo ≡ false) × ((u : User) × (get uid s.users ≡ some u) × Tame before u.flags)

  not_oper : (s : Server) → Held s → is_oper s uid ≡ false
  unfolding Held
  not_oper s ok = rw (ok.1.1) (ground arith)

  set_flags-Held :
      (f : UserFlags → UserFlags) (s : Server)
      → ((g : UserFlags) → Tame before g → Tame before (f g))
      → Held s
      → Held (set_flags uid f s)
  unfolding Held
  set_flags-Held f s tame ok = (
    ok.0,
    (
      record ok.1.0 { flags = f ok.1.0.flags },
      rw (get-modify uid uid (λ u. record u { flags = f u.flags }) s.users, ==_refl uid, ok.1.1)
          refl,
      tame ok.1.0.flags ok.1.2,
    ),
  )

  uflag_apply-Held :
      (f : UserFlags → UserFlags) (s : Server)
      → ((g : UserFlags) → Tame before g → Tame before (f g))
      → Held s
      → Held (uflag_apply f uid s).1
  unfolding Held
  uflag_apply-Held f s tame ok = elim (Bool-cases (contains_key uid s.users)) [
    | inl h ↦ rw (h) (set_flags-Held f s tame ok)
    | inr h ↦ rw (h) ok
  ]

  oper_only_apply-Held :
      (ch : ℕ) (set : UserFlags → Bool → UserFlags) (adding : Bool) (s : Server)
      → ((g : UserFlags) → Tame before g → Tame before (set g false))
      → Held s
      → Held (oper_only_apply ch set uid adding s).1
  unfolding oper_only_apply Held
  oper_only_apply-Held ch set true s tame ok = rw (oper_only_apply, not_oper s ok) ok
  oper_only_apply-Held ch set false s tame ok = uflag_apply-Held (λ f. set f false) s tame ok

  set_oper_prefix-Held :
      (on : Bool) (key : Text) (s : Server) → Held s → Held (set_oper_prefix uid on key s)
  unfolding set_oper_prefix Held
  set_oper_prefix-Held on key s ok =
      elim (Bool-cases (has_other on (find_member key uid s.channels))) [
        | inl h ↦ rw (set_oper_prefix, ok.1.1, h) ok
        | inr h ↦ rw (set_oper_prefix, ok.1.1, h) ok
      ]

  clear_each-Held : (chans : List Text) (s : Server) → Held s → Held (clear_each uid chans s)
  clear_each-Held [] s ok = ok
  clear_each-Held (key ∷ rest) s ok =
      clear_each-Held rest (set_oper_prefix uid false key s) (set_oper_prefix-Held false key s ok)

  oper_apply-Held : (adding : Bool) (s : Server) → Held s → Held (oper_apply uid adding s).1
  unfolding oper_apply Held
  oper_apply-Held true s ok = ok
  oper_apply-Held false s ok = elim (Bool-cases (contains_key uid s.users)) [
    | inl h ↦
        let t = set_flags uid (λ f. record f { oper = false }) s in
        rw (oper_apply, h)
          (clear_each-Held (get_or (map_option (λ u. u.channels) (get uid t.users)) []) t (
            set_flags-Held (λ f. record f { oper = false }) s
              (λ g b. (refl, b.1, b.2, b.3, b.4, b.5, b.6)) ok))
    | inr h ↦ rw (oper_apply, h) ok
  ]

  cloak_apply-Held : (adding : Bool) (s : Server) → Held s → Held (cloak_apply uid adding s).1
  unfolding cloak_apply Held
  cloak_apply-Held adding s ok = elim (Bool-cases (is_nil ok.1.0.cloak)) [
    | inl h ↦ rw (cloak_apply, ok.1.1, h) ok
    | inr h ↦ elim (Bool-cases (not adding && not (is_oper s uid))) [
      | inl e ↦ rw (cloak_apply, ok.1.1, h, e) ok
      | inr e ↦
          rw (cloak_apply, ok.1.1, h, e)
            (set_flags-Held (λ f. record f { cloak = adding }) s (λ g b. b) ok)
    ]
  ]

  serv_protect_apply-Held :
      (adding : Bool) (s : Server) → Held s → Held (serv_protect_apply uid adding s).1
  unfolding serv_protect_apply Held
  serv_protect_apply-Held adding s ok = rw (serv_protect_apply, ok.0) (refl, ok.1)

  user_apply-Held :
      (h : UserMode) (adding : Bool) (s : Server)
      → Harmless h
      → Held s
      → Held (user_apply h uid adding s).1
  unfolding user_apply
  user_apply-Held (UserMode.flag ch set) adding s tame ok =
      uflag_apply-Held (λ f. set f adding) s (λ g. tame before g adding) ok
  user_apply-Held (UserMode.oper_flag ch set) adding s tame ok =
      oper_only_apply-Held ch set adding s (tame before) ok
  user_apply-Held UserMode.oper adding s tame ok = oper_apply-Held adding s ok
  user_apply-Held UserMode.cloak adding s tame ok = cloak_apply-Held adding s ok
  user_apply-Held UserMode.registered adding s tame ok = ok
  user_apply-Held UserMode.serv_protect adding s tame ok = serv_protect_apply-Held adding s ok

  took_effect-Held :
      (c : ℕ) (done : Bool × Server) (l : UserLoop)
      → Held done.1
      → Held (took_effect c done l).server
  took_effect-Held c (true, s) l ok = ok
  took_effect-Held c (false, s) l ok = ok

  apply_snomask-Held :
      (adding : Bool) (param : Option Text) (s : Server)
      → Held s
      → Held (apply_snomask uid adding param s).1
  unfolding apply_snomask Held
  apply_snomask-Held adding param s ok = rw (apply_snomask, not_oper s ok) ok

  snomask_letter-Held : (l : UserLoop) → Held l.server → Held (snomask_letter uid l).server
  unfolding snomask_letter Held
  snomask_letter-Held l ok =
      let adding = l.sign == b'+' in
      let taken = take_param adding l.args in
      elim (Bool-cases
        (adding && (not l.server.mode_sudo && not (can_use_mode l.server uid b's' false)))) [
          | inl h ↦ rw (snomask_letter, h) ok
          | inr h ↦
              rw (snomask_letter, h)
                (took_effect-Held b's' (apply_snomask uid adding taken.0 l.server)
                  (record l { args = taken.1 }) (apply_snomask-Held adding taken.0 l.server ok))
        ]

  user_letter-Held : (c : ℕ) (l : UserLoop) → Held l.server → Held (user_letter uid c l).server
  unfolding user_letter user_mode Held
  user_letter-Held c l ok = elim (Bool-cases (is_sign c)) [
    | inl b ↦ rw (user_letter, b) ok
    | inr b ↦ elim (Bool-cases (c == b's')) [
      | inl d ↦ rw (user_letter, b, d) (snomask_letter-Held l ok)
      | inr d ↦ elim (Option-cases (user_mode c)) [
        | inl e ↦ rw (user_letter, b, d, e) ok
        | inr (h, e) ↦
            rw (user_letter, b, d, e)
              (took_effect-Held c (user_apply h uid (l.sign == b'+') l.server) l (
                user_apply-Held h (l.sign == b'+') l.server
                  (find-All (λ m. letter m == c) Harmless user_modes h user_modes-Harmless e).1 ok))
      ]
    ]
  ]

  user_letters-Held :
      (cs : Text) (l : UserLoop) → Held l.server → Held (user_letters uid cs l).server
  unfolding user_letters
  user_letters-Held [] l ok = ok
  user_letters-Held (c ∷ cs) l ok =
      user_letters-Held cs (user_letter uid c l) (user_letter-Held c l ok)

  tell_user-Held : (me done : Text) (s : Server) → Held s → Held (tell_user uid me done s)
  unfolding Held
  tell_user-Held me done s ok = elim (Bool-cases (is_nil done)) [
    | inl h ↦ rw (h) ok
    | inr h ↦ rw (h) ok
  ]

  apply_user_modes-Held :
      (target : Text) (params : List Text) (s : Server)
      → Held s
      → Held (apply_user_modes uid target params s).1
  unfolding apply_user_modes Held
  apply_user_modes-Held target [] s ok =
      elim (Bool-cases (not (eq_ignore_case target (nick_of uid s)))) [
        | inl h ↦ rw (apply_user_modes, h) ok
        | inr h ↦ rw (apply_user_modes, h) ok
      ]
  apply_user_modes-Held target (modestring ∷ args) s ok =
      elim (Bool-cases (not (eq_ignore_case target (nick_of uid s)))) [
        | inl h ↦ rw (apply_user_modes, h) ok
        | inr h ↦
            let l = user_letters uid modestring (user_start s args) in
            rw (apply_user_modes, h)
              (tell_user-Held (nick_of uid s) l.applied l.server
                (user_letters-Held modestring (user_start s args) ok))
      ]

-- MODE by a user that is no operator, on a server that does not act with its own authority, turns
-- on neither its operator flag, nor that of a login, nor one of the flags that are for operators
-- or services; the user is still there.
pub apply_user_modes-Tame :
    (uid : ℕ) (target : Text) (params : List Text) (s : Server) (u : User)
    → s.mode_sudo ≡ false
    → get uid s.users ≡ some u
    → u.flags.oper ≡ false
    → (v : User) × (get uid (apply_user_modes uid target params s).1.users ≡ some v)
      × Tame u.flags v.flags
unfolding Held
apply_user_modes-Tame uid target params s u sudo found plain =
    (apply_user_modes-Held uid u.flags plain target params s
      (sudo, (u, found, Tame-refl u.flags))).1
