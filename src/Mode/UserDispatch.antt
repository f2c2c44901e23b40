-- ===== src/Mode/UserDispatch.antt =====
-- src/coremods/core_mode.rs: MODE for users, the mask of server notices, and SVSMODE.
use echoi_rcd.Prelude.{
  ℕ, Bool, true, false, not, ◌&&◌, List, [], ◌∷◌, ◌++◌, Option, none, some, Text, codes,
  if◌then◌else◌, ltb, ◌==◌, get_or, map_option, is_nil, get, contains, without, eq_ignore_case,
  starts_with_char, nat_key, text_key,
}
use echoi_rcd.Channel.Prefixes.{PrefixCfg}
use echoi_rcd.Server.Users.{umodes}
use echoi_rcd.Server.State.{Server, Effect, emit, is_oper, can_use_mode}
use echoi_rcd.Mode.Numerics
use echoi_rcd.Mode.UserModes.{user_mode, user_apply, set_flags, default_snomask}
use echoi_rcd.Mode.Dispatch.{CmdResult, is_sign, emit_mode, take_param, apply_channel_mode}

-- The letters of a mask as a `BTreeSet`, in order.
abbrev put : ℕ → List ℕ → List ℕ
put c [] = c ∷ []
put c (d ∷ ds) =
    let later = put c ds in if c == d then d ∷ ds else if ltb c d then c ∷ d ∷ ds else d ∷ later

abbrev collect : Text → List ℕ
collect [] = []
collect (c ∷ cs) = put c (collect cs)

abbrev edit_one : ℕ → ℕ → List ℕ → List ℕ
edit_one sign c cats =
    if c == b'*'
    then (if sign == b'+' then collect default_snomask else [])
    else if contains c default_snomask
    then (if sign == b'+' then put c cats else without c cats)
    else cats

-- `+cq` adds letters, `-c` takes them away, and a star stands for all.
unfoldable pub edit_mask : ℕ → Text → List ℕ → List ℕ
edit_mask sign [] cats = cats
edit_mask sign (c ∷ cs) cats =
    edit_mask (if is_sign c then c else sign) cs (if is_sign c then cats else edit_one sign c cats)

unfoldable pub new_mask : Bool → Option Text → List ℕ → List ℕ
new_mask false param cats = []
new_mask true none cats = collect default_snomask
new_mask true (some p) cats = edit_mask b'+' p cats

unfoldable pub apply_snomask : ℕ → Bool → Option Text → Server → Bool × Server
apply_snomask uid adding param s =
    let cats = collect (get_or (map_option (λ u. u.flags.snomask_cats) (get uid s.users)) []) in
    let mask = new_mask adding param cats in
    let on = not (is_nil mask) in
    if not (is_oper s uid)
    then (
      false,
      emit
          (Effect.numeric uid Numerics.err_noprivileges
            (codes ":Permission denied - only operators may set a server notice mask"))
          s,
    )
    else (
      if adding then on else true,
      emit
          (Effect.numeric uid Numerics.rpl_snomaskis
            (b'+' ∷ (mask ++ codes " :Server notice mask")))
          (set_flags uid (λ f. record f { snomask = on; snomask_cats = mask }) s),
    )

-- The variables of the loop over the letters.
pub record UserLoop : Type 0 where
  pub sign : ℕ
  pub args : List Text
  pub applied : Text
  pub last : ℕ
  pub server : Server

abbrev pub user_start : Server → List Text → UserLoop
user_start s args = record { sign = b'+'; args = args; applied = []; last = b' '; server = s }

-- A letter is shown if it took effect.
abbrev pub took_effect : ℕ → Bool × Server → UserLoop → UserLoop
took_effect c (true, s) l = record l {
  applied = emit_mode l.last l.sign c l.applied;
  last = l.sign;
  server = s;
}
took_effect c (false, s) l = record l { server = s }

unfoldable pub snomask_letter : ℕ → UserLoop → UserLoop
snomask_letter uid l =
    let adding = l.sign == b'+' in
    let taken = take_param adding l.args in
    if adding && (not l.server.mode_sudo && not (can_use_mode l.server uid b's' false))
    then record l {
      args = taken.1;
      server =
          emit
            (Effect.numeric uid Numerics.err_noprivileges
              (codes ":Permission Denied- your oper type may not set that user mode"))
            l.server;
    }
    else took_effect b's' (apply_snomask uid adding taken.0 l.server) (record l { args = taken.1 })

unfoldable pub user_letter : ℕ → ℕ → UserLoop → UserLoop
user_letter uid c l =
    if is_sign c
    then record l { sign = c }
    else if c == b's'
    then snomask_letter uid l
    else elim (user_mode c) [
      | none ↦ record l {
        server =
            emit
              (Effect.numeric uid Numerics.err_umodeunknownflag
                (codes ":Unknown MODE flag " ++ c ∷ []))
              l.server;
      }
      | some h ↦ took_effect c (user_apply h uid (l.sign == b'+') l.server) l
    ]

unfoldable pub user_letters : ℕ → Text → UserLoop → UserLoop
user_letters uid [] l = l
user_letters uid (c ∷ cs) l = user_letters uid cs (user_letter uid c l)

abbrev pub nick_of : ℕ → Server → Text
nick_of uid s = get_or (map_option (λ u. u.nick) (get uid s.users)) []

abbrev uuid_of : ℕ → Server → Text
uuid_of uid s = get_or (map_option (λ u. u.uuid) (get uid s.users)) []

-- What the user and the links are told of the changes.
abbrev pub tell_user : ℕ → Text → Text → Server → Server
tell_user uid me done s =
    if is_nil done
    then s
    else emit (Effect.propagate_from_user uid (codes "MODE " ++ (uuid_of uid s ++ b' ' ∷ done)))
        (emit (Effect.send uid (b':' ∷ (me ++ (codes " MODE " ++ (me ++ (codes " :" ++ done)))))) s)

-- `params` are those after the target.
unfoldable pub apply_user_modes : ℕ → Text → List Text → Server → CmdResult × Server
apply_user_modes uid target params s =
    let me = nick_of uid s in
    if not (eq_ignore_case target me)
    then (
      CmdResult.ok,
      emit
          (Effect.numeric uid Numerics.err_usersdontmatch
            (codes ":Can't change mode for other users"))
          s,
    )
    else elim params [
      | [] ↦ (
        CmdResult.ok,
        emit
            (Effect.numeric uid Numerics.rpl_umodeis
              (get_or (map_option (λ u. umodes u.flags) (get uid s.users)) (codes "+")))
            s,
      )
      | modestring ∷ args ↦
          let l = user_letters uid modestring (user_start s args) in
          (CmdResult.ok, tell_user uid me l.applied l.server)
    ]

-- The loop of SVSMODE, which passes over unknown letters and takes no arguments.
unfoldable pub svs_user_letter : ℕ → ℕ → UserLoop → UserLoop
svs_user_letter tuid c l = if is_sign c then record l { sign = c } else elim (user_mode c) [
  | none ↦ l
  | some h ↦ took_effect c (user_apply h tuid (l.sign == b'+') l.server) l
]

unfoldable pub svs_user_letters : ℕ → Text → UserLoop → UserLoop
svs_user_letters tuid [] l = l
svs_user_letters tuid (c ∷ cs) l = svs_user_letters tuid cs (svs_user_letter tuid c l)

unfoldable pub svs_set_user_modes : ℕ → Text → Server → Server
svs_set_user_modes tuid modestring s =
    let l = svs_user_letters tuid modestring (user_start (record s { mode_sudo = true }) []) in
    let t = record l.server { mode_sudo = false } in tell_user tuid (nick_of tuid t) l.applied t

module _ (cfg : PrefixCfg) (catalog : Text → Text) where
  -- The body of MODE: a name with a hash is that of a channel.
  unfoldable pub apply_mode : ℕ → List Text → Server → CmdResult × Server
  apply_mode uid [] s = (CmdResult.panicked, s)
  apply_mode uid (target ∷ params) s =
      if starts_with_char b'#' target
      then apply_channel_mode cfg catalog target uid params s
      else apply_user_modes uid target params s
