-- ===== src/Mode/UserModes.antt =====
-- src/mode.rs: the handlers of the user modes, and src/modules/operprefix.rs.
use echoi_rcd.Prelude.{
  ℕ, Bool, true, false, not, ◌&&◌, List, [], ◌∷◌, ◌++◌, Option, none, some, Text, codes,
  if◌then◌else◌, ◌==◌, get_or, map_option, get, modify, contains_key, is_nil, find, nat_key,
  text_key,
}
use echoi_rcd.Channel.Member.{Member, oprefix, set_bit, pfx_oper}
use echoi_rcd.Server.Users.{User, UserFlags, host_display, prefix}
use echoi_rcd.Server.State.{Server, Effect, emit, is_oper, can_use_mode}
use echoi_rcd.Mode.Numerics.{err_noprivileges, rpl_hosthidden}
use echoi_rcd.Mode.Members.{find_member, modify_member}

abbrev pub default_snomask : Text
default_snomask = codes "acdfgjklnoqrtuvwx"

-- The handlers by their kind. The others are one of a kind.
pub data UserMode : Type 0 where
  flag : ℕ → (UserFlags → Bool → UserFlags) → UserMode
  oper_flag : ℕ → (UserFlags → Bool → UserFlags) → UserMode
  oper : UserMode
  cloak : UserMode
  registered : UserMode
  serv_protect : UserMode

abbrev pub letter : UserMode → ℕ
letter (flag ch set) = ch
letter (oper_flag ch set) = ch
letter oper = b'o'
letter cloak = b'x'
letter registered = b'r'
letter serv_protect = b'k'

unfoldable pub set_snomask : UserFlags → Bool → UserFlags
set_snomask f v = record f { snomask = v; snomask_cats = if v then default_snomask else [] }

unfoldable pub user_modes : List UserMode
user_modes =
    flag b'i' (λ f v. record f { invisible = v })
    ∷ flag b'w' (λ f v. record f { wallops = v })
    ∷ oper_flag b'h' (λ f v. record f { helpop = v })
    ∷ oper
    ∷ cloak
    ∷ flag b'B' (λ f v. record f { bot = v })
    ∷ flag b'D' (λ f v. record f { deaf = v })
    ∷ flag b'I' (λ f v. record f { hidechans = v })
    ∷ oper_flag b'H' (λ f v. record f { hideoper = v })
    ∷ flag b'R' (λ f v. record f { reg_only_pm = v })
    ∷ registered
    ∷ serv_protect
    ∷ flag b'z' (λ f v. record f { ssl_pm = v })
    ∷ flag b'T' (λ f v. record f { noctcp = v })
    ∷ oper_flag b's' set_snomask
    ∷ flag b'g' (λ f v. record f { callerid = v })
    ∷ oper_flag b'W' (λ f v. record f { showwhois = v })
    ∷ flag b'c' (λ f v. record f { deny_uncommon = v })
    ∷ []

unfoldable pub user_mode : ℕ → Option UserMode
unfolding user_modes
user_mode c = find (λ m. letter m == c) user_modes

-- A change of the flags through `get_mut` of the user.
abbrev pub set_flags : ℕ → (UserFlags → UserFlags) → Server → Server
set_flags uid f s = record s { users = modify uid (λ u. record u { flags = f u.flags }) s.users }

abbrev pub uflag_apply : (UserFlags → UserFlags) → ℕ → Server → Bool × Server
uflag_apply f uid s = if contains_key uid s.users then (true, set_flags uid f s) else (false, s)

unfoldable pub oper_only_apply :
    ℕ → (UserFlags → Bool → UserFlags) → ℕ → Bool → Server → Bool × Server
oper_only_apply ch set uid adding s =
    if adding && not (is_oper s uid)
    then (
      false,
      emit
          (Effect.numeric uid err_noprivileges
            (codes ":Permission Denied- You're not an IRC operator"))
          s,
    )
    else if adding && (not s.mode_sudo && not (can_use_mode s uid ch false))
    then (
      false,
      emit
          (Effect.numeric uid err_noprivileges
            (codes ":Permission Denied- your oper type may not set that user mode"))
          s,
    )
    else uflag_apply (λ f. set f adding) uid s

-- `operprefix::set`: the prefix of the staff in a channel, with a line if it changed.
abbrev pub has_other : Bool → Option Member → Bool
has_other on none = false
has_other on (some m) = if oprefix m then not on else on

abbrev oper_prefix_line : Text → Text → Text → Bool → Text
oper_prefix_line source name nick on =
    b':'
    ∷ (source
        ++ (codes " MODE " ++ (name ++ b' ' ∷ (if on then b'+' else b'-') ∷ b'y' ∷ b' ' ∷ nick)))

unfoldable pub set_oper_prefix : ℕ → Bool → Text → Server → Server
set_oper_prefix uid on key s = elim (get uid s.users) [
  | none ↦ s
  | some u ↦
      let name = get_or (map_option (λ c. c.name) (get key s.channels)) [] in
      let changed = record s {
        channels = modify_member key uid (λ m. set_bit m pfx_oper on) s.channels;
        out =
            Effect.propagate_chan_mode s.sid name ((if on then b'+' else b'-') ∷ b'y' ∷ [])
              (u.nick ∷ [])
            ∷ Effect.to_channel key (oper_prefix_line s.name name u.nick on) none
            ∷ s.out;
      } in
      if has_other on (find_member key uid s.channels) then changed else s
]

abbrev pub clear_each : ℕ → List Text → Server → Server
clear_each uid [] s = s
clear_each uid (key ∷ rest) s = clear_each uid rest (set_oper_prefix uid false key s)

-- In every channel of the user.
abbrev pub clear_all : ℕ → Server → Server
clear_all uid s = clear_each uid (get_or (map_option (λ u. u.channels) (get uid s.users)) []) s

unfoldable pub oper_apply : ℕ → Bool → Server → Bool × Server
oper_apply uid true s = (false, s)
oper_apply uid false s =
    if contains_key uid s.users
    then (true, clear_all uid (set_flags uid (λ f. record f { oper = false }) s))
    else (false, s)

abbrev pub with_cloak : Bool → User → User
with_cloak adding u = record u { flags = record u.flags { cloak = adding } }

unfoldable pub cloak_apply : ℕ → Bool → Server → Bool × Server
cloak_apply uid adding s = elim (get uid s.users) [
  | none ↦ (false, s)
  | some u ↦
      let disp = host_display (with_cloak adding u) in
      if is_nil u.cloak
      then (false, s)
      else if not adding && not (is_oper s uid)
      then (
        false,
        emit
            (Effect.numeric uid err_noprivileges
              (codes ":Only operators may remove the +x host cloak"))
            s,
      )
      else (
        true,
        record s {
          users = modify uid (with_cloak adding) s.users;
          out =
              Effect.numeric uid rpl_hosthidden (disp ++ codes " :is now your displayed host")
              ∷ Effect.notify_peers uid
                  (b':' ∷ (prefix u ++ (codes " CHGHOST " ++ (u.ident ++ b' ' ∷ disp))))
                  (λ v. v.chghost)
              ∷ s.out;
        },
      )
]

unfoldable pub serv_protect_apply : ℕ → Bool → Server → Bool × Server
serv_protect_apply uid adding s =
    if s.mode_sudo then uflag_apply (λ f. record f { servprotect = adding }) uid s else (false, s)

-- Whether the change took effect, and the state after.
unfoldable pub user_apply : UserMode → ℕ → Bool → Server → Bool × Server
user_apply (flag ch set) uid adding s = uflag_apply (λ f. set f adding) uid s
user_apply (oper_flag ch set) uid adding s = oper_only_apply ch set uid adding s
user_apply oper uid adding s = oper_apply uid adding s
user_apply cloak uid adding s = cloak_apply uid adding s
user_apply registered uid adding s = (false, s)
user_apply serv_protect uid adding s = serv_protect_apply uid adding s
