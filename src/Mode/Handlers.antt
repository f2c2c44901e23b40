-- ===== src/Mode/Handlers.antt =====
-- src/mode.rs: the table of the channel modes, and what a handler does.
use echoi_rcd.Prelude.{ℕ, Bool, true, false, List, [], ◌∷◌, ◌++◌, map, Option, Text, ◌==◌, find}
use echoi_rcd.Channel.Prefixes.{PrefixCfg}
use echoi_rcd.Channel.Member.{rank_owner, rank_admin, rank_op, rank_halfop, rank_voice}
use echoi_rcd.Channel.Modes.{ChanModes}
use echoi_rcd.Server.State.{Server}
use echoi_rcd.Mode.Prefix.{Prefix, Applied, prefix_apply}
use echoi_rcd.Mode.Params
use echoi_rcd.Mode.ListModes.{ListKind, list_apply}

-- The handlers by their kind. The others are one of a kind.
pub data ChanMode : Type 0 where
  prefix_mode : Prefix → ChanMode
  flag : ℕ → (ChanModes → Bool → ChanModes) → ChanMode
  oper_flag : ℕ → (ChanModes → Bool → ChanModes) → ChanMode
  list_mode : ℕ → ListKind → ChanMode
  registered_chan : ChanMode
  encrypted : ChanMode
  secure_only : ChanMode
  key_mode : ChanMode
  limit : ChanMode
  chan_history : ChanMode
  msg_flood : ChanMode
  join_flood : ChanMode
  nick_flood : ChanMode
  slow_mode : ChanMode
  redirect : ChanMode
  anti_caps : ChanMode
  kick_no_rejoin : ChanMode
  delay_msg : ChanMode
  repeat_mode : ChanMode

abbrev pub letter : ChanMode → ℕ
letter (prefix_mode p) = p.ch
letter (flag ch set) = ch
letter (oper_flag ch set) = ch
letter (list_mode ch kind) = ch
letter registered_chan = b'r'
letter encrypted = b'E'
letter secure_only = b'z'
letter key_mode = b'k'
letter limit = b'l'
letter chan_history = b'H'
letter msg_flood = b'f'
letter join_flood = b'j'
letter nick_flood = b'F'
letter slow_mode = b'W'
letter redirect = b'L'
letter anti_caps = b'B'
letter kick_no_rejoin = b'J'
letter delay_msg = b'd'
letter repeat_mode = b'K'

abbrev pub wants_param : ChanMode → Bool → Bool
wants_param (prefix_mode p) adding = true
wants_param (flag ch set) adding = false
wants_param (oper_flag ch set) adding = false
wants_param (list_mode ch kind) adding = true
wants_param registered_chan adding = false
wants_param encrypted adding = false
wants_param secure_only adding = false
wants_param key_mode adding = true
wants_param other adding = adding

abbrev pub is_list : ChanMode → Bool
is_list (list_mode ch kind) = true
is_list other = false

abbrev pub is_prefix : ChanMode → Bool
is_prefix (prefix_mode p) = true
is_prefix other = false

abbrev pub tier : ℕ → ℕ → ChanMode
tier ch rank = prefix_mode (record { ch = ch; rank = rank })

unfoldable pub chan_modes : List ChanMode
chan_modes =
    tier b'q' rank_owner
    ∷ tier b'a' rank_admin
    ∷ tier b'o' rank_op
    ∷ tier b'h' rank_halfop
    ∷ tier b'v' rank_voice
    ∷ list_mode b'b' ListKind.ban
    ∷ list_mode b'e' ListKind.except
    ∷ list_mode b'I' ListKind.invex
    ∷ key_mode
    ∷ limit
    ∷ slow_mode
    ∷ registered_chan
    ∷ flag b'm' (λ m v. record m { moderated = v })
    ∷ flag b'n' (λ m v. record m { no_external = v })
    ∷ flag b't' (λ m v. record m { topic_ops = v })
    ∷ flag b'i' (λ m v. record m { invite_only = v })
    ∷ flag b's' (λ m v. record m { secret = v })
    ∷ secure_only
    ∷ flag b'p' (λ m v. record m { private = v })
    ∷ oper_flag b'O' (λ m v. record m { oper_only = v })
    ∷ flag b'N' (λ m v. record m { no_nick = v })
    ∷ flag b'C' (λ m v. record m { no_ctcp = v })
    ∷ flag b'T' (λ m v. record m { no_notice = v })
    ∷ flag b'c' (λ m v. record m { no_color = v })
    ∷ flag b'S' (λ m v. record m { strip_color = v })
    ∷ flag b'R' (λ m v. record m { reg_only = v })
    ∷ flag b'M' (λ m v. record m { reg_moderated = v })
    ∷ flag b'G' (λ m v. record m { censor = v })
    ∷ flag b'u' (λ m v. record m { auditorium = v })
    ∷ encrypted
    ∷ list_mode b'g' ListKind.filter
    ∷ msg_flood
    ∷ join_flood
    ∷ nick_flood
    ∷ redirect
    ∷ chan_history
    ∷ anti_caps
    ∷ flag b'Q' (λ m v. record m { nokicks = v })
    ∷ flag b'A' (λ m v. record m { allowinvite = v })
    ∷ oper_flag b'P' (λ m v. record m { permanent = v })
    ∷ kick_no_rejoin
    ∷ flag b'U' (λ m v. record m { opmoderated = v })
    ∷ delay_msg
    ∷ repeat_mode
    ∷ list_mode b'X' ListKind.exempt_chan_ops
    ∷ list_mode b'w' ListKind.auto_op
    ∷ flag b'D' (λ m v. record m { delayjoin = v })
    ∷ []

-- The custom prefixes of the configuration come after the table.
unfoldable pub chan_mode : PrefixCfg → ℕ → Option ChanMode
unfolding chan_modes
chan_mode cfg c =
    find (λ m. letter m == c) (chan_modes ++ map (λ d. tier d.letter d.rank) cfg.custom)

unfoldable pub mode_apply :
    PrefixCfg
    → (Text → Text)
    → ChanMode
    → Text
    → Text
    → ℕ
    → Bool
    → Option Text
    → Server
    → Applied × Server
mode_apply cfg catalog (prefix_mode p) chan key uid adding param s =
    prefix_apply cfg p chan key uid adding param s
mode_apply cfg catalog (flag ch set) chan key uid adding param s =
    Params.flag_apply set key adding s
mode_apply cfg catalog (oper_flag ch set) chan key uid adding param s =
    Params.oper_flag_apply ch set chan key uid adding s
mode_apply cfg catalog (list_mode ch kind) chan key uid adding param s =
    list_apply cfg catalog ch kind chan key uid adding param s
mode_apply cfg catalog registered_chan chan key uid adding param s =
    Params.registered_apply chan key uid adding s
mode_apply cfg catalog encrypted chan key uid adding param s =
    Params.encrypted_apply chan key uid adding s
mode_apply cfg catalog secure_only chan key uid adding param s =
    Params.secure_only_apply chan key uid adding s
mode_apply cfg catalog key_mode chan key uid adding param s = Params.key_apply key adding param s
mode_apply cfg catalog limit chan key uid adding param s = Params.limit_apply key adding param s
mode_apply cfg catalog chan_history chan key uid adding param s =
    Params.history_apply key adding param s
mode_apply cfg catalog msg_flood chan key uid adding param s = Params.flood_apply key adding param s
mode_apply cfg catalog join_flood chan key uid adding param s =
    Params.joinflood_apply key adding param s
mode_apply cfg catalog nick_flood chan key uid adding param s =
    Params.nickflood_apply key adding param s
mode_apply cfg catalog slow_mode chan key uid adding param s =
    Params.slowmode_apply key adding param s
mode_apply cfg catalog redirect chan key uid adding param s =
    Params.redirect_apply chan key adding param s
mode_apply cfg catalog anti_caps chan key uid adding param s =
    Params.anticaps_apply key adding param s
mode_apply cfg catalog kick_no_rejoin chan key uid adding param s =
    Params.kicknorejoin_apply key adding param s
mode_apply cfg catalog delay_msg chan key uid adding param s =
    Params.delaymsg_apply key adding param s
mode_apply cfg catalog repeat_mode chan key uid adding param s =
    Params.repeat_apply key adding param s
