-- ===== src/Server/State.antt =====
-- src/server.rs: the state that the handlers share, and the configuration. The record holds the
-- fields that the modelled code reads or writes. What the code sends, and what it tells to parts
-- that are not modelled, is the list `out`, the last entry first.
use echoi_rcd.Prelude.{
  ℕ, Bool, true, false, not, List, [], ◌∷◌, Option, none, some, Text, codes, get, get_or,
  parse_uint, max_u64, ◌>>=◌, to_lower, text_key, nat_key, text_eq, any, map_option, contains_key,
  if◌then◌else◌,
}
use echoi_rcd.Channel.Record.{Channel}
use echoi_rcd.Server.Users.{User, allows, user_has_priv}
use echoi_rcd.XLine.Kinds.{XLine}

-- `propagate` is a line for the linked servers, with the link that is left out.
pub data Effect : Type 0 where
  numeric : ℕ → ℕ → Text → Effect
  send : ℕ → Text → Effect
  propagate : Text → Option ℕ → Effect
  snotice_c : ℕ → Text → Effect
  publish_event : List Text → Effect
  save_xlines : List XLine → Effect
  count_disconnect : Text → Option Text → Effect
  note_removed_unreg : Effect
  to_channel : Text → Text → Option ℕ → Effect
  notify_peers : ℕ → Text → (User → Bool) → Effect
  propagate_chan_mode : Text → Text → Text → List Text → Effect
  propagate_from_user : ℕ → Text → Effect
  record_event : Text → Text → Effect
  propagate_join : ℕ → Text → Bool → Effect
  propagate_part : ℕ → Text → Text → Effect
  propagate_kick : ℕ → Text → Text → Text → Effect
  propagate_topic : ℕ → Text → Text → Effect
  send_names : ℕ → Text → Effect
  replay_chanhistory : ℕ → Text → Effect
  rekey_channel_state : Text → Text → Effect
  hook_join : ℕ → Text → Effect
  hook_part : ℕ → Text → Text → Effect

pub record WhowasEntry : Type 0 where
  pub nick : Text
  pub ident : Text
  pub host : Text
  pub realname : Text
  pub account : Option Text
  pub ts : ℕ

pub record Server : Type 0 where
  pub name : Text
  pub sid : Text
  pub users : List (ℕ × User)
  pub nick_index : List (Text × ℕ)
  pub channels : List (Text × Channel)
  pub uuid_local : List (Text × ℕ)
  pub whowas : List WhowasEntry
  pub xlines : List XLine
  pub mode_sudo : Bool
  pub raw_config : List (Text × List Text)
  pub accepted_nicks : List (Text × ℕ)
  pub watch_by : List (Text × List ℕ)
  pub monitor_by : List (Text × List ℕ)
  pub redis_active : Bool
  pub clock : ℕ
  pub out : List Effect

abbrev pub emit : Effect → Server → Server
emit e s = record s { out = e ∷ s.out }

abbrev last : List Text → Option Text
last [] = none
last (v ∷ []) = some v
last (v ∷ w ∷ vs) = last (w ∷ vs)

abbrev pub conf : Server → Text → Option Text
conf s key = get key s.raw_config >>= last

abbrev pub conf_num : Server → Text → ℕ → ℕ
conf_num s key default = get_or (conf s key >>= parse_uint max_u64) default

-- Every value that is set for a key.
abbrev pub conf_all : Server → Text → List Text
conf_all s key = get_or (get key s.raw_config) []

-- A switch is on unless its value is one of four words.
abbrev pub yesish : Text → Bool
yesish v =
    let low = to_lower v in
    not (any (λ w. text_eq w low) (codes "off" ∷ codes "no" ∷ codes "false" ∷ codes "0" ∷ []))

abbrev pub conf_bool : Server → Text → Bool → Bool
conf_bool s key default = get_or (map_option yesish (conf s key)) default

abbrev pub is_oper : Server → ℕ → Bool
is_oper s uid = get_or (map_option (λ u. u.flags.oper) (get uid s.users)) false

abbrev pub has_priv : Server → ℕ → Text → Bool
has_priv s uid name = get_or (map_option (λ u. user_has_priv u name) (get uid s.users)) false

abbrev pub is_member : Server → ℕ → Text → Bool
is_member s uid key =
    get_or (map_option (λ ch. contains_key uid ch.members) (get key s.channels)) false

-- Whether the type of an operator, if it has one, may set a mode of a channel or a user.
abbrev pub can_use_mode : Server → ℕ → ℕ → Bool → Bool
can_use_mode s uid letter chan = elim (get uid s.users >>= (λ u. u.oper_type)) [
  | none ↦ true
  | some t ↦ allows (if chan then t.chanmodes else t.usermodes) letter
]

abbrev pub find_nick : Server → Text → Option ℕ
find_nick s nick = get (to_lower nick) s.nick_index
