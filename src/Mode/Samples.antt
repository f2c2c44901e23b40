-- ===== src/Mode/Samples.antt =====
-- Changes of modes on a channel with an owner and a plain member.
use echoi_rcd.Prelude.{
  ℕ, ◌≤◌, max, true, false, [], ◌∷◌, List, Option, none, some, Text, codes, ◌≡◌, refl, arith, get,
  nat_key, text_key, text_eq, length, Bool, map_option, modify, join, parse_uint, show_nat,
}
use echoi_rcd.Channel.Prefixes.{default_cfg}
use echoi_rcd.Channel.Modes.{set_by_letter}
use echoi_rcd.Channel.Member.{default_member, rank, builtin_rank, raise_rank, has_bit}
use echoi_rcd.Channel.Record.{Channel, new, keep_alive, is_empty}
use echoi_rcd.Server.Users.{User, default_flags}
use echoi_rcd.Server.State.{Server, conf_num}
use echoi_rcd.Mode.Members.{channel_rank}
use echoi_rcd.Mode.Prefix.{Applied}
use echoi_rcd.Mode.Params
use echoi_rcd.Mode.ListModes.{ListKind}
use echoi_rcd.Mode.Handlers.{ChanMode, chan_mode, chan_modes, mode_apply}
use echoi_rcd.Mode.Dispatch.{
  apply_channel_mode, is_barred, pure_list_query, change_modes, letters, one_letter, dispatch,
  announce, cull, max_modes, start,
}
use echoi_rcd.Mode.Hidden.{broadcast}
use echoi_rcd.Mode.UserDispatch.{apply_user_modes}
use echoi_rcd.Mode.Limits.{InBounds, AllInBounds}
use echoi_rcd.Mode.Authority.{apply_channel_mode-unauthorized}
use echoi_rcd.Mode.Bounds.{apply_channel_mode-AllInBounds}
use echoi_rcd.Mode.Bans.{listed, run_changes, replay, run_changes-listed}
use echoi_rcd.Mode.Letters.{mode_apply-set_by_letter}
use echoi_rcd.Mode.Privileges.{Tame, apply_user_modes-Tame}
use echoi_rcd.Mode.Caps.{length-changes-letters}
use echoi_rcd.Mode.Echo.{mode_apply-shown}

abbrev pub catalog : Text → Text
catalog english = english

abbrev pub ann : User
ann = record {
  uuid = codes "42XAAAAAA";
  nick = codes "Ann";
  ident = codes "ann";
  realname = codes "Ann";
  host = codes "a.example";
  cloak = [];
  vhost = none;
  account = none;
  signon = 10;
  nick_ts = 10;
  ip = codes "192.0.2.1";
  registered = true;
  class = none;
  channels = codes "#a" ∷ [];
  invited = [];
  watch = [];
  monitor = [];
  silence = [];
  signore = [];
  accept = [];
  extended_join = false;
  e2e = false;
  chghost = false;
  channel_rename = false;
  no_implicit_names = false;
  secure = true;
  oper_type = none;
  flags = default_flags;
}

abbrev pub channel : Channel
channel = record (new (codes "#a") 10) {
  members = (1, record default_member { prefixes = 16 }) ∷ (2, default_member) ∷ [];
}

abbrev pub server : Server
server = record {
  name = codes "hub.example";
  sid = codes "42X";
  users = (1, ann) ∷ (2, record ann { nick = codes "bob"; uuid = codes "42XAAAAAB" }) ∷ [];
  nick_index = (codes "ann", 1) ∷ (codes "bob", 2) ∷ [];
  channels = (codes "#a", channel) ∷ [];
  uuid_local = [];
  whowas = [];
  xlines = [];
  mode_sudo = false;
  raw_config = [];
  accepted_nicks = [];
  watch_by = [];
  monitor_by = [];
  redis_active = false;
  clock = 20;
  out = [];
}

abbrev sudo_server : Server
sudo_server = record server { mode_sudo = true }

found : get (codes "#a") server.channels ≡ some channel
unfolding get text_eq
found = refl

alive : (ch : Channel) → get (codes "#a") server.channels ≡ some ch → keep_alive ch ≡ true
unfolding get text_eq new keep_alive is_empty
alive ch h = ground arith

rank_of_bob : channel_rank default_cfg 2 (codes "#a") server ≡ 0
unfolding channel_rank get new text_eq rank builtin_rank raise_rank has_bit
rank_of_bob = refl

apply_channel_mode-unauthorized_example :
    (apply_channel_mode default_cfg catalog (codes "#A") 2 (codes "+m" ∷ []) server).1.channels
    ≡ server.channels
apply_channel_mode-unauthorized_example =
    apply_channel_mode-unauthorized default_cfg catalog (codes "#A") 2 (codes "+m" ∷ []) server
      (omega (arith, rank_of_bob)) alive

server-AllInBounds : AllInBounds server.channels
unfolding AllInBounds InBounds get text_eq new
server-AllInBounds k ch h = ground arith

apply_channel_mode-AllInBounds_example :
    AllInBounds
      (apply_channel_mode default_cfg catalog
        (codes "#a")
        1
        (codes "+lB" ∷ codes "5" ∷ codes "200" ∷ [])
        server).1.channels
apply_channel_mode-AllInBounds_example =
    apply_channel_mode-AllInBounds default_cfg catalog (codes "#a") 1
      (codes "+lB" ∷ codes "5" ∷ codes "200" ∷ []) server server-AllInBounds

abbrev bans : List (Bool × Text)
bans = (true, codes "Bob") ∷ (false, codes "bob!*@*") ∷ (true, codes "eve") ∷ []

run_changes-listed_example :
    listed ListKind.ban
      (codes "#a")
      (run_changes default_cfg catalog b'b' ListKind.ban
        (codes "#a")
        (codes "#a")
        1
        bans
        sudo_server)
      (codes "eve!*@*")
    ≡ replay default_cfg catalog b'b' ListKind.ban
        (codes "#a")
        (codes "#a")
        1
        bans
        (listed ListKind.ban (codes "#a") sudo_server)
        (codes "eve!*@*")
unfolding get text_eq
run_changes-listed_example =
    run_changes-listed default_cfg catalog b'b' ListKind.ban (codes "#a") (codes "#a") 1 bans
      sudo_server (refl, refl) (codes "eve!*@*")

moderated :
    chan_mode default_cfg b'm' ≡ some (ChanMode.flag b'm' (λ m v. record m { moderated = v }))
unfolding chan_mode chan_modes
moderated = refl

mode_apply-set_by_letter_example :
    (mode_apply default_cfg catalog
      (ChanMode.flag b'm' (λ m v. record m { moderated = v }))
      (codes "#a")
      (codes "#a")
      1
      true
      none
      server).1
    ≡ Params.set_modes (codes "#a") (λ m. set_by_letter m b'm' true) server
unfolding mode_apply
mode_apply-set_by_letter_example =
    mode_apply-set_by_letter default_cfg catalog b'm'
      (ChanMode.flag b'm' (λ m v. record m { moderated = v })) (codes "#a") (codes "#a") 1 true none
      none server moderated refl refl

apply_user_modes-Tame_example :
    (v : User) × (get 2 (apply_user_modes 2 (codes "bob") (codes "+oHx-i" ∷ []) server).1.users
      ≡ some v)
    × Tame default_flags v.flags
unfolding get
apply_user_modes-Tame_example =
    apply_user_modes-Tame 2 (codes "bob") (codes "+oHx-i" ∷ []) server
      (record ann { nick = codes "bob"; uuid = codes "42XAAAAAB" }) refl refl refl

length-changes-letters_example :
    length
      (letters default_cfg catalog
        (codes "#a")
        (codes "#a")
        1
        (max_modes default_cfg catalog server)
        (codes "+mtn")
        (start server [])).changes
    ≤ max (conf_num server (codes "modes") 20) 1
length-changes-letters_example =
    length-changes-letters default_cfg catalog (codes "#a") (codes "#a") 1 (codes "+mtn") [] server

repeat_shown :
    (mode_apply default_cfg catalog ChanMode.repeat_mode
      (codes "#a")
      (codes "#a")
      1
      true
      (some (codes "+99"))
      server).0
    ≡ Applied.applied (some (codes "20"))
unfolding mode_apply parse_uint show_nat
repeat_shown = refl

mode_apply-shown_example :
    mode_apply default_cfg catalog ChanMode.repeat_mode
      (codes "#a")
      (codes "#a")
      1
      true
      (some (codes "20"))
      server
    ≡ mode_apply default_cfg catalog ChanMode.repeat_mode
        (codes "#a")
        (codes "#a")
        1
        true
        (some (codes "+99"))
        server
unfolding mode_apply
mode_apply-shown_example =
    mode_apply-shown default_cfg catalog ChanMode.repeat_mode (codes "#a") (codes "#a") 1 true
      (codes "+99") (codes "20") server repeat_shown

-- The owner sets a limit and a filter of capitals, whose percentage is cut to 100.
limited :
    map_option {B = Option ℕ × Option ℕ}
      (λ c. (c.modes.limit, c.modes.anticaps))
      (get
        (codes "#a")
        (apply_channel_mode default_cfg catalog
          (codes "#a")
          1
          (codes "+lB" ∷ codes "5" ∷ codes "200" ∷ [])
          server).1.channels)
    ≡ some (some 5, some 100)
unfolding get text_eq new apply_channel_mode is_barred pure_list_query channel_rank rank
    builtin_rank raise_rank has_bit change_modes letters one_letter dispatch chan_mode chan_modes
    mode_apply Params.parse_limit Params.parse_percent parse_uint show_nat announce broadcast cull
    join keep_alive is_empty modify
limited = refl
