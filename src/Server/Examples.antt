-- ===== src/Server/Examples.antt =====
-- The indexes of users, and a removal, on a server of two users.
use echoi_rcd.Prelude.{
  true, false, [], ◌∷◌, none, some, Text, codes, if◌then◌else◌, ◌==◌, ◌≡◌, refl, arith, contains,
  get, insert, remove, retain_values, to_lower, text_eq, nat_key, text_key,
}
use echoi_rcd.Channel.Member.{default_member}
use echoi_rcd.Channel.Record.{Channel, new, keep_alive, is_empty}
use echoi_rcd.Server.Users.{User, default_flags}
use echoi_rcd.Server.State.{Server}
use echoi_rcd.Server.Watch.{IsSynced, Change, apply, apply-IsSynced}
use echoi_rcd.Server.Accept.{lower_counts, Covers, acceptors}
use echoi_rcd.Server.Quit.{
  remove_user, drop_user, drop_indexes, push_whowas, scrub_nick, announce_if, announce_quit,
  watch_notify_offline, leave_channels, leave_channel, uninvite,
}
use echoi_rcd.Server.Departed.{remove_user-IsSynced, remove_user-acceptors}
use echoi_rcd.Server.Left.{member_of, remove_user-member_of, remove_user-keep_alive}

abbrev ann : User
ann = record {
  uuid = codes "42XAAAAAA";
  nick = codes "Ann";
  ident = codes "ann";
  realname = codes "Ann";
  host = codes "a.example";
  cloak = [];
  vhost = none;
  account = none;
  signon = 10;
  nick_ts = 10;
  ip = codes "192.0.2.1";
  registered = true;
  class = none;
  channels = codes "#a" ∷ [];
  invited = [];
  watch = codes "bob" ∷ [];
  monitor = [];
  silence = [];
  signore = [];
  accept = [];
  extended_join = false;
  e2e = false;
  chghost = false;
  channel_rename = false;
  no_implicit_names = false;
  secure = true;
  oper_type = none;
  flags = default_flags;
}

abbrev bob : User
bob = record ann {
  uuid = codes "42XAAAAAB";
  nick = codes "bob";
  channels = codes "#a" ∷ [];
  watch = [];
  accept = codes "ann" ∷ [];
}

abbrev channel : Channel
channel = record (new (codes "#a") 10) { members = (1, default_member) ∷ (2, default_member) ∷ [] }

abbrev server : Server
server = record {
  name = codes "hub.example";
  sid = codes "42X";
  users = (1, ann) ∷ (2, bob) ∷ [];
  nick_index = (codes "ann", 1) ∷ (codes "bob", 2) ∷ [];
  channels = (codes "#a", channel) ∷ [];
  uuid_local = (ann.uuid, 1) ∷ (bob.uuid, 2) ∷ [];
  whowas = [];
  xlines = [];
  mode_sudo = false;
  raw_config = [];
  accepted_nicks = (codes "ann", 1) ∷ [];
  watch_by = (codes "bob", 1 ∷ []) ∷ [];
  monitor_by = [];
  redis_active = false;
  clock = 20;
  out = [];
}

found : get 1 server.users ≡ some ann
unfolding get
found = refl

server-IsSynced : IsSynced server
unfolding get
server-IsSynced = (λ n v. ground arith, λ n v. ground arith)

server-Covers : Covers server
unfolding get
server-Covers n = ground arith

apply-IsSynced_example : IsSynced (apply (Change.watch_add 2 (codes "ann")) server)
apply-IsSynced_example = apply-IsSynced (Change.watch_add 2 (codes "ann")) server server-IsSynced

remove_user-IsSynced_example : IsSynced (remove_user 1 (codes "bye") server)
remove_user-IsSynced_example = remove_user-IsSynced 1 (codes "bye") server server-IsSynced

remove_user-acceptors_example :
    acceptors (to_lower ann.nick) (remove_user 1 (codes "bye") server).users ≡ 0
remove_user-acceptors_example =
    remove_user-acceptors 1 ann (codes "bye") server server-Covers found (ground arith)

complete : (key : Text) → member_of key 1 server.channels ≡ true → contains key ann.channels ≡ true
unfolding get
complete key h = ground arith

remove_user-member_of_example :
    member_of (codes "#a") 2 (remove_user 1 (codes "bye") server).channels
    ≡ (if 1 == 2 then false else member_of (codes "#a") 2 server.channels)
remove_user-member_of_example =
    remove_user-member_of 1 ann (codes "bye") server found refl complete (codes "#a") 2

abbrev left_channel : Channel
left_channel = record channel { members = (2, default_member) ∷ [] }

channel_left : get (codes "#a") (remove_user 1 (codes "bye") server).channels ≡ some left_channel
unfolding get remove_user drop_user drop_indexes push_whowas scrub_nick announce_if announce_quit
    watch_notify_offline leave_channels leave_channel uninvite retain_values insert remove
    keep_alive is_empty new text_eq lower_counts
channel_left = refl

remove_user-keep_alive_example : keep_alive left_channel ≡ true
remove_user-keep_alive_example =
    remove_user-keep_alive 1 ann (codes "bye") server found refl (codes "#a") left_channel
      channel_left
