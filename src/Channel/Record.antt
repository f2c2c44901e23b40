-- ===== src/Channel/Record.antt =====
-- The channel: its topic, members, lists and flood counters.
use echoi_rcd.Prelude.{ℕ, Bool, true, not, ◌&&◌, ◌||◌, List, [], Option, none, Text, is_nil}
use echoi_rcd.Channel.Member.{Member}
use echoi_rcd.Channel.Modes.{ChanModes, default_modes}

pub record Topic : Type 0 where
  pub text : Text
  pub setter : Text
  pub ts : ℕ

-- An entry of a list mode. `expires` is the time at which a timed ban is lifted.
pub record Ban : Type 0 where
  pub mask : Text
  pub setter : Text
  pub ts : ℕ
  pub expires : Option ℕ

pub record Channel : Type 0 where
  pub name : Text
  pub topic : Option Topic
  pub members : List (ℕ × Member)
  pub rmembers : List (Text × Member)
  pub modes : ChanModes
  pub bans : List Ban
  pub excepts : List Ban
  pub invex : List Ban
  pub filters : List Ban
  pub exemptchanops : List Ban
  pub autoop : List Ban
  pub invites : List ℕ
  pub created : ℕ
  pub msgflood_hits : List (ℕ × List ℕ)
  pub joinflood_hits : List ℕ
  pub joinflood_until : ℕ
  pub nickflood_hits : List ℕ
  pub nickflood_until : ℕ
  pub recent_kicks : List (ℕ × ℕ)

-- A fresh channel has the modes `+nt`. The clock is an argument.
unfoldable pub new : Text → ℕ → Channel
new name now = record {
  name = name;
  topic = none;
  members = [];
  rmembers = [];
  modes = record default_modes { no_external = true; topic_ops = true };
  bans = [];
  excepts = [];
  invex = [];
  filters = [];
  exemptchanops = [];
  autoop = [];
  invites = [];
  created = now;
  msgflood_hits = [];
  joinflood_hits = [];
  joinflood_until = 0;
  nickflood_hits = [];
  nickflood_until = 0;
  recent_kicks = [];
}

unfoldable pub is_empty : Channel → Bool
is_empty c = is_nil c.members && is_nil c.rmembers

unfoldable pub keep_alive : Channel → Bool
keep_alive c = not (is_empty c) || (c.modes.permanent || c.modes.registered)
