-- ===== src/Entry/Doors.antt =====
-- The modules that forbid names of channels (src/modules/: restrictchans, channames, denychans).
use echoi_rcd.Prelude.{
  ℕ, Bool, true, false, not, ◌&&◌, ◌||◌, List, [], ◌∷◌, Option, none, some, Text, codes,
  if◌then◌else◌, ◌==◌, any, find, is_nil, to_lower, contains_key, text_key, text_eq, contains_char,
  split_once,
}
use echoi_rcd.Glob.{glob_match}
use echoi_rcd.Server.State.{Server, conf, conf_all, conf_bool, yesish}
use echoi_rcd.Mode.Hidden.{is_whitespace, reversed}

abbrev pub err_badchannel : ℕ
err_badchannel = 926

pub record BadChan : Type 0 where
  pub glob : Text
  pub reason : Text
  pub redirect : Option Text
  pub allowopers : Bool

abbrev pub word_end : Bool → Text → List Text → List Text
word_end has cur rest = if has then reversed cur [] ∷ rest else rest

-- The words of a line; white space between quotes is part of a word. `cur` is what was read of the
-- current one, the last character first, and `has` whether there is one.
unfoldable pub tokens : Text → Text → Bool → Bool → List Text
tokens [] cur in_q has = word_end has cur []
tokens (c ∷ line) cur in_q has =
    let quote = tokens line cur (not in_q) true in
    let gap = tokens line [] in_q false in
    let more = tokens line (c ∷ cur) in_q true in
    if c == b'"' then quote else if is_whitespace c && not in_q then word_end has cur gap else more

abbrev pub tokenize : Text → List Text
tokenize line = tokens line [] false false

abbrev pub attribute : Text → Text → BadChan → BadChan
attribute k v bc =
    if text_eq k (codes "reason")
    then record bc { reason = v }
    else if text_eq k (codes "redirect")
    then if is_nil v then bc else record bc { redirect = some v }
    else if text_eq k (codes "allowopers")
    then record bc { allowopers = yesish v }
    else bc

unfoldable pub attributes : List Text → BadChan → BadChan
attributes [] bc = bc
attributes (tok ∷ toks) bc =
    attributes toks (elim (split_once b'=' tok) [ none ↦ bc | some p ↦ attribute p.0 p.1 bc ])

abbrev pub bad_chan : Text → BadChan
bad_chan glob = record {
  glob = glob;
  reason = codes "Channel is forbidden.";
  redirect = none;
  allowopers = false;
}

abbrev pub parse_line : List Text → List BadChan → List BadChan
parse_line [] rest = rest
parse_line (glob ∷ attrs) rest =
    if is_nil glob then rest else attributes attrs (bad_chan glob) ∷ rest

unfoldable pub parse_lines : List Text → List BadChan
parse_lines [] = []
parse_lines (line ∷ lines) = parse_line (tokenize line) (parse_lines lines)

module _ (to_lowercase : Text → Text) where
  abbrev pub is_good : Server → Text → Bool
  is_good s name = any (λ g. glob_match to_lowercase g name) (conf_all s (codes "goodchan"))

  -- The line that forbids the name to the user.
  unfoldable pub denied_by : Server → Text → Bool → Option BadChan
  denied_by s name is_oper =
      if is_nil (conf_all s (codes "badchan")) || is_good s name
      then none
      else elim (find (λ b. glob_match to_lowercase b.glob name)
          (parse_lines (conf_all s (codes "badchan")))) [
            | none ↦ none
            | some bc ↦ if is_oper && bc.allowopers then none else some bc
          ]

  -- Whether a new channel may not be made under the name.
  unfoldable pub restricted : Server → Text → Bool → Bool
  restricted s name may_create =
      if may_create || not (conf_bool s (codes "restrictchans") false)
      then false
      else if contains_key (to_lower name) s.channels
      then false
      else not (any (λ g. glob_match to_lowercase g name) (conf_all s (codes "restrictchan")))

-- Whether a new channel would have a character that is forbidden.
unfoldable pub badly_named : Server → Text → Bool
badly_named s name = elim (conf s (codes "channames_deny")) [
  | none ↦ false
  | some deny ↦
      if is_nil deny || contains_key (to_lower name) s.channels
      then false
      else any (λ c. contains_char c deny) name
]
