-- ===== src/Mode/Dispatch.antt =====
-- src/coremods/core_mode.rs: MODE for channels, and the same with the authority of the server.
use echoi_rcd.Prelude.{
  ℕ, ◌+◌, max, Bool, true, false, not, ◌||◌, ◌&&◌, List, [], ◌∷◌, ◌++◌, Option, none, some, Text,
  codes, if◌then◌else◌, ltb, leb, ◌==◌, any, is_nil, is_some, show_nat, to_lower, get, remove,
  contains_key, nat_key, text_key,
}
use echoi_rcd.Channel.Prefixes.{PrefixCfg}
use echoi_rcd.Channel.Member.{rank_halfop}
use echoi_rcd.Channel.Modes.{render}
use echoi_rcd.Channel.Record.{Channel, keep_alive}
use echoi_rcd.Server.Users.{prefix}
use echoi_rcd.Server.State.{Server, Effect, emit, conf_num, is_member}
use echoi_rcd.Mode.Numerics
use echoi_rcd.Mode.Members.{channel_rank}
use echoi_rcd.Mode.Hidden.{Change, hidden_rank, spaced_params, broadcast}
use echoi_rcd.Mode.Prefix.{Applied, err_chanoprivsneeded}
use echoi_rcd.Mode.Handlers.{ChanMode, chan_mode, mode_apply, wants_param, is_list, is_prefix}

-- `panicked` stands for an index that is not there.
pub data CmdResult : Type 0 where
  ok : CmdResult
  fail : CmdResult
  panicked : CmdResult

-- The variables of the loop over the letters. `args` is what is left of the arguments.
pub record Loop : Type 0 where
  pub sign : ℕ
  pub args : List Text
  pub applied : Text
  pub last : ℕ
  pub echoed : List Text
  pub changes : List Change
  pub processed : ℕ
  pub server : Server

abbrev pub is_sign : ℕ → Bool
is_sign c = c == b'+' || c == b'-'

-- One change more in the line that is shown; the sign is written when it flips.
abbrev pub emit_mode : ℕ → ℕ → ℕ → Text → Text
emit_mode last sign c done = done ++ (if last == sign then c ∷ [] else sign ∷ c ∷ [])

-- The parameter of a handler, and the arguments that are left.
abbrev pub take_param : Bool → List Text → Option Text × List Text
take_param true (a ∷ args) = (some a, args)
take_param true [] = (none, [])
take_param false args = (none, args)

abbrev pub echo_list : Option Text → List Text
echo_list none = []
echo_list (some p) = p ∷ []

abbrev pub start : Server → List Text → Loop
start s args = record {
  sign = b'+';
  args = args;
  applied = [];
  last = b' ';
  echoed = [];
  changes = [];
  processed = 0;
  server = s;
}

-- The loop goes on with a change that was made.
abbrev pub made : ℕ → Option Text → Loop → Loop
made c echo l = record l {
  applied = emit_mode l.last l.sign c l.applied;
  last = l.sign;
  echoed = l.echoed ++ echo_list echo;
  changes = l.changes ++ record { sign = l.sign; letter = c; shown = echo } ∷ [];
}

abbrev pub bad_param : ChanMode → Text → ℕ → ℕ → Bool → Option Text → Server → Server
bad_param h target uid c adding none s = s
bad_param h target uid c adding (some p) s =
    if adding && (not (is_list h) && not (is_prefix h))
    then emit
        (Effect.numeric uid Numerics.err_invalidmodeparam
          (target ++ b' ' ∷ c ∷ b' ' ∷ (p ++ codes " :Invalid mode parameter")))
        s
    else s

module _ (cfg : PrefixCfg) (catalog : Text → Text) where
  -- What becomes of the loop after the handler.
  abbrev pub outcome :
      ChanMode → Text → ℕ → ℕ → Bool → Option Text → List Text → Applied × Server → Loop → Loop
  outcome h target uid c adding param args (Applied.applied echo, s) l =
      made c echo (record l { args = args; server = s })
  outcome h target uid c adding param args (Applied.rejected, s) l = record l {
    args = args;
    server = bad_param h target uid c adding param s;
  }

  unfoldable pub dispatch : ChanMode → Text → Text → ℕ → ℕ → Loop → Loop
  dispatch h target key uid c l =
      let adding = l.sign == b'+' in
      let taken = take_param (wants_param h adding) l.args in
      outcome h target uid c adding taken.0 taken.1
        (mode_apply cfg catalog h target key uid adding taken.0 l.server) l

  unfoldable pub one_letter : Text → Text → ℕ → ℕ → Loop → Loop
  one_letter target key uid c l = elim (chan_mode cfg c) [
    | none ↦ record l {
      server =
          emit
            (Effect.numeric uid Numerics.err_unknownmode
              (c ∷ codes " :is unknown mode char to me (try /HELP CHMODES for channel modes)"))
            l.server;
      processed = l.processed + 1;
    }
    | some h ↦ dispatch h target key uid c (record l { processed = l.processed + 1 })
  ]

  -- The loop ends early once `max_modes` letters were handled.
  unfoldable pub letters : Text → Text → ℕ → ℕ → Text → Loop → Loop
  letters target key uid max_modes [] l = l
  letters target key uid max_modes (c ∷ cs) l =
      let rest =
        letters target key uid max_modes cs
          (if is_sign c then record l { sign = c } else one_letter target key uid c l) in
      if not (is_sign c) && leb max_modes l.processed then l else rest

  abbrev pub max_modes : Server → ℕ
  max_modes s = max (conf_num s (codes "modes") 20) 1

  -- The changes are shown to the channel and told to the links, in the name of the user.
  unfoldable pub announce : Text → Text → ℕ → Loop → CmdResult × Server
  announce target key uid l = elim (get uid l.server.users) [
    | none ↦ (CmdResult.panicked, l.server)
    | some u ↦
        let pstr = spaced_params l.echoed in
        let line =
          b':' ∷ (prefix u ++ (codes " MODE " ++ (target ++ b' ' ∷ (l.applied ++ pstr)))) in
        let shown : Server =
          if any (λ (ch : Change). is_some (hidden_rank l.server ch.letter)) l.changes
          then broadcast cfg key target uid (prefix u) l.changes l.server
          else emit (Effect.to_channel key line none)
              (emit (Effect.record_event key line) l.server) in
        (CmdResult.ok, emit (Effect.propagate_chan_mode u.uuid target l.applied l.echoed) shown)
  ]

  -- A channel that lost its last reason to exist goes away.
  unfoldable pub cull : Text → Server → Server
  cull key s = elim (get key s.channels) [
    | none ↦ s
    | some ch ↦ if keep_alive ch then s else record s { channels = remove key s.channels }
  ]

  abbrev pub conclude : Text → CmdResult × Server → CmdResult × Server
  conclude key (CmdResult.panicked, s) = (CmdResult.panicked, s)
  conclude key (other, s) = (CmdResult.ok, cull key s)

  unfoldable pub change_modes : Text → Text → ℕ → Text → List Text → Server → CmdResult × Server
  change_modes target key uid modestring args s =
      let l = letters target key uid (max_modes s) modestring (start s args) in
      if is_nil l.applied
      then (CmdResult.ok, cull key l.server)
      else conclude key (announce target key uid l)

  abbrev pub list_letter : ℕ → Bool
  list_letter c = elim (chan_mode cfg c) [ none ↦ false | some h ↦ is_list h ]

  -- Only letters of list modes, and no argument.
  unfoldable pub pure_list_query : Text → List Text → Bool
  pure_list_query modestring args =
      is_nil args && not (any (λ c. not (is_sign c) && not (list_letter c)) modestring)

  abbrev pub is_sensitive : ℕ → Bool
  is_sensitive c = c == b'w' || (c == b'X' || c == b'g')

  -- The rank of a half-op is asked, but to look at a list that anyone may see.
  unfoldable pub is_barred : Text → ℕ → Text → List Text → Server → Bool
  is_barred key uid modestring args s =
      let query = pure_list_query modestring args in
      (not query || (query && any is_sensitive modestring))
      && ltb (channel_rank cfg uid key s) rank_halfop

  unfoldable pub channel_query : Text → Text → ℕ → Channel → Server → Server
  channel_query target key uid ch s =
      emit (Effect.numeric uid Numerics.rpl_creationtime (target ++ b' ' ∷ show_nat ch.created)) (
        emit
          (Effect.numeric uid Numerics.rpl_channelmodeis
            (target ++ b' ' ∷ render ch.modes (is_member s uid key)))
          s)

  -- MODE with the name of a channel; `params` are those after the name.
  unfoldable pub apply_channel_mode : Text → ℕ → List Text → Server → CmdResult × Server
  apply_channel_mode target uid params s =
      let key = to_lower target in
      elim (get key s.channels) [
        | none ↦ (
          CmdResult.fail,
          emit (Effect.numeric uid Numerics.err_nosuchchannel (target ++ codes " :No such channel"))
              s,
        )
        | some ch ↦ elim params [
          | [] ↦ (CmdResult.ok, channel_query target key uid ch s)
          | modestring ∷ args ↦
              if is_barred key uid modestring args s
              then (
                CmdResult.fail,
                emit
                    (Effect.numeric uid err_chanoprivsneeded
                      (target ++ codes " :You're not a channel operator"))
                    s,
              )
              else change_modes target key uid modestring args s
        ]
      ]

  -- The loop of `svs_set_chan_modes`: no limit, and nothing is said of a bad letter or parameter.
  abbrev pub svs_outcome : ℕ → List Text → Applied × Server → Loop → Loop
  svs_outcome c args (Applied.applied echo, s) l =
      made c echo (record l { args = args; server = s })
  svs_outcome c args (Applied.rejected, s) l = record l { args = args; server = s }

  unfoldable pub svs_dispatch : ChanMode → Text → Text → ℕ → Loop → Loop
  svs_dispatch h target key c l =
      let adding = l.sign == b'+' in
      let taken = take_param (wants_param h adding) l.args in
      svs_outcome c taken.1 (mode_apply cfg catalog h target key 0 adding taken.0 l.server) l

  unfoldable pub svs_letter : Text → Text → ℕ → Loop → Loop
  svs_letter target key c l =
      if is_sign c
      then record l { sign = c }
      else elim (chan_mode cfg c) [ none ↦ l | some h ↦ svs_dispatch h target key c l ]

  unfoldable pub svs_letters : Text → Text → Text → Loop → Loop
  svs_letters target key [] l = l
  svs_letters target key (c ∷ cs) l = svs_letters target key cs (svs_letter target key c l)

  unfoldable pub svs_set_chan_modes : Text → Text → List Text → Server → Bool × Server
  svs_set_chan_modes target modestring args s =
      let key = to_lower target in
      let l = svs_letters target key modestring (start (record s { mode_sudo = true }) args) in
      let t = record l.server { mode_sudo = false } in
      let line =
        b':'
        ∷ (t.name
            ++ (codes " MODE " ++ (target ++ b' ' ∷ (l.applied ++ spaced_params l.echoed)))) in
      if contains_key key s.channels
      then (if is_nil l.applied then (false, t) else (
        true,
        emit (Effect.propagate_chan_mode t.sid target l.applied l.echoed)
            (emit (Effect.to_channel key line none) t),
      ))
      else (false, s)
