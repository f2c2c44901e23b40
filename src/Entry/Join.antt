-- ===== src/Entry/Join.antt =====
-- src/channels.rs: `join`. A redirect is a call of `join` for another channel, with which the
-- first one ends; here it is what one round returns. `in_redirect` and the depth of the redirects
-- of denychans, which the code restores after that call, are arguments of a round.
use echoi_rcd.Prelude.{
  ℕ, zero, suc, Bool, true, false, not, ◌&&◌, ◌∷◌, ◌++◌, Option, none, some, Text, codes,
  if◌then◌else◌, ltb, leb, length, eq_ignore_case, to_lower, get, get_or, map_option, contains,
  contains_key, text_key, nat_key,
}
use echoi_rcd.Channel.Prefixes.{PrefixCfg}
use echoi_rcd.Channel.Masks.{valid_chan}
use echoi_rcd.Server.Users.{User}
use echoi_rcd.Server.State.{Server, Effect, emit, conf_num, has_priv}
use echoi_rcd.XLine.Match.{matched_cban}
use echoi_rcd.Membership.{admit}
use echoi_rcd.Membership.Floods.{joinflood_check}
use echoi_rcd.Entry.Doors.{BadChan, err_badchannel, denied_by, restricted, badly_named}
use echoi_rcd.Entry.Denied.{Entry, Wish, entry, refused, redirected, let_in}

abbrev pub err_linkchannel : ℕ
err_linkchannel = 470

abbrev pub max_redir : ℕ
max_redir = 8

-- A round of `join` ends, or goes on with another channel.
pub data Turn : Type 0 where
  stops : Server → Turn
  goes_on : Bool → ℕ → Text → Server → Turn

abbrev pub refuse : ℕ → ℕ → Text → Server → Turn
refuse uid num text s = stops (emit (Effect.numeric uid num text) s)

-- A name that denychans forbids, with the redirect that it may have.
unfoldable pub deny : ℕ → Text → BadChan → Bool → ℕ → Server → Turn
deny uid name bc in_redirect depth s =
    let told = emit (Effect.numeric uid err_badchannel (name ++ (codes " :" ++ bc.reason))) s in
    elim bc.redirect [
      | none ↦ stops told
      | some t ↦
          if not (eq_ignore_case t name) && ltb depth max_redir
          then goes_on in_redirect (suc depth) t (
              emit
                (Effect.numeric uid err_linkchannel
                  (name ++ b' ' ∷ (t ++ codes " :You have been redirected.")))
                told)
          else stops told
    ]

abbrev pub wish : ℕ → User → Text → Option Text → Bool → Bool → Wish
wish uid u name key_arg in_redirect can_override = record {
  uid = uid;
  user = u;
  name = name;
  key_arg = key_arg;
  by_oper = u.flags.oper;
  can_override = can_override;
  in_redirect = in_redirect;
}

abbrev pub go_on : Turn → (Bool → ℕ → Text → Server → Server) → Server
go_on (stops s) next = s
go_on (goes_on r d t s) next = next r d t s

-- What the code asks of other parts: `to_lowercase`, the length of a text in UTF-8, the catalog of
-- translations, the extbans of modules with data of their own, and the class of a connection.
module _ (to_lowercase : Text → Text) (byte_length : Text → ℕ) (catalog : Text → Text)
    (cfg : PrefixCfg) (elsewhere : ℕ → Server → ℕ → Text → Bool)
    (max_chans : Server → ℕ → Option ℕ) where
  -- The channel lets the user in, if a flood of joins has not locked it.
  unfoldable pub come_in : Wish → Text → Bool → Server → Server
  come_in w key overrode s =
      let checked =
        if not w.can_override && contains_key key s.channels
        then joinflood_check key s
        else (false, s) in
      if checked.0
      then emit
          (Effect.numeric w.uid 437
            (w.name ++ codes " :This channel is temporarily unavailable (+j join flood)"))
          checked.1
      else admit cfg catalog w.uid w.user w.name overrode checked.1

  unfoldable pub answer : Wish → Text → ℕ → Entry → Server → Turn
  answer w key depth (refused num text) s = refuse w.uid num text s
  answer w key depth (redirected t text) s =
      goes_on true depth t (emit (Effect.numeric w.uid err_linkchannel text) s)
  answer w key depth (let_in overrode) s = stops (come_in w key overrode s)

  -- From the cap on the channels of a user to the doors of the channel.
  unfoldable pub join_as : Wish → ℕ → Server → Turn
  join_as w depth s =
      let key = to_lower w.name in
      let too_many =
        not w.can_override
        && get_or (map_option (λ most. leb most (length w.user.channels)) (max_chans s w.uid))
            false in
      let forbidden = if w.can_override then none else matched_cban to_lowercase s key in
      let at_door =
        answer w key depth
          (elim (get key s.channels) [
            | none ↦ let_in false
            | some ch ↦ entry to_lowercase cfg elsewhere w key ch s
          ])
          s in
      if too_many
      then refuse w.uid 405 (w.name ++ codes " :You have joined too many channels") s
      else elim forbidden [
        | some reason ↦
            refuse w.uid err_badchannel (w.name ++ (codes " :Channel is CBAN'd: " ++ reason)) s
        | none ↦ elim (denied_by to_lowercase s w.name w.by_oper) [
          | some bc ↦ deny w.uid w.name bc w.in_redirect depth s
          | none ↦
              if restricted to_lowercase s w.name
                (has_priv s w.uid (codes "channels/restricted-create"))
              then refuse w.uid err_badchannel
                  (w.name ++ codes " :Only IRC operators may create new channels here") s
              else if badly_named s w.name
              then refuse w.uid err_badchannel
                  (w.name ++ codes " :Channel name contains characters not permitted here") s
              else at_door
        ]
      ]

  -- One round.
  unfoldable pub round : Bool → ℕ → ℕ → Text → Option Text → Server → Turn
  round in_redirect depth uid name key_arg s =
      if not (valid_chan byte_length name (conf_num s (codes "maxchannel") 50))
      then refuse uid 479 (name ++ codes " :Invalid channel name") s
      else elim (get uid s.users) [
        | none ↦ stops s
        | some u ↦
            if contains (to_lower name) u.channels
            then stops s
            else join_as
                (wish uid u name key_arg in_redirect (has_priv s uid (codes "channels/override")))
                depth s
      ]

  unfoldable pub join_within : ℕ → Bool → ℕ → ℕ → Text → Option Text → Server → Server
  join_within zero in_redirect depth uid name key_arg s = s
  join_within (suc fuel) in_redirect depth uid name key_arg s =
      go_on (round in_redirect depth uid name key_arg s)
        (λ r d t after. join_within fuel r d uid t none after)

  -- Ten rounds: one redirect for a ban or a limit, eight of denychans, and the last channel.
  unfoldable pub join : ℕ → Text → Option Text → Server → Server
  join uid name key_arg s = join_within 10 false 0 uid name key_arg s
