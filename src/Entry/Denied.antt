-- ===== src/Entry/Denied.antt =====
-- src/channels.rs: what an existing channel asks of those who want to join it, in the order in
-- which `join` asks it.
use echoi_rcd.Prelude.{
  ℕ, ◌+◌, ◌-◌, ◌%◌, ◌^◌, Bool, true, false, not, ◌&&◌, ◌||◌, ◌∷◌, ◌++◌, Option, none, some, Text,
  codes, if◌then◌else◌, ltb, leb, length, to_lower, get, get_or, map_option, contains, text_key,
  nat_key, text_eq, show_nat, is_some,
}
use echoi_rcd.Channel.Prefixes.{PrefixCfg}
use echoi_rcd.Channel.Record.{Channel}
use echoi_rcd.Server.Users.{User}
use echoi_rcd.Server.State.{Server, is_member}
use echoi_rcd.Entry.Bans.{ban_list_hit, redirect_target}

-- A numeric and its text, another channel with the text that announces it, or entry, and whether
-- by an override.
pub data Entry : Type 0 where
  refused : ℕ → Text → Entry
  redirected : Text → Text → Entry
  let_in : Bool → Entry

-- Whether by an override, for those who get in.
abbrev pub entered_by : Entry → Option Bool
entered_by (let_in overrode) = some overrode
entered_by other = none

-- What is asked for: the user, the channel, the key that was given.
pub record Wish : Type 0 where
  pub uid : ℕ
  pub user : User
  pub name : Text
  pub key_arg : Option Text
  pub by_oper : Bool
  pub can_override : Bool
  pub in_redirect : Bool

-- A condition that an override passes over; the rest of the conditions says whether it did.
unfoldable pub ask : Bool → Bool → Entry → (Bool → Entry) → Bool → Entry
ask can_override unmet answer rest overrode =
    if unmet then (if can_override then rest true else answer) else rest overrode

-- One that no override passes over.
unfoldable pub demand : Bool → Entry → (Bool → Entry) → Bool → Entry
demand unmet answer rest overrode = if unmet then answer else rest overrode

abbrev pub full_text : Text → Text → Text
full_text name text = name ++ (codes " :Cannot join channel" ++ text)

abbrev pub wrong_key : Wish → Channel → Bool
wrong_key w ch = elim ch.modes.key [
  | none ↦ false
  | some k ↦ not (get_or (map_option (text_eq k) w.key_arg) false)
]

abbrev pub kicked_lately : Wish → Channel → ℕ → Bool
kicked_lately w ch now = elim ch.modes.kicknorejoin [
  | none ↦ false
  | some secs ↦ elim (get w.uid ch.recent_kicks) [ none ↦ false | some kt ↦ ltb (now - kt) secs ]
]

-- The members of all servers against the limit.
abbrev pub is_full : Channel → Bool
is_full ch = elim ch.modes.limit [
  | none ↦ false
  | some l ↦ leb l ((length ch.members + length ch.rmembers) % 2 ^ 32)
]

-- Whether a redirect to the channel leads anywhere.
abbrev pub may_redirect : Wish → Text → Text → Server → Bool
may_redirect w key target s =
    not w.in_redirect
    && (not (text_eq (to_lower target) key) && not (is_member s w.uid (to_lower target)))

abbrev pub redirect_to : Wish → Text → Option Text → Text → Entry → Server → Entry
redirect_to w key target text answer s = elim target [
  | none ↦ answer
  | some t ↦
      if may_redirect w key t s
      then redirected t (w.name ++ b' ' ∷ (t ++ (codes " :Cannot join channel" ++ text)))
      else answer
]

module _ (to_lowercase : Text → Text) (cfg : PrefixCfg)
    (elsewhere : ℕ → Server → ℕ → Text → Bool) where
  abbrev pub is_banned : Wish → Channel → Server → Bool
  is_banned w ch s =
      ban_list_hit to_lowercase cfg elsewhere s w.uid ch.bans
      && not (ban_list_hit to_lowercase cfg elsewhere s w.uid ch.excepts)

  abbrev pub uninvited : Wish → Channel → Server → Bool
  uninvited w ch s =
      ch.modes.invite_only
      && (not (contains w.uid ch.invites)
          && not (ban_list_hit to_lowercase cfg elsewhere s w.uid ch.invex))

  -- From the key to the limit.
  unfoldable pub entry : Wish → Text → Channel → Server → Entry
  entry w key ch s =
      ask w.can_override (wrong_key w ch) (refused 475 (full_text w.name (codes " (+k)")))
        (ask w.can_override (is_banned w ch s)
          (redirect_to w key (redirect_target to_lowercase s w.uid key) (codes " (+b), redirecting")
            (refused 474 (full_text w.name (codes " (+b)"))) s)
          (ask w.can_override (uninvited w ch s) (refused 473 (full_text w.name (codes " (+i)"))) (
            ask w.can_override (ch.modes.secure_only && not w.user.secure)
              (refused 489 (full_text w.name (codes "; TLS users only (+z is set)")))
              (ask w.can_override (ch.modes.encrypted && not w.user.e2e)
                (refused 927 (
                  full_text w.name
                    (codes "; an end-to-end encryption capable client is required (+E is set)")))
                (demand (ch.modes.oper_only && not w.by_oper)
                  (refused 520 (full_text w.name (codes "; IRC operators only (+O is set)")))
                  (ask w.can_override (ch.modes.reg_only && not (is_some w.user.account))
                    (refused 477 (full_text w.name (codes "; you must be logged in (+R is set)")))
                    (ask w.can_override (kicked_lately w ch s.clock)
                      (refused 495 (
                        w.name
                        ++ (codes " :You must wait "
                            ++ (show_nat (get_or ch.modes.kicknorejoin 0)
                                ++ codes "s after a kick to rejoin (+J)"))))
                      (ask w.can_override (is_full ch)
                        (redirect_to w key ch.modes.redirect (codes " (+l), redirecting")
                          (refused 471 (full_text w.name (codes " (+l)"))) s)
                        let_in))))))))
        false

  -- The conditions that an override passes over, in no order.
  abbrev pub unmet : Wish → Channel → Server → Bool
  unmet w ch s =
      wrong_key w ch
      || (is_banned w ch s
          || (uninvited w ch s
              || ((ch.modes.secure_only && not w.user.secure)
                  || ((ch.modes.encrypted && not w.user.e2e)
                      || ((ch.modes.reg_only && not (is_some w.user.account))
                          || (kicked_lately w ch s.clock || is_full ch))))))
