-- ===== src/XLine/Match.antt =====
-- Which bans are in force, and whom they hit.
use echoi_rcd.Prelude.{
  ℕ, ◌-◌, Bool, false, ◌||◌, ◌&&◌, List, [], ◌∷◌, ◌++◌, Option, none, some, Text, codes,
  if◌then◌else◌, ◌==◌, ltb, any, find, is_nil, get, get_or, map_option, to_lower, text_eq, nat_key,
}
use echoi_rcd.Clock.{long_date}
use echoi_rcd.Glob.{glob_match}
use echoi_rcd.Server.State.{Server}
use echoi_rcd.XLine.Kinds.{XKind, XLine, kind_eq, tag}
use echoi_rcd.XLine.Duration.{human_duration}

-- `expires == 0 || expires > now`
abbrev pub is_active : ℕ → XLine → Bool
is_active now x = x.expires == 0 || ltb now x.expires

abbrev pub user_host : Text → Text → Text
user_host ident host = ident ++ b'@' ∷ host

unfoldable pub ban_expiry_suffix : ℕ → ℕ → Text
ban_expiry_suffix expires now =
    if ltb now expires
    then codes " (expires in "
      ++ human_duration (expires - now)
      ++ codes " on "
      ++ long_date expires
      ++ codes ")"
    else []

-- `to_lowercase` of the standard library, by which masks and subjects outside ASCII are folded.
module _ (to_lowercase : Text → Text) where
  -- The mask of a Z-line is that of an address, and every other that of a `user@host`.
  abbrev pub hits : XKind → Text → Text → XLine → Bool
  hits XKind.zline uh ip x = glob_match to_lowercase x.mask ip
  hits _ uh ip x = glob_match to_lowercase x.mask uh

  abbrev pub applies : XKind → Text → Text → ℕ → XLine → Bool
  applies kind uh ip now x = kind_eq x.kind kind && (is_active now x && hits kind uh ip x)

  unfoldable pub xmatch : Server → XKind → Text → Text → Bool
  xmatch s kind uh ip = any (applies kind uh ip s.clock) s.xlines

  unfoldable pub is_exempt : Server → Text → Text → Text → Bool
  is_exempt s ident host ip = xmatch s XKind.eline (user_host ident host) ip

  unfoldable pub is_shunned : Server → Text → Text → Text → Bool
  is_shunned s ident host ip =
      if is_exempt s ident host ip then false else xmatch s XKind.shun (user_host ident host) ip

  unfoldable pub user_shunned : Server → ℕ → Bool
  user_shunned s uid = elim (get uid s.users) [
    | none ↦ false
    | some u ↦ is_shunned s u.ident u.host u.ip
  ]

  -- The reason of the first line of the kind in force that `test` accepts.
  abbrev pub reason_of : XKind → (XLine → Bool) → Server → Option Text
  reason_of kind test s =
      map_option (λ x. x.reason)
        (find (λ x. kind_eq x.kind kind && (is_active s.clock x && test x)) s.xlines)

  unfoldable pub matched_qline : Server → Text → Option Text
  matched_qline s nick = reason_of XKind.qline (λ x. glob_match to_lowercase x.mask nick) s

  unfoldable pub matched_svshold : Server → Text → Option Text
  matched_svshold s nick = reason_of XKind.svshold (λ x. glob_match to_lowercase x.mask nick) s

  unfoldable pub matched_jupe : Server → Text → Option Text
  matched_jupe s name =
      reason_of XKind.jupe (λ x. glob_match to_lowercase (to_lower x.mask) (to_lower name)) s

  unfoldable pub matched_cban : Server → Text → Option Text
  matched_cban s chan =
      reason_of XKind.cban (λ x. glob_match to_lowercase (to_lower x.mask) (to_lower chan)) s

  unfoldable pub nick_reserved : Server → Text → Option Text
  nick_reserved s nick = elim (matched_qline s nick) [
    | some reason ↦ some reason
    | none ↦ matched_svshold s nick
  ]

  abbrev pub ban_text : Server → XKind → Text → Text → Text
  ban_text s kind uh ip =
      let (reason, expires) =
        get_or
          (map_option (λ x. (x.reason, x.expires)) (find (applies kind uh ip s.clock) s.xlines))
          ([], 0) in
      tag kind ++ codes "-lined: " ++ reason ++ ban_expiry_suffix expires s.clock

  -- The loop over the kinds of bans.
  unfoldable pub first_ban : Server → List XKind → Text → Text → Option Text
  first_ban s [] uh ip = none
  first_ban s (kind ∷ kinds) uh ip =
      let later = first_ban s kinds uh ip in
      if xmatch s kind uh ip then some (ban_text s kind uh ip) else later

  unfoldable pub matched_xline : Server → Text → Text → Text → Option Text
  matched_xline s ident host ip =
      if is_exempt s ident host ip
      then none
      else first_ban s (XKind.kline ∷ XKind.gline ∷ XKind.zline ∷ []) (user_host ident host) ip

  unfoldable pub matched_require_auth : Server → Text → Text → Text → Option Text
  matched_require_auth s ident host ip =
      map_option
        (λ x.
          if is_nil x.reason
          then codes "You must be logged into an account to use this server"
          else x.reason)
        (find
          (λ x.
            (kind_eq x.kind XKind.aline || kind_eq x.kind XKind.galine)
            && (is_active s.clock x
                && (glob_match to_lowercase x.mask (user_host ident host)
                    || glob_match to_lowercase x.mask ip)))
          s.xlines)

unfoldable pub xline_active : Server → XKind → Text → Bool
xline_active s kind mask =
    any (λ x. kind_eq x.kind kind && (text_eq x.mask mask && is_active s.clock x)) s.xlines

unfoldable pub xline_active_exact : Server → XKind → Text → Text → Bool
xline_active_exact s kind mask reason =
    any
      (λ x.
        kind_eq x.kind kind
        && (text_eq x.mask mask && (text_eq x.reason reason && is_active s.clock x)))
      s.xlines
