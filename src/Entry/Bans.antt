-- ===== src/Entry/Bans.antt =====
-- src/channels.rs: `ban_list_hit` and `extban_active`, with the extbans of src/modules/ that they
-- call: accountban, realnameban, channelban, serverban, classban, extbanbanlist and banredirect.
use echoi_rcd.Prelude.{
  ℕ, Bool, true, false, not, ◌&&◌, ◌||◌, List, [], ◌∷◌, map, Option, none, some, Text,
  if◌then◌else◌, ltb, leb, ◌==◌, any, to_lower, get, get_or, map_option, contains_key, nat_key,
  text_key, ◌>>=◌, split_once, starts_with_char, strip_prefix,
}
use echoi_rcd.Glob.{glob_match}
use echoi_rcd.Channel.Prefixes.{PrefixCfg}
use echoi_rcd.Channel.Member.{rank, rank_voice, rank_halfop, rank_op, rank_admin, rank_owner}
use echoi_rcd.Channel.Record.{Ban}
use echoi_rcd.Channel.Masks.{is_alpha}
use echoi_rcd.Server.Users.{User, prefix}
use echoi_rcd.Server.State.{Server}
use echoi_rcd.Mode.Members.{find_member}

-- The mask without the channel that a ban redirects to.
unfoldable pub mask_part : Text → Text
mask_part mask = get_or (map_option (λ p. p.0) (split_once b'$' mask)) mask

abbrev user_is : (User → Bool) → Server → ℕ → Bool
user_is test s uid = get_or (map_option test (get uid s.users)) false

abbrev pub split_status : Text → ℕ × Text
split_status [] = (0, [])
split_status (c ∷ mask) =
    if c == b'~'
    then (rank_owner, mask)
    else if c == b'&'
    then (rank_admin, mask)
    else if c == b'@'
    then (rank_op, mask)
    else if c == b'%'
    then (rank_halfop, mask)
    else if c == b'+'
    then (rank_voice, mask)
    else (0, c ∷ mask)

-- No extban, which begins with a letter and a colon.
abbrev pub plain_mask : Text → Bool
plain_mask (k ∷ d ∷ value) = not (is_alpha k && d == b':')
plain_mask mask = true

abbrev pub space_to_underscore : ℕ → ℕ
space_to_underscore c = if c == b' ' then b'_' else c

module _ (to_lowercase : Text → Text) where
  abbrev pub account_matches : Server → ℕ → Text → Bool
  account_matches s uid mask =
      user_is (λ u. get_or (map_option (glob_match to_lowercase mask) u.account) false) s uid

  abbrev pub realname_matches : Server → ℕ → Text → Bool
  realname_matches s uid mask = user_is (λ u. glob_match to_lowercase mask u.realname) s uid

  abbrev pub server_matches : Server → ℕ → Text → Bool
  server_matches s uid mask =
      if not (contains_key uid s.users) then false else glob_match to_lowercase mask s.name

  abbrev pub class_matches : Server → ℕ → Text → Bool
  class_matches s uid spec =
      user_is
        (λ u.
          get_or
            (map_option (λ c. glob_match to_lowercase spec (map space_to_underscore c)) u.class)
            false)
        s uid

  abbrev pub caught : (Ban → Bool) → Text → List Ban → Bool
  caught test who bans = any (λ b. test b && glob_match to_lowercase b.mask who) bans

  -- The plain bans of another channel, less its plain exceptions.
  abbrev pub banlist_matches : Server → ℕ → Text → Bool
  banlist_matches s uid chan = elim (get uid s.users) [
    | none ↦ false
    | some u ↦ elim (get (to_lower chan) s.channels) [
      | none ↦ false
      | some ch ↦
          if caught (λ b. plain_mask b.mask) (prefix u) ch.excepts
          then false
          else caught (λ b. plain_mask b.mask) (prefix u) ch.bans
    ]
  ]

  -- The channel that a matching ban with `$#channel` leads to.
  abbrev pub leads : Text → Ban → Option Text
  leads who b = split_once b'$' b.mask >>= (λ p.
      if starts_with_char b'#' p.1 && glob_match to_lowercase p.0 who then some p.1 else none)

  abbrev pub first_leading : Text → List Ban → Option Text
  first_leading who [] = none
  first_leading who (b ∷ bs) = elim (leads who b) [ none ↦ first_leading who bs | some t ↦ some t ]

  unfoldable pub redirect_target : Server → ℕ → Text → Option Text
  redirect_target s uid key = elim (get key s.channels) [
    | none ↦ none
    | some ch ↦ elim (get uid s.users) [
      | none ↦ none
      | some u ↦
          if any (λ e. glob_match to_lowercase (mask_part e.mask) (prefix u)) ch.excepts
          then none
          else first_leading (prefix u) ch.bans
    ]
  ]

  -- An acting extban of a channel, such as `m:`.
  unfoldable pub extban_active : Server → ℕ → Text → ℕ → Bool
  extban_active s uid key kind = elim (get key s.channels) [
    | none ↦ false
    | some ch ↦ elim (get uid s.users) [
      | none ↦ false
      | some u ↦
          let hit = any (λ (b : Ban).
            get_or
              (map_option (λ m. glob_match to_lowercase m (prefix u))
                (strip_prefix (kind ∷ b':' ∷ []) b.mask))
              false) in
          hit ch.bans && not (hit ch.excepts)
    ]
  ]

  module _ (cfg : PrefixCfg) where
    abbrev pub channel_matches : Server → ℕ → Text → Bool
    channel_matches s uid mask =
        let p = split_status mask in
        user_is
          (λ u.
            any
              (λ key.
                if not (glob_match to_lowercase (to_lower p.1) key)
                then false
                else if p.0 == 0
                then true
                else get_or
                    (map_option (λ m. leb p.0 (rank cfg m)) (find_member key uid s.channels)) false)
              u.channels)
          s uid

    -- The extbans `g:`, `y:`, `G:` and `A:` ask modules with data of their own, which are the
    -- parameter `elsewhere`.
    module _ (elsewhere : ℕ → Server → ℕ → Text → Bool) where
      abbrev pub extban_matches : ℕ → Server → ℕ → Text → Bool
      extban_matches k s uid value =
          if k == b'a'
          then account_matches s uid value
          else if k == b'g' || (k == b'y' || (k == b'G' || k == b'A'))
          then elsewhere k s uid value
          else if k == b'r'
          then realname_matches s uid value
          else if k == b'j'
          then channel_matches s uid value
          else if k == b's'
          then server_matches s uid value
          else if k == b'b'
          then banlist_matches s uid value
          else if k == b'C'
          then class_matches s uid value
          else false

      abbrev pub ban_matches : Server → ℕ → Text → Text → Bool
      ban_matches s uid who (k ∷ d ∷ value) =
          if ltb k 128 && d == b':'
          then extban_matches k s uid value
          else glob_match to_lowercase (mask_part (k ∷ d ∷ value)) who
      ban_matches s uid who mask = glob_match to_lowercase (mask_part mask) who

      unfoldable pub ban_list_hit : Server → ℕ → List Ban → Bool
      ban_list_hit s uid list =
          let who = get_or (map_option prefix (get uid s.users)) [] in
          any (λ b. ban_matches s uid who b.mask) list
