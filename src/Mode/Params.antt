-- ===== src/Mode/Params.antt =====
-- src/mode.rs: the handlers of the flags and of the modes with one parameter.
use echoi_rcd.Prelude.{
  ℕ, ◌^◌, ◌-◌, min, Bool, true, false, not, ◌&&◌, ◌||◌, List, [], ◌∷◌, ◌++◌, Option, none, some,
  Text, codes, if◌then◌else◌, ltb, leb, ◌>>=◌, get_or, map_option, get, modify, keys, retain,
  length, any, contains_char, starts_with_char, split_once, parse_uint, max_u32, max_u64, show_nat,
  is_nil, eq_ignore_case, ◌==◌, nat_key, text_key,
}
use echoi_rcd.Channel.Modes.{ChanModes, Rate, MsgFlood, show_rate}
use echoi_rcd.Server.Users.{User}
use echoi_rcd.Server.State.{Server, Effect, emit, is_oper, can_use_mode}
use echoi_rcd.XLine.Duration.{parse_duration, short_duration}
use echoi_rcd.Mode.Numerics.{err_noprivileges, err_e2eonlychan, err_allmustssl}
use echoi_rcd.Mode.Prefix.{Applied, rejected, applied}

-- A change of the modes through `get_mut` of the channel.
abbrev pub set_modes : Text → (ChanModes → ChanModes) → Server → Server
set_modes key f s = record s {
  channels = modify key (λ ch. record ch { modes = f ch.modes }) s.channels;
}

abbrev pub flag_apply : (ChanModes → Bool → ChanModes) → Text → Bool → Server → Applied × Server
flag_apply set key adding s = (applied none, set_modes key (λ m. set m adding) s)

-- A flag that only operators may set, and of these only those whose type allows it.
unfoldable pub oper_flag_apply :
    ℕ → (ChanModes → Bool → ChanModes) → Text → Text → ℕ → Bool → Server → Applied × Server
oper_flag_apply ch set chan key uid adding s =
    if adding && (not s.mode_sudo && not (is_oper s uid))
    then (
      rejected,
      emit
          (Effect.numeric uid err_noprivileges
            (chan ++ codes " :Only IRC operators may set channel mode +" ++ ch ∷ []))
          s,
    )
    else if adding && (not s.mode_sudo && not (can_use_mode s uid ch true))
    then (
      rejected,
      emit
          (Effect.numeric uid err_noprivileges
            (chan ++ codes " :Your oper type may not set channel mode +" ++ ch ∷ []))
          s,
    )
    else flag_apply set key adding s

unfoldable pub registered_apply : Text → Text → ℕ → Bool → Server → Applied × Server
registered_apply chan key uid adding s =
    if s.mode_sudo then flag_apply (λ m v. record m { registered = v }) key adding s else (
      rejected,
      emit
          (Effect.numeric uid err_noprivileges
            (chan ++ codes " :Channel mode +r may only be set by services"))
          s,
    )

abbrev pub members_of : Text → Server → List ℕ
members_of key s = elim (get key s.channels) [ none ↦ [] | some ch ↦ keys ch.members ]

-- The members without a property of their users.
abbrev pub lacking : (User → Bool) → Text → Server → List ℕ
lacking has key s =
    retain (λ m. not (get_or (map_option has (get m s.users)) false)) (members_of key s)

abbrev tally : Text → Server → (User → Bool) → Text
tally key s has =
    show_nat (length (lacking has key s)) ++ b'/' ∷ show_nat (length (members_of key s))

unfoldable pub encrypted_apply : Text → Text → ℕ → Bool → Server → Applied × Server
encrypted_apply chan key uid adding s =
    if adding && ltb 0 (length (lacking (λ u. u.e2e) key s))
    then (
      rejected,
      emit
          (Effect.numeric uid err_e2eonlychan (
            chan
            ++ (codes " :All members must run an end-to-end encryption capable client ("
                ++ (tally key s (λ u. u.e2e) ++ codes " do not)"))))
          s,
    )
    else flag_apply (λ m v. record m { encrypted = v }) key adding s

unfoldable pub secure_only_apply : Text → Text → ℕ → Bool → Server → Applied × Server
secure_only_apply chan key uid adding s =
    if adding && ltb 0 (length (lacking (λ u. u.secure) key s))
    then (
      rejected,
      emit
          (Effect.numeric uid err_allmustssl (
            chan
            ++ (codes " :All members of the channel must be connected using TLS ("
                ++ (tally key s (λ u. u.secure) ++ codes " are non-TLS)"))))
          s,
    )
    else flag_apply (λ m v. record m { secure_only = v }) key adding s

-- `+k`; taking the key away shows a star.
abbrev pub is_key : Text → Bool
is_key k = not (is_nil k) && not (any (λ c. c == b' ' || (c == b',' || c == b':')) k)

unfoldable pub key_apply : Text → Bool → Option Text → Server → Applied × Server
key_apply key true none s = (rejected, s)
key_apply key true (some k) s =
    if is_key k
    then (applied (some k), set_modes key (λ m. record m { key = some k }) s)
    else (rejected, s)
key_apply key false param s =
    (applied (some (codes "*")), set_modes key (λ m. record m { key = none }) s)

-- The shape of the other handlers: how a parameter is read, stored and shown.
abbrev pub param_apply {ℓ} :
    {A : Type ℓ}
    → (Text → Option A)
    → (ChanModes → Option A → ChanModes)
    → (Text → A → Text)
    → Text
    → Bool
    → Option Text
    → Server
    → Applied × Server
param_apply read set shown key adding param s =
    if adding
    then elim param [
      | none ↦ (rejected, s)
      | some p ↦ elim (read p) [
        | none ↦ (rejected, s)
        | some v ↦ (applied (some (shown p v)), set_modes key (λ m. set m (some v)) s)
      ]
    ]
    else (applied none, set_modes key (λ m. set m none) s)

abbrev keep_if : (ℕ → Bool) → Option ℕ → Option ℕ
keep_if ok none = none
keep_if ok (some n) = if ok n then some n else none

-- A positive number of 32 bits, cut to a greatest one.
abbrev pub positive : ℕ → Text → Option ℕ
positive top p = map_option (λ n. min n top) (keep_if (λ n. ltb 0 n) (parse_uint max_u32 p))

unfoldable pub parse_limit : Text → Option ℕ
parse_limit p = keep_if (λ n. ltb 0 n) (parse_uint max_u32 p)

abbrev pub history_cap : ℕ
history_cap = 256

unfoldable pub parse_history : Text → Option (ℕ × ℕ)
parse_history p =
    let parts = get_or (split_once b':' p) (p, codes "0") in
    map_option (λ lines. (lines, get_or (parse_duration parts.1) 0)) (positive history_cap parts.0)

unfoldable pub parse_rate : Text → Option Rate
parse_rate p = split_once b':' p >>= (λ parts. parse_uint max_u32 parts.0 >>= (λ count.
    parse_uint max_u64 parts.1 >>= (λ secs.
      if ltb 0 count && ltb 0 secs then some (record { count = count; secs = secs }) else none)))

-- A bare number of seconds stands for one message in that time.
abbrev pub parse_bare : Text → Option Rate
parse_bare p =
    map_option (λ secs. record { count = 1; secs = secs })
      (keep_if (λ n. ltb 0 n) (parse_uint max_u64 p))

unfoldable pub parse_slow : Text → Option Rate
parse_slow p = if contains_char b':' p then parse_rate p else parse_bare p

abbrev pub flood_of : Bool → Rate → MsgFlood
flood_of ban r = record { lines = r.count; secs = r.secs; ban = ban }

-- A star before the rate stands for a ban.
unfoldable pub parse_flood : Text → Option MsgFlood
parse_flood [] = map_option (flood_of false) (parse_rate [])
parse_flood (c ∷ p) =
    if c == b'*'
    then map_option (flood_of true) (parse_rate p)
    else map_option (flood_of false) (parse_rate (c ∷ p))

unfoldable pub parse_percent : Text → Option ℕ
parse_percent p = map_option (λ n. min n 100) (keep_if (λ n. leb 1 n) (parse_uint (2 ^ 8 - 1) p))

-- The name of another channel.
unfoldable pub parse_redirect : Text → Text → Option Text
parse_redirect chan t =
    if not (starts_with_char b'#' t) || eq_ignore_case t chan then none else some t

abbrev show_number : Text → ℕ → Text
show_number p n = show_nat n

abbrev show_count : Text → Rate → Text
show_count p r = show_rate r.count r.secs

abbrev pub limit_apply : Text → Bool → Option Text → Server → Applied × Server
limit_apply = param_apply parse_limit (λ m v. record m { limit = v }) show_number

abbrev pub history_apply : Text → Bool → Option Text → Server → Applied × Server
history_apply =
    param_apply parse_history (λ m v. record m { history = v })
      (λ p h. show_nat h.0 ++ b':' ∷ short_duration h.1)

abbrev pub flood_apply : Text → Bool → Option Text → Server → Applied × Server
flood_apply = param_apply parse_flood (λ m v. record m { flood = v }) (λ p f. p)

abbrev pub joinflood_apply : Text → Bool → Option Text → Server → Applied × Server
joinflood_apply = param_apply parse_rate (λ m v. record m { joinflood = v }) show_count

abbrev pub nickflood_apply : Text → Bool → Option Text → Server → Applied × Server
nickflood_apply = param_apply parse_rate (λ m v. record m { nickflood = v }) show_count

abbrev pub slowmode_apply : Text → Bool → Option Text → Server → Applied × Server
slowmode_apply = param_apply parse_slow (λ m v. record m { slowmode = v }) show_count

abbrev pub redirect_apply : Text → Text → Bool → Option Text → Server → Applied × Server
redirect_apply chan =
    param_apply (parse_redirect chan) (λ m v. record m { redirect = v }) (λ p t. t)

abbrev pub anticaps_apply : Text → Bool → Option Text → Server → Applied × Server
anticaps_apply = param_apply parse_percent (λ m v. record m { anticaps = v }) show_number

abbrev pub kicknorejoin_apply : Text → Bool → Option Text → Server → Applied × Server
kicknorejoin_apply = param_apply (positive 3600) (λ m v. record m { kicknorejoin = v }) show_number

abbrev pub delaymsg_apply : Text → Bool → Option Text → Server → Applied × Server
delaymsg_apply = param_apply (positive 3600) (λ m v. record m { delaymsg = v }) show_number

abbrev pub repeat_apply : Text → Bool → Option Text → Server → Applied × Server
repeat_apply = param_apply (positive 20) (λ m v. record m { repeat = v }) show_number
