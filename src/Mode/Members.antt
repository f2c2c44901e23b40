-- ===== src/Mode/Members.antt =====
-- src/channels.rs: the members of a channel as the handlers see them.
use echoi_rcd.Prelude.{
  ℕ, true, false, not, ◌||◌, ◌&&◌, List, [], ◌∷◌, ◌++◌, map, Option, none, some, Text, codes,
  if◌then◌else◌, ◌==◌, ltb, ◌≡◌, arith, get, get_or, modify, retain, keys, map_option, get-modify,
  text_eq, text_eq_iff, nat_key, text_key, Option-cases, inl, inr,
}
use echoi_rcd.Channel.Prefixes.{PrefixCfg}
use echoi_rcd.Channel.Member.{Member, rank, rank_owner, rank_op}
use echoi_rcd.Channel.Record.{Channel}
use echoi_rcd.Server.Users.{User, prefix}
use echoi_rcd.Server.State.{Server, Effect}
use echoi_rcd.Server.Quit.{emit_all}

abbrev pub find_member : Text → ℕ → List (Text × Channel) → Option Member
find_member key uid channels = elim (get key channels) [
  | none ↦ none
  | some ch ↦ get uid ch.members
]

-- A change through `get_mut` of the channel and of the member.
abbrev pub modify_member :
    Text → ℕ → (Member → Member) → List (Text × Channel) → List (Text × Channel)
modify_member key uid f = modify key (λ ch. record ch { members = modify uid f ch.members })

module _ (cfg : PrefixCfg) where
  -- `rank` of the server: the rank of a member, and that of an owner while `mode_sudo` is on.
  unfoldable pub channel_rank : ℕ → Text → Server → ℕ
  channel_rank uid key s =
      if s.mode_sudo
      then rank_owner
      else elim (find_member key uid s.channels) [ none ↦ 0 | some m ↦ rank cfg m ]

  -- Who is shown the withheld arrival.
  abbrev audience : ℕ → Text → Channel → Server → List ℕ
  audience uid key ch s =
      retain (λ m. not (m == uid || (ch.modes.auditorium && ltb (channel_rank m key s) rank_op)))
        (keys ch.members)

  abbrev pub join_line : ℕ → User → Text → Server → Text
  join_line m u name s =
      let plain = b':' ∷ (prefix u ++ codes " JOIN " ++ name) in
      if get_or (map_option (λ v. v.extended_join) (get m s.users)) false
      then plain ++ b' ' ∷ (get_or u.account (codes "*") ++ codes " :" ++ u.realname)
      else plain

  -- The lines that `reveal_member` sends once the member is shown.
  unfoldable pub join_lines : ℕ → Text → Server → List Effect
  join_lines uid key s = elim (get uid s.users) [
    | none ↦ []
    | some u ↦ elim (get key s.channels) [
      | none ↦ []
      | some ch ↦ map (λ m. Effect.send m (join_line m u ch.name s)) (audience uid key ch s)
    ]
  ]

  unfoldable pub reveal_member : ℕ → Text → Server → Server
  reveal_member uid key s =
      let shown = record s {
        channels = modify_member key uid (λ m. record m { hidden = false }) s.channels;
      } in
      if get_or (map_option (λ m. m.hidden) (find_member key uid s.channels)) false
      then emit_all (join_lines uid key shown) shown
      else s

get_same : (n m : Text) (chs : List (Text × Channel)) → text_eq n m ≡ true → get n chs ≡ get m chs
get_same n m chs h = rw ((text_eq_iff n m).0 h)

pub find_member-modify_member :
    (key k : Text) (uid v : ℕ) (f : Member → Member) (chs : List (Text × Channel))
    → find_member k v (modify_member key uid f chs) ≡ (
        if text_eq key k && uid == v
        then map_option f (find_member k v chs)
        else find_member k v chs)
unfolding get text_eq
find_member-modify_member key k uid v f chs = elim (Option-cases (get k chs)) [
  | inl h ↦
      rw (find_member, get-modify key k (λ ch. record ch { members = modify uid f ch.members }) chs)
        (ground (arith, h))
  | inr (ch, h) ↦
      rw (find_member, get-modify key k (λ ch. record ch { members = modify uid f ch.members }) chs)
        (ground (arith, h, get-modify uid v f ch.members))
]
