-- ===== src/Membership/Gone.antt =====
-- Who is left on the channels once a user has left one.
use echoi_rcd.Prelude.{
  ℕ, Bool, true, false, ◌&&◌, List, none, some, Text, if◌then◌else◌, ◌==◌, ==_iff, ◌≡◌, refl, sym,
  ◌∙◌, ap, arith, to_lower, get, get_or, modify, contains, text_eq, text_eq_iff, nat_key, text_key,
  is_some, Option-cases, Bool-cases, inl, inr,
}
use echoi_rcd.Channel.Prefixes.{PrefixCfg}
use echoi_rcd.Channel.Record.{Channel}
use echoi_rcd.Server.Users.{User, host_display}
use echoi_rcd.Server.State.{Server, Effect, emit, is_member}
use echoi_rcd.Server.Left.{member_of, member_of-modify}
use echoi_rcd.Membership.{
  drop_member, part, force_part, flood_kick, add_ban, flood_ban, to_channel_vis,
}
use echoi_rcd.Membership.Joined.{IsJoined, lists_channel, member_of-drop_member}

abbrev pub Table : Type 0
Table = List (Text × Channel)

-- The second table has the members of the first one but for one member of one channel.
unfoldable pub Loses : Text → ℕ → Table → Table → Type 0
Loses gone uid before after =
    (key : Text) (v : ℕ)
    → member_of key v after
      ≡ (if text_eq gone key && uid == v then false else member_of key v before)

-- Nothing is lost of those that are not on the channel.
Loses-none :
    (gone : Text) (uid : ℕ) (chs : Table) → member_of gone uid chs ≡ false → Loses gone uid chs chs
unfolding Loses
Loses-none gone uid chs h key v = elim (Bool-cases (text_eq gone key)) [
  | inl e ↦ elim (Bool-cases (uid == v)) [
    | inl k ↦
        rw (e, k)
          (ap (λ n. member_of n v chs) (sym ((text_eq_iff gone key).0 e))
            ∙ (ap (λ n. member_of gone n chs) (sym ((==_iff uid v).0 k)) ∙ h))
    | inr k ↦ rw (e, k) refl
  ]
  | inr e ↦ rw (e) refl
]

Loses-dropped :
    (gone : Text) (uid : ℕ) (before : Table) (s : Server)
    → ((key : Text) (v : ℕ) → member_of key v s.channels ≡ member_of key v before)
    → Loses gone uid before (drop_member uid gone s).channels
unfolding Loses
Loses-dropped gone uid before s same key v =
    member_of-drop_member key v uid gone s
    ∙ ap (λ b. if text_eq gone key && uid == v then false else b) (same key v)

is_member_as :
    (key : Text) (uid : ℕ) (s : Server) → is_member s uid key ≡ member_of key uid s.channels
is_member_as key uid s = elim (Option-cases (get key s.channels)) [
  | inl h ↦ rw (member_of, h) refl
  | inr (ch, h) ↦ rw (member_of, h) refl
]

no_user :
    (key : Text) (uid : ℕ) (s : Server)
    → IsJoined s
    → get uid s.users ≡ none
    → member_of key uid s.channels ≡ false
unfolding IsJoined
no_user key uid s ok h = ok key uid ∙ (rw (lists_channel, h) refl)

lists_user :
    (key : Text) (uid : ℕ) (u : User) (s : Server)
    → IsJoined s
    → get uid s.users ≡ some u
    → member_of key uid s.channels ≡ contains key u.channels
unfolding IsJoined
lists_user key uid u s ok h = ok key uid ∙ (rw (lists_channel, h) refl)

to_channel_vis-channels :
    (cfg : PrefixCfg) (key line : Text) (actor : ℕ) (s : Server)
    → (to_channel_vis cfg key line actor s).channels ≡ s.channels
unfolding to_channel_vis
to_channel_vis-channels cfg key line actor s = elim (Option-cases (get key s.channels)) [
  | inl h ↦ simp (to_channel_vis, h) refl
  | inr (ch, h) ↦ simp (to_channel_vis, h) refl
]

told-channels :
    (cfg : PrefixCfg) (b : Bool) (key line : Text) (uid : ℕ) (s : Server)
    → (if b then emit (Effect.send uid line) s else to_channel_vis cfg key line uid s).channels
      ≡ s.channels
told-channels cfg true key line uid s = refl
told-channels cfg false key line uid s = to_channel_vis-channels cfg key line uid s

-- If the members of the channels are those that list them, PART succeeds just for a member, and
-- takes the member out of that channel and nobody out of any other.
pub part-Loses :
    (cfg : PrefixCfg) (uid : ℕ) (target reason : Text) (s : Server)
    → IsJoined s
    → (part cfg uid target reason s).0 ≡ member_of (to_lower target) uid s.channels
      × Loses (to_lower target) uid s.channels (part cfg uid target reason s).1.channels
unfolding part
part-Loses cfg uid target reason s ok =
    let key = to_lower target in
    elim (Option-cases (get uid s.users)) [
      | inl h ↦
          let out = no_user key uid s ok h in
          rw (part, h) (sym out, Loses-none key uid s.channels out)
      | inr (u, h) ↦
          let listed = lists_user key uid u s ok h in
          elim (Bool-cases (contains key u.channels)) [
            | inl c ↦
                rw (part, h, c)
                  (
                    sym (listed ∙ c),
                    Loses-dropped key uid s.channels _
                        (λ k v. ap (member_of k v) (told-channels cfg _ key _ uid s)),
                  )
            | inr c ↦ rw (part, h, c) (sym (listed ∙ c), Loses-none key uid s.channels (listed ∙ c))
          ]
    ]

heard-channels :
    (b : Bool) (d e : Effect) (s : Server)
    → (if b then emit d s else emit e s).channels ≡ s.channels
heard-channels true d e s = refl
heard-channels false d e s = refl

-- If the members of the channels are those that list them, a forced PART does not panic, and
-- takes the member out of that channel and nobody out of any other.
pub force_part-Loses :
    (uid : ℕ) (chan reason : Text) (s : Server)
    → IsJoined s
    → is_some (force_part uid chan reason s) ≡ true
      × Loses (to_lower chan) uid s.channels (get_or (force_part uid chan reason s) s).channels
unfolding force_part
force_part-Loses uid chan reason s ok =
    let key = to_lower chan in
    elim (Option-cases (get uid s.users)) [
      | inl h ↦
          let out = no_user key uid s ok h in
          rw (force_part, h, is_member_as key uid s ∙ out) (refl, Loses-none key uid s.channels out)
      | inr (u, h) ↦ elim (Bool-cases (is_member s uid key)) [
        | inl m ↦
            rw (force_part, h, m)
              (
                refl,
                Loses-dropped key uid s.channels _
                    (λ k v. ap (member_of k v) (heard-channels _ _ _ s)),
              )
        | inr m ↦
            rw (force_part, h, m)
              (refl, Loses-none key uid s.channels (sym (is_member_as key uid s) ∙ m))
      ]
    ]

banned-channels :
    (key : Text) (v : ℕ) (b : Bool) (k : Text) (f : Channel → Channel) (s : Server)
    → ((ch : Channel) → (f ch).members ≡ ch.members)
    → member_of key v (if b then record s { channels = modify k f s.channels } else s).channels
      ≡ member_of key v s.channels
banned-channels key v true k f s same = member_of-modify key v k f s.channels same
banned-channels key v false k f s same = refl

-- If the members of the channels are those that list them, the kick of `+f` takes the member out
-- of that channel and nobody out of any other.
pub flood_kick-Loses :
    (uid : ℕ) (key : Text) (ban : Bool) (s : Server)
    → IsJoined s
    → Loses key uid s.channels (flood_kick uid key ban s).channels
unfolding flood_kick
flood_kick-Loses uid key ban s ok = elim (Option-cases (get uid s.users)) [
  | inl h ↦ rw (flood_kick, h) (Loses-none key uid s.channels (no_user key uid s ok h))
  | inr (u, h) ↦
      rw (flood_kick, h)
        (Loses-dropped key uid s.channels _ (λ k v.
          banned-channels k v ban key (add_ban (flood_ban (host_display u) s)) s
            (λ ch. ground arith)))
]
