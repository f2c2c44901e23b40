-- ===== src/Membership/Moved.antt =====
-- A channel that gets another name takes its members along.
use echoi_rcd.Prelude.{
  ℕ, Bool, true, false, not, ◌||◌, ◌&&◌, List, [], ◌∷◌, some, Text, if◌then◌else◌, ◌==◌, ◌≡◌, refl,
  sym, ◌∙◌, ap, arith, get, insert, modify, remove, contains, contains-without, contains-set_insert,
  contains_key, without, keys, is_some, text_eq, text_eq_iff, text_eq_refl, to_lower, nat_key,
  text_key, Option-cases, Bool-cases, inl, inr, get-modify, get-remove,
}
use echoi_rcd.Channel.Member.{Member}
use echoi_rcd.Channel.Record.{Channel}
use echoi_rcd.Server.Users.{User}
use echoi_rcd.Server.State.{Server}
use echoi_rcd.Server.Left.{member_of, member_of-modify}
use echoi_rcd.Membership.Joined.{lists_channel, lists_channel-modify, IsJoined, member_of-insert}
use echoi_rcd.Membership.Rename.{moved, move_users, renamed, rename_channel}

contains-keys : (v : ℕ) (ms : List (ℕ × Member)) → contains v (keys ms) ≡ contains_key v ms
unfolding get
contains-keys v [] = refl
contains-keys v ((m, w) ∷ ms) = ground (arith, contains-keys v ms)

module _ (old new key : Text) (v : ℕ) where
  -- What a user that is moved lists.
  lists_moved : List (ℕ × User) → Bool
  lists_moved users =
      is_some (get v users)
      && (text_eq new key || (not (text_eq old key) && lists_channel key v users))

  contains-moved :
      (u : User)
      → contains key (moved old new u).channels
        ≡ (text_eq new key || (not (text_eq old key) && contains key u.channels))
  contains-moved u =
      contains-set_insert new key (without old u.channels)
      ∙ ground (arith, contains-without old key u.channels)

  is_some-modify :
      (m : ℕ) (users : List (ℕ × User))
      → is_some (get v (modify m (moved old new) users)) ≡ is_some (get v users)
  is_some-modify m users = elim (Option-cases (get v users)) [
    | inl h ↦ rw (get-modify m v (moved old new) users) (ground (arith, h))
    | inr (u, h) ↦ rw (get-modify m v (moved old new) users) (ground (arith, h))
  ]

  lists-one :
      (m : ℕ) (users : List (ℕ × User))
      → lists_channel key v (modify m (moved old new) users)
        ≡ (if m == v then lists_moved users else lists_channel key v users)
  unfolding lists_moved
  lists-one m users = elim (Option-cases (get v users)) [
    | inl h ↦ rw (lists_channel-modify key v m (moved old new) users) (ground (arith, h))
    | inr (u, h) ↦
        rw (lists_channel-modify key v m (moved old new) users)
          (ground (arith, h, contains-moved u))
  ]

  lists-move_users :
      (ms : List ℕ) (users : List (ℕ × User))
      → lists_channel key v (move_users old new ms users)
        ≡ (if contains v ms then lists_moved users else lists_channel key v users)
  unfolding move_users lists_moved
  lists-move_users [] users = refl
  lists-move_users (m ∷ ms) users =
      lists-move_users ms (modify m (moved old new) users)
      ∙ ground (arith, lists-one m users, is_some-modify m users)

  member_of-remove :
      (chs : List (Text × Channel))
      → member_of key v (remove old chs) ≡ (if text_eq old key then false else member_of key v chs)
  unfolding get text_eq
  member_of-remove chs = rw (member_of, get-remove old key chs) (ground arith)

  member_of-renamed :
      (name : Text) (ch : Channel) (chs : List (Text × Channel))
      → member_of key v (insert new (renamed name ch) (remove old chs)) ≡ (
          if text_eq new key
          then contains_key v ch.members
          else if text_eq old key
          then false
          else member_of key v chs)
  member_of-renamed name ch chs =
      member_of-insert key v new (renamed name ch) (remove old chs)
      ∙ ap (λ b. if text_eq new key then contains_key v ch.members else b) (member_of-remove chs)

-- The channel has another key, which no channel has.
module _ (old new : Text) (ch : Channel) (s : Server) (ok : IsJoined s)
    (found : get old s.channels ≡ some ch) (free : contains_key new s.channels ≡ false) where
  new_unlisted : (key : Text) (v : ℕ) → text_eq new key ≡ true → lists_channel key v s.users ≡ false
  unfolding IsJoined
  new_unlisted key v h =
      let none_there : member_of new v s.channels ≡ false =
        elim (Option-cases (get new s.channels)) [
          | inl e ↦ rw (member_of, e) refl
          | inr (c, e) ↦ let bad : true ≡ false = rw (e) at free in cc
        ] in
      ap (λ k. lists_channel k v s.users) (sym ((text_eq_iff new key).0 h))
      ∙ sym (ok new v)
      ∙ none_there

  old_listed :
      (key : Text) (v : ℕ)
      → text_eq old key ≡ true
      → lists_channel key v s.users ≡ contains_key v ch.members
  unfolding IsJoined
  old_listed key v h =
      ap (λ k. lists_channel k v s.users) (sym ((text_eq_iff old key).0 h))
      ∙ sym (ok old v)
      ∙ (rw (member_of, found) refl)

  is_there : (v : ℕ) → contains_key v ch.members ≡ true → is_some (get v s.users) ≡ true
  unfolding get text_eq
  is_there v h = elim (Option-cases (get v s.users)) [
    | inl e ↦
        let listed : lists_channel old v s.users ≡ true = old_listed old v (text_eq_refl old) ∙ h in
        let bad : false ≡ true = rw (e) at listed in cc
    | inr (u, e) ↦ rw (e) refl
  ]

  moved-IsJoined :
      (name : Text) (key : Text) (v : ℕ)
      → member_of key v (insert new (renamed name ch) (remove old s.channels))
        ≡ lists_channel key v (move_users old new (keys ch.members) s.users)
  unfolding IsJoined lists_moved
  moved-IsJoined name key v =
      let shown = contains-keys v ch.members in
      member_of-renamed old new key v name ch s.channels
      ∙ elim (Bool-cases (contains_key v ch.members)) [
        | inl c ↦
            let there = is_there v c in
            elim (Bool-cases (text_eq new key)) [
              | inl h ↦ ground (arith, shown, c, h, there)
              | inr h ↦ ground (arith, shown, c, h, there, ok key v)
            ]
        | inr c ↦ elim (Bool-cases (text_eq new key)) [
          | inl h ↦ ground (arith, shown, c, h, new_unlisted key v h)
          | inr h ↦ elim (Bool-cases (text_eq old key)) [
            | inl k ↦ ground (arith, shown, c, h, k, old_listed key v k)
            | inr k ↦ ground (arith, shown, c, h, k, ok key v)
          ]
        ]
      ]
      ∙ sym (lists-move_users old new key v (keys ch.members) s.users)

renamed_here :
    (k name : Text) (s : Server)
    → IsJoined s
    → IsJoined (record s { channels = modify k (renamed name) s.channels })
unfolding IsJoined
renamed_here k name s ok key v =
    member_of-modify key v k (renamed name) s.channels (λ ch. refl) ∙ ok key v

pub rename_channel-IsJoined :
    (old name src reason : Text) (s : Server)
    → IsJoined s
    → IsJoined (rename_channel old name src reason s).1
unfolding IsJoined rename_channel
rename_channel-IsJoined old name src reason s ok = elim (Option-cases (get old s.channels)) [
  | inl e ↦ rw (rename_channel, e) ok
  | inr (ch, e) ↦ elim (Bool-cases (text_eq (to_lower name) old)) [
    | inl c ↦ rw (rename_channel, e, c) (renamed_here old name s ok)
    | inr c ↦ elim (Bool-cases (contains_key (to_lower name) s.channels)) [
      | inl k ↦ rw (rename_channel, e, c, k) ok
      | inr k ↦ rw (rename_channel, e, c, k) (moved-IsJoined old (to_lower name) ch s ok e k name)
    ]
  ]
]
