-- ===== src/Membership/Joined.antt =====
-- The members of the channels against the channel lists of the users.
use echoi_rcd.Prelude.{
  ℕ, Bool, true, false, ◌||◌, ◌&&◌, List, none, some, Text, if◌then◌else◌, ◌==◌, ==_iff, ◌≡◌, refl,
  sym, ◌∙◌, ap, arith, get, get_or, map_option, insert, modify, remove, contains, contains-without,
  contains-set_insert, contains_key, without, set_insert, text_eq, text_eq_iff, nat_key, text_key,
  Option-cases, Bool-cases, inl, inr, get-insert, get-modify,
}
use echoi_rcd.Channel.Member.{Member}
use echoi_rcd.Channel.Record.{Channel}
use echoi_rcd.Server.Users.{User}
use echoi_rcd.Server.State.{Server}
use echoi_rcd.Server.Left.{member_of, member_of-retain_values, contains_key-remove}
use echoi_rcd.Membership.{drop_member}

-- Whether a user lists a channel.
abbrev pub lists_channel : Text → ℕ → List (ℕ × User) → Bool
lists_channel key uid users =
    get_or (map_option (λ u. contains key u.channels) (get uid users)) false

-- A user is a member of just the channels that it lists.
unfoldable pub IsJoined : Server → Type 0
IsJoined s = (key : Text) (uid : ℕ) → member_of key uid s.channels ≡ lists_channel key uid s.users

pub member_of-change :
    (key : Text) (v : ℕ) (k : Text) (f : Channel → Channel) (chs : List (Text × Channel))
    → member_of key v (modify k f chs) ≡ (
        if text_eq k key
        then elim (get key chs) [ none ↦ false | some ch ↦ contains_key v (f ch).members ]
        else member_of key v chs)
unfolding get text_eq
member_of-change key v k f chs = elim (Option-cases (get key chs)) [
  | inl h ↦ rw (member_of, get-modify k key f chs) (ground (arith, h))
  | inr (ch, h) ↦ rw (member_of, get-modify k key f chs) (ground (arith, h))
]

pub lists_channel-modify :
    (key : Text) (v uid : ℕ) (f : User → User) (users : List (ℕ × User))
    → lists_channel key v (modify uid f users) ≡ (
        if uid == v
        then get_or (map_option (λ u. contains key (f u).channels) (get v users)) false
        else lists_channel key v users)
unfolding get
lists_channel-modify key v uid f users = elim (Option-cases (get v users)) [
  | inl h ↦ rw (get-modify uid v f users) (ground (arith, h))
  | inr (u, h) ↦ rw (get-modify uid v f users) (ground (arith, h))
]

pub lists_channel_kept :
    (key : Text) (v uid : ℕ) (f : User → User) (users : List (ℕ × User))
    → ((u : User) → (f u).channels ≡ u.channels)
    → lists_channel key v (modify uid f users) ≡ lists_channel key v users
lists_channel_kept key v uid f users same = elim (Option-cases (get v users)) [
  | inl h ↦ rw (lists_channel-modify key v uid f users) (ground (arith, h))
  | inr (u, h) ↦ rw (lists_channel-modify key v uid f users) (ground (arith, h, same u))
]

pub member_of-drop_member :
    (key : Text) (v uid : ℕ) (k : Text) (s : Server)
    → member_of key v (drop_member uid k s).channels
      ≡ (if text_eq k key && uid == v then false else member_of key v s.channels)
unfolding drop_member
member_of-drop_member key v uid k s =
    let f = λ (ch : Channel). record ch { members = remove uid ch.members } in
    member_of-retain_values key v (modify k f s.channels)
    ∙ elim (Option-cases (get key s.channels)) [
      | inl h ↦ rw (member_of-change key v k f s.channels) (ground (arith, h))
      | inr (ch, h) ↦
          rw (member_of-change key v k f s.channels)
            (ground (arith, h, contains_key-remove uid v ch.members))
    ]

lists_channel-drop_member :
    (key : Text) (v uid : ℕ) (k : Text) (s : Server)
    → lists_channel key v (drop_member uid k s).users
      ≡ (if text_eq k key && uid == v then false else lists_channel key v s.users)
unfolding drop_member
lists_channel-drop_member key v uid k s =
    let f = λ (u : User). record u { channels = without k u.channels } in
    elim (Option-cases (get v s.users)) [
      | inl h ↦ rw (lists_channel-modify key v uid f s.users) (ground (arith, h))
      | inr (u, h) ↦
          rw (lists_channel-modify key v uid f s.users)
            (ground (arith, h, contains-without k key u.channels))
    ]

pub drop_member-IsJoined :
    (uid : ℕ) (key : Text) (s : Server) → IsJoined s → IsJoined (drop_member uid key s)
unfolding IsJoined
drop_member-IsJoined uid k s ok key v =
    rw (member_of-drop_member key v uid k s, lists_channel-drop_member key v uid k s, ok key v) refl

pub member_of-insert :
    (key : Text) (v : ℕ) (k : Text) (ch : Channel) (chs : List (Text × Channel))
    → member_of key v (insert k ch chs)
      ≡ (if text_eq k key then contains_key v ch.members else member_of key v chs)
unfolding get text_eq
member_of-insert key v k ch chs = rw (member_of, get-insert k key ch chs) (ground arith)

contains_key-insert :
    (uid v : ℕ) (m : Member) (ms : List (ℕ × Member))
    → contains_key v (insert uid m ms) ≡ ((uid == v) || contains_key v ms)
contains_key-insert uid v m ms = rw (contains_key, get-insert uid v m ms) (ground arith)

member_of-congr :
    (k key : Text) (v : ℕ) (chs : List (Text × Channel))
    → text_eq k key ≡ true
    → member_of k v chs ≡ member_of key v chs
member_of-congr k key v chs h = ap (λ n. member_of n v chs) ((text_eq_iff k key).0 h)

pub get_user_same :
    (uid v : ℕ) (users : List (ℕ × User)) → (uid == v) ≡ true → get v users ≡ get uid users
get_user_same uid v users h = ap (λ n. get n users) (sym ((==_iff uid v).0 h))

pub member_of-arrived :
    (key : Text) (v uid : ℕ) (k : Text) (ch : Channel) (m : Member) (ms : List (ℕ × Member))
    (chs : List (Text × Channel))
    → ch.members ≡ insert uid m ms
    → contains_key v ms ≡ member_of k v chs
    → member_of key v (insert k ch chs) ≡ ((text_eq k key && uid == v) || member_of key v chs)
member_of-arrived key v uid k ch m ms chs e same =
    let inside : contains_key v ch.members ≡ ((uid == v) || member_of k v chs) =
      ap (contains_key v) e ∙ contains_key-insert uid v m ms ∙ ap (λ b. (uid == v) || b) same in
    member_of-insert key v k ch chs ∙ elim (Bool-cases (text_eq k key)) [
      | inl h ↦ rw (h) (inside ∙ ap (λ b. (uid == v) || b) (member_of-congr k key v chs h))
      | inr h ↦ rw (h) refl
    ]

lists_channel-arrived :
    (key : Text) (v uid : ℕ) (k : Text) (f : User → User) (u : User) (users : List (ℕ × User))
    → get uid users ≡ some u
    → (f u).channels ≡ set_insert k u.channels
    → lists_channel key v (modify uid f users)
      ≡ ((text_eq k key && uid == v) || lists_channel key v users)
lists_channel-arrived key v uid k f u users found e =
    lists_channel-modify key v uid f users ∙ elim (Bool-cases (uid == v)) [
      | inl h ↦
          rw (h, get_user_same uid v users h, found)
            (ap (contains key) e ∙ contains-set_insert k key u.channels ∙ ground arith)
      | inr h ↦ rw (h) (ground arith)
    ]

-- A user that is there, and that arrives on a channel.
pub admitted-IsJoined :
    (uid : ℕ) (u : User) (k : Text) (before after : Channel) (m : Member) (f : User → User)
    (s : Server)
    → get uid s.users ≡ some u
    → ((v : ℕ) → contains_key v before.members ≡ member_of k v s.channels)
    → after.members ≡ insert uid m before.members
    → (f u).channels ≡ set_insert k u.channels
    → IsJoined s
    → IsJoined (record s { channels = insert k after s.channels; users = modify uid f s.users })
unfolding IsJoined
admitted-IsJoined uid u k before after m f s found same e lists ok key v =
    member_of-arrived key v uid k after m before.members s.channels e (same v)
    ∙ ap (λ b. (text_eq k key && uid == v) || b) (ok key v)
    ∙ sym (lists_channel-arrived key v uid k f u s.users found lists)
