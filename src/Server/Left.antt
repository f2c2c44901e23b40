-- ===== src/Server/Left.antt =====
-- What `remove_user` does to the channels.
use echoi_rcd.Prelude.{
  ℕ, Bool, true, false, ◌&&◌, List, [], ◌∷◌, none, some, Text, if◌then◌else◌, ◌==◌, ==_iff, ◌≡◌,
  refl, sym, ◌∙◌, ap, arith, is_nil, get, modify, remove, retain_values, contains, contains_key,
  without, text_eq, text_eq_iff, nat_key, text_key, Option-cases, Bool-cases, inl, inr, get-insert,
  get-modify, get-remove, get-retain_values, get_or, subst,
}
use echoi_rcd.Channel.Member.{Member}
use echoi_rcd.Channel.Record.{Channel, keep_alive, is_empty}
use echoi_rcd.Server.Users.{User}
use echoi_rcd.Server.State.{Server}
use echoi_rcd.Server.Departed.{drop_user-channels}
use echoi_rcd.Server.Quit.{
  remove_user, drop_user, scrub_nick, announce_if, announce_quit, watch_notify_offline, Leaving,
  leave_channel, leave_channels, uninvite,
}

-- `is_member` on the table of channels
abbrev pub member_of : Text → ℕ → List (Text × Channel) → Bool
member_of key uid channels = elim (get key channels) [
  | none ↦ false
  | some ch ↦ contains_key uid ch.members
]

pub get_same :
    (n m : Text) (chs : List (Text × Channel)) → text_eq n m ≡ true → get n chs ≡ get m chs
get_same n m chs h = rw ((text_eq_iff n m).0 h)

pub contains_key-remove :
    (uid v : ℕ) (ms : List (ℕ × Member))
    → contains_key v (remove uid ms) ≡ (if uid == v then false else contains_key v ms)
contains_key-remove uid v ms = rw (contains_key, get-remove uid v ms) (ground arith)

member_of-leave_channel :
    (key : Text) (uid v : ℕ) (k : Text) (acc : Leaving)
    → member_of key v (leave_channel uid k acc).0
      ≡ (if text_eq k key && uid == v then false else member_of key v acc.0)
unfolding leave_channel get text_eq
member_of-leave_channel key uid v k (chs, seen) = elim (Option-cases (get k chs)) [
  | inl h ↦ rw (leave_channel, h) (ground (arith, get_same k key chs))
  | inr (ch, h) ↦
      rw
        (
          leave_channel,
          h,
          member_of,
          get-insert k key (record ch { members = remove uid ch.members }) chs,
        )
        (ground (arith, get_same k key chs, contains_key-remove uid v ch.members))
]

member_of-leave_channels :
    (key : Text) (uid v : ℕ) (ks : List Text) (acc : Leaving)
    → member_of key v (leave_channels uid ks acc).0
      ≡ (if contains key ks && uid == v then false else member_of key v acc.0)
unfolding leave_channels
member_of-leave_channels key uid v [] acc = refl
member_of-leave_channels key uid v (k ∷ ks) acc = ground (
  arith,
  member_of-leave_channels key uid v ks (leave_channel uid k acc),
  member_of-leave_channel key uid v k acc,
)

pub member_of-modify :
    (key : Text) (v : ℕ) (k : Text) (f : Channel → Channel) (chs : List (Text × Channel))
    → ((ch : Channel) → (f ch).members ≡ ch.members)
    → member_of key v (modify k f chs) ≡ member_of key v chs
unfolding get text_eq
member_of-modify key v k f chs same = elim (Option-cases (get key chs)) [
  | inl h ↦ rw (member_of, get-modify k key f chs) (ground (arith, h))
  | inr (ch, h) ↦ rw (member_of, get-modify k key f chs) (ground (arith, h, same ch))
]

member_of-uninvite :
    (key : Text) (uid v : ℕ) (ks : List Text) (chs : List (Text × Channel))
    → member_of key v (uninvite uid ks chs) ≡ member_of key v chs
unfolding uninvite
member_of-uninvite key uid v [] chs = refl
member_of-uninvite key uid v (k ∷ ks) chs =
    member_of-uninvite key uid v ks
      (modify k (λ ch. record ch { invites = without uid ch.invites }) chs)
    ∙ member_of-modify key v k (λ ch. record ch { invites = without uid ch.invites }) chs
        (λ ch. refl)

not_empty : (v : ℕ) (ms : List (ℕ × Member)) → contains_key v ms ≡ true → is_nil ms ≡ false
unfolding get
not_empty v [] h = cc
not_empty v (m ∷ ms) h = refl

ch_kept : (v : ℕ) (ch : Channel) → contains_key v ch.members ≡ true → keep_alive ch ≡ true
unfolding keep_alive is_empty
ch_kept v ch h = ground (arith, not_empty v ch.members h)

-- A channel with a member is kept.
pub member_of-retain_values :
    (key : Text) (v : ℕ) (chs : List (Text × Channel))
    → member_of key v (retain_values keep_alive chs) ≡ member_of key v chs
unfolding get
member_of-retain_values key v chs = elim (Option-cases (get key chs)) [
  | inl h ↦ rw (member_of, get-retain_values keep_alive key chs) (ground (arith, h))
  | inr (ch, h) ↦
      rw (member_of, get-retain_values keep_alive key chs) (ground (arith, h, ch_kept v ch))
]

pub scrub_nick-channels : (nick : Text) (s : Server) → (scrub_nick nick s).channels ≡ s.channels
unfolding scrub_nick
scrub_nick-channels nick s = ground arith

announce_if-channels :
    (b : Bool) (uid : ℕ) (u : User) (reason : Text) (s : Server)
    → b ≡ true
    → (announce_if b uid u reason s).channels
      ≡ retain_values keep_alive
          (uninvite uid u.invited (leave_channels uid u.channels (s.channels, [])).0)
unfolding announce_if announce_quit watch_notify_offline
announce_if-channels true uid u reason s e = refl
announce_if-channels false uid u reason s e = cc

member_same :
    (key : Text) (uid v : ℕ) (chs : List (Text × Channel))
    → (uid == v) ≡ true
    → member_of key uid chs ≡ member_of key v chs
member_same key uid v chs h = rw ((==_iff uid v).0 h)

-- The removal of a registered user takes it out of every channel, if its own list of channels is
-- complete, and takes nobody else out of any.
pub remove_user-member_of :
    (uid : ℕ) (u : User) (reason : Text) (s : Server)
    → get uid s.users ≡ some u
    → u.registered ≡ true
    → ((key : Text) → member_of key uid s.channels ≡ true → contains key u.channels ≡ true)
    → (key : Text) (v : ℕ)
    → member_of key v (remove_user uid reason s).channels
      ≡ (if uid == v then false else member_of key v s.channels)
unfolding remove_user get
remove_user-member_of uid u reason s h reg listed key v =
    let left = leave_channels uid u.channels (s.channels, []) in
    rw
      (
        remove_user,
        h,
        announce_if-channels u.registered uid u reason
            (scrub_nick u.nick (drop_user uid u reason s)) reg,
        scrub_nick-channels u.nick (drop_user uid u reason s),
        drop_user-channels uid u reason s,
        member_of-retain_values key v (uninvite uid u.invited left.0),
        member_of-uninvite key uid v u.invited left.0,
        member_of-leave_channels key uid v u.channels (s.channels, []),
      )
      (ground (arith, listed key, member_same key uid v s.channels))

all_alive :
    (key : Text) (ch : Channel) (chs : List (Text × Channel))
    → get key (retain_values keep_alive chs) ≡ some ch
    → keep_alive ch ≡ true
all_alive key ch chs e = elim (Option-cases (get key chs)) [
  | inl h ↦ ground (arith, get-retain_values keep_alive key chs, h)
  | inr (c, h) ↦ elim (Bool-cases (keep_alive c)) [
    | inl k ↦
        let kept : get key (retain_values keep_alive chs) ≡ some c =
          rw (get-retain_values keep_alive key chs, h, k) refl in
        subst (λ x. keep_alive x ≡ true) (ap (λ o. get_or o c) (sym kept ∙ e)) k
    | inr k ↦ ground (arith, get-retain_values keep_alive key chs, h, k)
  ]
]

-- After the removal of a registered user every channel that is left has members or is to persist.
pub remove_user-keep_alive :
    (uid : ℕ) (u : User) (reason : Text) (s : Server)
    → get uid s.users ≡ some u
    → u.registered ≡ true
    → (key : Text) (ch : Channel) → get key (remove_user uid reason s).channels ≡ some ch
    → keep_alive ch ≡ true
unfolding remove_user get
remove_user-keep_alive uid u reason s h reg key ch =
    rw
      (
        remove_user,
        h,
        announce_if-channels u.registered uid u reason
            (scrub_nick u.nick (drop_user uid u reason s)) reg,
      )
      (all_alive key ch _)
