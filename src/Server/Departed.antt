-- ===== src/Server/Departed.antt =====
-- What holds once `remove_user` has run.
use echoi_rcd.Prelude.{
  ℕ, Bool, true, false, List, [], ◌∷◌, some, Text, if◌then◌else◌, ltb, ◌≡◌, ◌≢◌, refl, arith,
  is_nil, is_nil-false, to_lower, get, remove, without, unindex_all, text_eq, text_eq_refl, nat_key,
  text_key, Option-cases, Bool-cases, inl, inr,
}
use echoi_rcd.Server.Users.{User}
use echoi_rcd.Server.State.{Server}
use echoi_rcd.Server.Indexes.{Agrees, Agrees-gone, listed}
use echoi_rcd.Server.Watch.{IsSynced}
use echoi_rcd.Server.Accept.{
  Covers, accepted, acceptors, occurrences-without, accepted-remove, get_same, lower_counts,
  map_users, acceptors-remove, accepted-lower_counts,
}
use echoi_rcd.Server.Quit.{
  remove_user, drop_user, scrub_nick, announce_if, announce_quit, drop_indexes, push_whowas,
  watch_notify_offline,
}

listed-map_users :
    (p : User → List Text) (f : User → User) (v : ℕ) (us : List (ℕ × User))
    → ((u : User) → p (f u) ≡ p u)
    → listed p v (map_users f us) ≡ listed p v us
unfolding get
listed-map_users p f v [] h = refl
listed-map_users p f v ((k, u) ∷ us) h = ground (arith, listed-map_users p f v us h, h u)

Agrees-map_users :
    (p : User → List Text) (by : List (Text × List ℕ)) (f : User → User) (us : List (ℕ × User))
    → ((u : User) → p (f u) ≡ p u)
    → Agrees p by us
    → Agrees p by (map_users f us)
Agrees-map_users p by f us h a n v = rw (listed-map_users p f v us h) (a n v)

scrub_nick-IsSynced : (nick : Text) (s : Server) → IsSynced s → IsSynced (scrub_nick nick s)
unfolding scrub_nick
scrub_nick-IsSynced nick s (w, m) = elim (Bool-cases (is_nil nick)) [
  | inl h ↦ rw (scrub_nick, h) (w, m)
  | inr h ↦ elim (Bool-cases (ltb 0 (accepted (to_lower nick) s.accepted_nicks))) [
    | inl k ↦
        rw (scrub_nick, h, k)
          (
            Agrees-map_users _ s.watch_by _ s.users (λ u. refl) w,
            Agrees-map_users _ s.monitor_by _ s.users (λ u. refl) m,
          )
    | inr k ↦ rw (scrub_nick, h, k) (w, m)
  ]
]

announce_if-IsSynced :
    (b : Bool) (uid : ℕ) (u : User) (reason : Text) (s : Server)
    → IsSynced s
    → IsSynced (announce_if b uid u reason s)
unfolding announce_if announce_quit watch_notify_offline
announce_if-IsSynced true uid u reason s sync = sync
announce_if-IsSynced false uid u reason s sync = sync

announce_if-Covers :
    (b : Bool) (uid : ℕ) (u : User) (reason : Text) (s : Server)
    → Covers s
    → Covers (announce_if b uid u reason s)
unfolding announce_if announce_quit watch_notify_offline
announce_if-Covers true uid u reason s cover = cover
announce_if-Covers false uid u reason s cover = cover

pub announce_if-users :
    (b : Bool) (uid : ℕ) (u : User) (reason : Text) (s : Server)
    → (announce_if b uid u reason s).users ≡ s.users
unfolding announce_if announce_quit watch_notify_offline
announce_if-users true uid u reason s = refl
announce_if-users false uid u reason s = refl

pub drop_user-users :
    (uid : ℕ) (u : User) (reason : Text) (s : Server)
    → (drop_user uid u reason s).users ≡ remove uid s.users
unfolding drop_user drop_indexes push_whowas
drop_user-users uid u reason s = ground arith

drop_user-watch_by :
    (uid : ℕ) (u : User) (reason : Text) (s : Server)
    → (drop_user uid u reason s).watch_by ≡ unindex_all uid u.watch s.watch_by
unfolding drop_user drop_indexes push_whowas
drop_user-watch_by uid u reason s = ground arith

drop_user-monitor_by :
    (uid : ℕ) (u : User) (reason : Text) (s : Server)
    → (drop_user uid u reason s).monitor_by ≡ unindex_all uid u.monitor s.monitor_by
unfolding drop_user drop_indexes push_whowas
drop_user-monitor_by uid u reason s = ground arith

drop_user-accepted_nicks :
    (uid : ℕ) (u : User) (reason : Text) (s : Server)
    → (drop_user uid u reason s).accepted_nicks ≡ lower_counts u.accept s.accepted_nicks
unfolding drop_user drop_indexes push_whowas
drop_user-accepted_nicks uid u reason s = ground arith

pub drop_user-channels :
    (uid : ℕ) (u : User) (reason : Text) (s : Server)
    → (drop_user uid u reason s).channels ≡ s.channels
unfolding drop_user drop_indexes push_whowas
drop_user-channels uid u reason s = ground arith

drop_user-IsSynced :
    (uid : ℕ) (u : User) (reason : Text) (s : Server)
    → get uid s.users ≡ some u
    → IsSynced s
    → IsSynced (drop_user uid u reason s)
drop_user-IsSynced uid u reason s h (w, m) =
    rw
      (
        drop_user-users uid u reason s,
        drop_user-watch_by uid u reason s,
        drop_user-monitor_by uid u reason s,
      )
      (Agrees-gone _ s.watch_by s.users uid u h w, Agrees-gone _ s.monitor_by s.users uid u h m)

-- If the reverse indexes of WATCH and MONITOR agree with the lists of the users, they do so after
-- the removal of a user.
pub remove_user-IsSynced :
    (uid : ℕ) (reason : Text) (s : Server) → IsSynced s → IsSynced (remove_user uid reason s)
unfolding remove_user get
remove_user-IsSynced uid reason s sync = elim (Option-cases (get uid s.users)) [
  | inl h ↦ rw (remove_user, h) sync
  | inr (u, h) ↦
      rw (remove_user, h)
        (announce_if-IsSynced u.registered uid u reason _
          (scrub_nick-IsSynced u.nick _ (drop_user-IsSynced uid u reason s h sync)))
]

drop_user-Covers :
    (uid : ℕ) (u : User) (reason : Text) (s : Server)
    → get uid s.users ≡ some u
    → Covers s
    → Covers (drop_user uid u reason s)
drop_user-Covers uid u reason s h cover n =
    rw
      (
        drop_user-users uid u reason s,
        drop_user-accepted_nicks uid u reason s,
        accepted-lower_counts n u.accept s.accepted_nicks,
      )
      (omega (arith, acceptors-remove n uid u s.users h, cover n))

acceptors-scrub :
    (n low : Text) (us : List (ℕ × User))
    → acceptors n (map_users (λ u. record u { accept = without low u.accept }) us)
      ≡ (if text_eq low n then 0 else acceptors n us)
acceptors-scrub n low [] = ground arith
acceptors-scrub n low ((k, u) ∷ us) =
    ground (arith, acceptors-scrub n low us, occurrences-without n low u.accept)

scrub_nick-Covers : (nick : Text) (s : Server) → Covers s → Covers (scrub_nick nick s)
unfolding scrub_nick
scrub_nick-Covers nick s cover n = elim (Bool-cases (is_nil nick)) [
  | inl h ↦ rw (scrub_nick, h) (cover n)
  | inr h ↦
      let low = to_lower nick in
      let removed = accepted-remove low n s.accepted_nicks in
      elim (Bool-cases (ltb 0 (accepted low s.accepted_nicks))) [
        | inl k ↦
            rw (scrub_nick, h, k, acceptors-scrub n low s.users) (ground (arith, cover n, removed))
        | inr k ↦
            rw (scrub_nick, h, k)
              (ground (arith, cover n, removed, get_same low n s.accepted_nicks))
      ]
]

-- If the count of each accepted nick is at least the number of its entries in the accept lists,
-- it is so after the removal of a user as well.
pub remove_user-Covers :
    (uid : ℕ) (reason : Text) (s : Server) → Covers s → Covers (remove_user uid reason s)
unfolding remove_user get
remove_user-Covers uid reason s cover = elim (Option-cases (get uid s.users)) [
  | inl h ↦ rw (remove_user, h) cover
  | inr (u, h) ↦
      rw (remove_user, h)
        (announce_if-Covers u.registered uid u reason _
          (scrub_nick-Covers u.nick _ (drop_user-Covers uid u reason s h cover)))
]

scrub_nick-acceptors :
    (nick : Text) (s : Server)
    → Covers s
    → is_nil nick ≡ false
    → acceptors (to_lower nick) (scrub_nick nick s).users ≡ 0
unfolding scrub_nick
scrub_nick-acceptors nick s cover ne =
    let low = to_lower nick in
    elim (Bool-cases (ltb 0 (accepted low s.accepted_nicks))) [
      | inl k ↦
          rw (scrub_nick, ne, k, acceptors-scrub low low s.users) (ground (arith, text_eq_refl low))
      | inr k ↦ rw (scrub_nick, ne, k) (ground (arith, cover low))
    ]

-- After the removal of a user with a nick no accept list holds its nick, if the counts were large
-- enough before, so that the next to take the nick is not accepted in its place.
pub remove_user-acceptors :
    (uid : ℕ) (u : User) (reason : Text) (s : Server)
    → Covers s
    → get uid s.users ≡ some u
    → u.nick ≢ []
    → acceptors (to_lower u.nick) (remove_user uid reason s).users ≡ 0
unfolding remove_user get
remove_user-acceptors uid u reason s cover h ne =
    rw (remove_user, h, announce_if-users u.registered uid u reason)
      (scrub_nick-acceptors u.nick _ (drop_user-Covers uid u reason s h cover)
        (is_nil-false u.nick ne))
