-- ===== src/Server/Watch.antt =====
-- src/watch.rs: the WATCH and MONITOR lists of the users, and the reverse index of each.
use echoi_rcd.Prelude.{
  ℕ, [], ◌∷◌, ◌++◌, none, some, Text, if◌then◌else◌, refl, get, modify, contains, without, index,
  unindex, unindex_all, Option-cases, Bool-cases, inl, inr, nat_key, text_key,
}
use echoi_rcd.Server.State.{Server}
use echoi_rcd.Server.Indexes.{
  Agrees, Agrees-add, Agrees-remove, Agrees-keep, Agrees-clear, shrunk, without_absent,
}

unfoldable pub watch_index_add : ℕ → Text → Server → Server
watch_index_add uid nick_low s = elim (get uid s.users) [
  | none ↦ s
  | some u ↦ if contains nick_low u.watch then s else record s {
    users = modify uid (λ v. record v { watch = v.watch ++ nick_low ∷ [] }) s.users;
    watch_by = index nick_low uid s.watch_by;
  }
]

unfoldable pub watch_index_remove : ℕ → Text → Server → Server
watch_index_remove uid nick_low s = elim (get uid s.users) [
  | none ↦ s
  | some u ↦
      let t = record s {
        users = modify uid (λ v. record v { watch = without nick_low v.watch }) s.users;
      } in
      if shrunk u.watch (without nick_low u.watch)
      then record t { watch_by = unindex uid nick_low s.watch_by }
      else t
]

unfoldable pub watch_index_clear : ℕ → Server → Server
watch_index_clear uid s = elim (get uid s.users) [
  | none ↦ s
  | some u ↦ record s {
    users = modify uid (λ v. record v { watch = [] }) s.users;
    watch_by = unindex_all uid u.watch s.watch_by;
  }
]

unfoldable pub monitor_index_add : ℕ → Text → Server → Server
monitor_index_add uid nick_low s = elim (get uid s.users) [
  | none ↦ s
  | some u ↦ if contains nick_low u.monitor then s else record s {
    users = modify uid (λ v. record v { monitor = v.monitor ++ nick_low ∷ [] }) s.users;
    monitor_by = index nick_low uid s.monitor_by;
  }
]

unfoldable pub monitor_index_remove : ℕ → Text → Server → Server
monitor_index_remove uid nick_low s = elim (get uid s.users) [
  | none ↦ s
  | some u ↦
      let t = record s {
        users = modify uid (λ v. record v { monitor = without nick_low v.monitor }) s.users;
      } in
      if shrunk u.monitor (without nick_low u.monitor)
      then record t { monitor_by = unindex uid nick_low s.monitor_by }
      else t
]

unfoldable pub monitor_index_clear : ℕ → Server → Server
monitor_index_clear uid s = elim (get uid s.users) [
  | none ↦ s
  | some u ↦ record s {
    users = modify uid (λ v. record v { monitor = [] }) s.users;
    monitor_by = unindex_all uid u.monitor s.monitor_by;
  }
]

-- Both indexes hold a connection under a nick exactly if its list has the nick.
abbrev pub IsSynced : Server → Type 0
IsSynced s = Agrees (λ u. u.watch) s.watch_by s.users × Agrees (λ u. u.monitor) s.monitor_by s.users

pub watch_index_add-IsSynced :
    (uid : ℕ) (n : Text) (s : Server) → IsSynced s → IsSynced (watch_index_add uid n s)
unfolding watch_index_add get
watch_index_add-IsSynced uid n s (w, m) = elim (Option-cases (get uid s.users)) [
  | inl h ↦ rw (h, watch_index_add) (w, m)
  | inr (u, h) ↦ elim (Bool-cases (contains n u.watch)) [
    | inl k ↦ rw (watch_index_add, h, k) (w, m)
    | inr k ↦
        rw (watch_index_add, h, k)
          (
            Agrees-add _ s.watch_by s.users _ uid u h n refl w,
            Agrees-keep _ s.monitor_by s.users _ uid u h refl m,
          )
  ]
]

pub watch_index_remove-IsSynced :
    (uid : ℕ) (n : Text) (s : Server) → IsSynced s → IsSynced (watch_index_remove uid n s)
unfolding watch_index_remove get
watch_index_remove-IsSynced uid n s (w, m) = elim (Option-cases (get uid s.users)) [
  | inl h ↦ rw (h, watch_index_remove) (w, m)
  | inr (u, h) ↦ elim (Bool-cases (shrunk u.watch (without n u.watch))) [
    | inl k ↦
        rw (watch_index_remove, h, k)
          (
            Agrees-remove _ s.watch_by s.users _ uid u h n refl w,
            Agrees-keep _ s.monitor_by s.users _ uid u h refl m,
          )
    | inr k ↦
        rw (watch_index_remove, h, k)
          (
            Agrees-keep _ s.watch_by s.users _ uid u h (without_absent n u.watch k) w,
            Agrees-keep _ s.monitor_by s.users _ uid u h refl m,
          )
  ]
]

pub watch_index_clear-IsSynced :
    (uid : ℕ) (s : Server) → IsSynced s → IsSynced (watch_index_clear uid s)
unfolding watch_index_clear get
watch_index_clear-IsSynced uid s (w, m) = elim (Option-cases (get uid s.users)) [
  | inl h ↦ rw (h, watch_index_clear) (w, m)
  | inr (u, h) ↦
      rw (watch_index_clear, h)
        (
          Agrees-clear _ s.watch_by s.users _ uid u h refl w,
          Agrees-keep _ s.monitor_by s.users _ uid u h refl m,
        )
]

pub monitor_index_add-IsSynced :
    (uid : ℕ) (n : Text) (s : Server) → IsSynced s → IsSynced (monitor_index_add uid n s)
unfolding monitor_index_add get
monitor_index_add-IsSynced uid n s (w, m) = elim (Option-cases (get uid s.users)) [
  | inl h ↦ rw (h, monitor_index_add) (w, m)
  | inr (u, h) ↦ elim (Bool-cases (contains n u.monitor)) [
    | inl k ↦ rw (monitor_index_add, h, k) (w, m)
    | inr k ↦
        rw (monitor_index_add, h, k)
          (
            Agrees-keep _ s.watch_by s.users _ uid u h refl w,
            Agrees-add _ s.monitor_by s.users _ uid u h n refl m,
          )
  ]
]

pub monitor_index_remove-IsSynced :
    (uid : ℕ) (n : Text) (s : Server) → IsSynced s → IsSynced (monitor_index_remove uid n s)
unfolding monitor_index_remove get
monitor_index_remove-IsSynced uid n s (w, m) = elim (Option-cases (get uid s.users)) [
  | inl h ↦ rw (h, monitor_index_remove) (w, m)
  | inr (u, h) ↦ elim (Bool-cases (shrunk u.monitor (without n u.monitor))) [
    | inl k ↦
        rw (monitor_index_remove, h, k)
          (
            Agrees-keep _ s.watch_by s.users _ uid u h refl w,
            Agrees-remove _ s.monitor_by s.users _ uid u h n refl m,
          )
    | inr k ↦
        rw (monitor_index_remove, h, k)
          (
            Agrees-keep _ s.watch_by s.users _ uid u h refl w,
            Agrees-keep _ s.monitor_by s.users _ uid u h (without_absent n u.monitor k) m,
          )
  ]
]

pub monitor_index_clear-IsSynced :
    (uid : ℕ) (s : Server) → IsSynced s → IsSynced (monitor_index_clear uid s)
unfolding monitor_index_clear get
monitor_index_clear-IsSynced uid s (w, m) = elim (Option-cases (get uid s.users)) [
  | inl h ↦ rw (h, monitor_index_clear) (w, m)
  | inr (u, h) ↦
      rw (monitor_index_clear, h)
        (
          Agrees-keep _ s.watch_by s.users _ uid u h refl w,
          Agrees-clear _ s.monitor_by s.users _ uid u h refl m,
        )
]

-- What a connection does to its WATCH and MONITOR lists.
pub data Change : Type 0 where
  watch_add : ℕ → Text → Change
  watch_remove : ℕ → Text → Change
  watch_clear : ℕ → Change
  monitor_add : ℕ → Text → Change
  monitor_remove : ℕ → Text → Change
  monitor_clear : ℕ → Change

abbrev pub apply : Change → Server → Server
apply (watch_add uid n) = watch_index_add uid n
apply (watch_remove uid n) = watch_index_remove uid n
apply (watch_clear uid) = watch_index_clear uid
apply (monitor_add uid n) = monitor_index_add uid n
apply (monitor_remove uid n) = monitor_index_remove uid n
apply (monitor_clear uid) = monitor_index_clear uid

-- If the reverse indexes of WATCH and MONITOR agree with the lists of the users, they do so after
-- every change of a list.
pub apply-IsSynced : (c : Change) (s : Server) → IsSynced s → IsSynced (apply c s)
apply-IsSynced (watch_add uid n) = watch_index_add-IsSynced uid n
apply-IsSynced (watch_remove uid n) = watch_index_remove-IsSynced uid n
apply-IsSynced (watch_clear uid) = watch_index_clear-IsSynced uid
apply-IsSynced (monitor_add uid n) = monitor_index_add-IsSynced uid n
apply-IsSynced (monitor_remove uid n) = monitor_index_remove-IsSynced uid n
apply-IsSynced (monitor_clear uid) = monitor_index_clear-IsSynced uid
