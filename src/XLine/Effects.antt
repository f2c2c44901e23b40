-- ===== src/XLine/Effects.antt =====
-- What the operations on the table of bans do to the table and to the decisions about users.
use echoi_rcd.Prelude.{
  ℕ, ◌+◌, ◌≤◌, ◌<◌, ◌||◌, ◌==◌, max_u64, Bool, true, false, not, ◌&&◌, List, [], ◌∷◌, Text,
  if◌then◌else◌, ltb, ◌≡◌, refl, sym, ◌∙◌, arith, any, retain, length, is_nil, text_eq, text_eq_iff,
  ap₂, and_left, and_right, Option-cases, Bool-cases, inl, inr, get, nat_key,
}
use echoi_rcd.Server.Users.{User}
use echoi_rcd.Server.State.{Server}
use echoi_rcd.Server.Quit.{
  remove_user, drop_user, drop_indexes, push_whowas, scrub_nick, announce_if, announce_quit,
  watch_notify_offline,
}
use echoi_rcd.XLine.Kinds.{XKind, XLine, kind_eq, tag}
use echoi_rcd.XLine.Match.{is_active, applies, xmatch, xline_active}
use echoi_rcd.XLine.Unique.{Unique, put_line-Unique}
use echoi_rcd.XLine.Table.{
  same_line, put_line, new_line, add_xline_at, remove_xline, purge_xlines, named, refuse_banned,
  refuse_all, enforce_xlines, victims_of, publish_if, store_line,
}

target_apart :
    (x y : XLine) (k : XKind) (m : Text)
    → (kind_eq x.kind k && text_eq x.mask m) ≡ true
    → (kind_eq y.kind k && text_eq y.mask m) ≡ same_line x y
target_apart x y k m h =
    let kinds = (text_eq_iff (tag x.kind) (tag k)).0 (and_left _ _ h) in
    let masks = (text_eq_iff x.mask m).0 (and_right _ _ h) in
    ap₂ (λ t n. text_eq (tag y.kind) t && text_eq y.mask n) (sym kinds) (sym masks)

target_same :
    (x y : XLine) (k : XKind) (m : Text)
    → same_line x y ≡ true
    → (kind_eq y.kind k && text_eq y.mask m) ≡ (kind_eq x.kind k && text_eq x.mask m)
target_same x y k m h =
    let kinds = (text_eq_iff (tag y.kind) (tag x.kind)).0 (and_left _ _ h) in
    let masks = (text_eq_iff y.mask x.mask).0 (and_right _ _ h) in
    ap₂ (λ t n. text_eq t (tag k) && text_eq n m) kinds masks

-- What the removal of a user leaves as it is.
abbrev Keeps : (Server → Server) → Type 0
Keeps f = (s : Server) → ((f s).xlines ≡ s.xlines) × ((f s).clock ≡ s.clock)

drop_user-Keeps : (uid : ℕ) (u : User) (reason : Text) → Keeps (drop_user uid u reason)
unfolding drop_user drop_indexes push_whowas
drop_user-Keeps uid u reason s = ground arith

scrub_nick-Keeps : (nick : Text) → Keeps (scrub_nick nick)
unfolding scrub_nick
scrub_nick-Keeps nick s = ground arith

announce_if-Keeps :
    (b : Bool) (uid : ℕ) (u : User) (reason : Text) → Keeps (announce_if b uid u reason)
unfolding announce_if announce_quit watch_notify_offline
announce_if-Keeps true uid u reason s = (refl, refl)
announce_if-Keeps false uid u reason s = (refl, refl)

remove_user-Keeps : (uid : ℕ) (reason : Text) → Keeps (remove_user uid reason)
unfolding remove_user get
remove_user-Keeps uid reason s = elim (Option-cases (get uid s.users)) [
  | inl h ↦ rw (remove_user, h) (refl, refl)
  | inr (u, h) ↦
      let a = drop_user-Keeps uid u reason s in
      let b = scrub_nick-Keeps u.nick (drop_user uid u reason s) in
      let c =
        announce_if-Keeps u.registered uid u reason
          (scrub_nick u.nick (drop_user uid u reason s)) in
      rw (remove_user, h) (c.0 ∙ b.0 ∙ a.0, c.1 ∙ b.1 ∙ a.1)
]

module _ (catalog to_lowercase : Text → Text) where
  refuse_all-Keeps : (victims : List (ℕ × Text)) → Keeps (refuse_all catalog to_lowercase victims)
  unfolding refuse_all refuse_banned
  refuse_all-Keeps [] s = (refl, refl)
  refuse_all-Keeps ((uid, reason) ∷ vs) s =
      let a = refuse_all-Keeps vs (refuse_banned catalog to_lowercase uid reason s) in
      let b = remove_user-Keeps uid reason _ in (a.0 ∙ b.0, a.1 ∙ b.1)

  enforce_xlines-Keeps : Keeps (enforce_xlines catalog to_lowercase)
  unfolding enforce_xlines
  enforce_xlines-Keeps s = refuse_all-Keeps (victims_of catalog to_lowercase s s.users) s

  publish_if-Keeps : (b : Bool) (fields : List Text) → Keeps (publish_if b fields)
  unfolding publish_if
  publish_if-Keeps true fields s = (refl, refl)
  publish_if-Keeps false fields s = (refl, refl)

  add_xline_at-put_line :
      (kind : XKind) (mask : Text) (duration : ℕ) (setter reason : Text) (set_at : ℕ) (s : Server)
      → ((add_xline_at catalog to_lowercase kind mask duration setter reason set_at s).xlines
          ≡ put_line (new_line kind mask duration setter reason set_at) s.xlines)
        × ((add_xline_at catalog to_lowercase kind mask duration setter reason set_at s).clock
            ≡ s.clock)
  unfolding add_xline_at store_line
  add_xline_at-put_line kind mask duration setter reason set_at s =
      let a = publish_if-Keeps s.redis_active _ _ in
      let b = enforce_xlines-Keeps _ in (a.0 ∙ b.0, a.1 ∙ b.1)

  -- A table without two lines of one kind and mask stays so when a ban is added.
  pub add_xline_at-Unique :
      (kind : XKind) (mask : Text) (duration : ℕ) (setter reason : Text) (set_at : ℕ) (s : Server)
      → Unique s.xlines
      → Unique (add_xline_at catalog to_lowercase kind mask duration setter reason set_at s).xlines
  add_xline_at-Unique kind mask duration setter reason set_at s u =
      rw ((add_xline_at-put_line kind mask duration setter reason set_at s).0)
        (put_line-Unique (new_line kind mask duration setter reason set_at) s.xlines u)

  active-put_line :
      (x : XLine) (k : XKind) (m : Text) (now : ℕ) (lines : List XLine)
      → any (λ y. kind_eq y.kind k && (text_eq y.mask m && is_active now y)) (put_line x lines) ≡ (
          if kind_eq x.kind k && text_eq x.mask m
          then is_active now x
          else any (λ y. kind_eq y.kind k && (text_eq y.mask m && is_active now y)) lines)
  active-put_line x k m now [] = ground arith
  active-put_line x k m now (y ∷ ys) =
      ground (arith, active-put_line x k m now ys, target_same x y k m, target_apart x y k m)

  any-retain_active :
      (kind : XKind) (uh ip : Text) (now : ℕ) (lines : List XLine)
      → any (applies to_lowercase kind uh ip now) (retain (is_active now) lines)
        ≡ any (applies to_lowercase kind uh ip now) lines
  any-retain_active kind uh ip now [] = refl
  any-retain_active kind uh ip now (x ∷ xs) = ground (arith, any-retain_active kind uh ip now xs)

  new_line_active :
      (kind : XKind) (mask : Text) (duration : ℕ) (setter reason : Text) (set_at now : ℕ)
      → now < max_u64
      → is_active now (new_line kind mask duration setter reason set_at)
        ≡ (duration == 0 || ltb now (set_at + duration))
  new_line_active kind mask duration setter reason set_at now early = ground (arith, early)

  -- Before the last second that the clock can show, a ban that is added is in force for its kind
  -- and mask exactly if its duration is 0, which is for ever, or fewer seconds than its duration
  -- have passed since it was set; no other kind or mask is affected.
  pub xline_active-add_xline_at :
      (kind : XKind) (mask : Text) (duration : ℕ) (setter reason : Text) (set_at : ℕ) (s : Server)
      (k : XKind) (m : Text)
      → s.clock < max_u64
      → xline_active
          (add_xline_at catalog to_lowercase kind mask duration setter reason set_at s)
          k
          m
        ≡ (if kind_eq kind k && text_eq mask m
            then duration == 0 || ltb s.clock (set_at + duration)
            else xline_active s k m)
  unfolding xline_active
  xline_active-add_xline_at kind mask duration setter reason set_at s k m early =
      let a = add_xline_at-put_line kind mask duration setter reason set_at s in
      rw
        (
          xline_active,
          a.0,
          a.1,
          active-put_line (new_line kind mask duration setter reason set_at) k m s.clock s.xlines,
          new_line_active kind mask duration setter reason set_at s.clock early,
        )
        refl

  -- A purge of the bans that have ended changes for no kind of ban and no user whether a ban in
  -- force hits the user.
  pub xmatch-purge_xlines :
      (s : Server) (kind : XKind) (uh ip : Text)
      → xmatch to_lowercase (purge_xlines catalog s) kind uh ip ≡ xmatch to_lowercase s kind uh ip
  unfolding xmatch purge_xlines
  xmatch-purge_xlines s kind uh ip =
      elim (Bool-cases (is_nil (retain (λ x. not (is_active s.clock x)) s.xlines))) [
        | inl h ↦ rw (purge_xlines, h) refl
        | inr h ↦ rw (xmatch, purge_xlines, h) (any-retain_active kind uh ip s.clock s.xlines)
      ]

  any-retain-not :
      (p : XLine → Bool) (lines : List XLine) → any p (retain (λ x. not (p x)) lines) ≡ false
  any-retain-not p [] = refl
  any-retain-not p (x ∷ xs) = ground (arith, any-retain-not p xs)

  length-retain : (q : XLine → Bool) (lines : List XLine) → length (retain q lines) ≤ length lines
  length-retain q [] = omega arith
  length-retain q (x ∷ xs) = ground (arith, length-retain q xs)

  shorter-retain-not :
      (p : XLine → Bool) (lines : List XLine)
      → ltb (length (retain (λ x. not (p x)) lines)) (length lines) ≡ any p lines
  shorter-retain-not p [] = refl
  shorter-retain-not p (x ∷ xs) =
      ground (arith, shorter-retain-not p xs, length-retain (λ x. not (p x)) xs)

  -- Removing a ban says whether there was one of that kind and mask, in any case of the letters,
  -- and leaves none.
  pub remove_xline-named :
      (kind : XKind) (mask remover : Text) (s : Server)
      → ((remove_xline catalog kind mask remover s).0 ≡ any (named kind mask) s.xlines)
        × (any (named kind mask) (remove_xline catalog kind mask remover s).1.xlines ≡ false)
  unfolding remove_xline
  remove_xline-named kind mask remover s =
      let none_left = any-retain-not (named kind mask) s.xlines in
      let found = shorter-retain-not (named kind mask) s.xlines in
      elim (Bool-cases (any (named kind mask) s.xlines)) [
        | inl h ↦ rw (remove_xline, found, h) (refl, none_left)
        | inr h ↦ rw (remove_xline, found, h) (refl, none_left)
      ]
