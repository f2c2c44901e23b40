-- ===== src/XLine/Table.antt =====
-- The table of bans: how lines are added, removed, purged and loaded.
use echoi_rcd.Prelude.{
  ℕ, ◌+◌, ◌-◌, min, Bool, true, false, not, ◌&&◌, List, [], ◌∷◌, ◌++◌, map, Option, none, some,
  Text, codes, if◌then◌else◌, ◌==◌, ltb, any, find, retain, length, is_nil, get_or, map_option,
  eq_ignore_case, text_eq, max_u64, lines,
}
use echoi_rcd.Clock.{long_date}
use echoi_rcd.I18n.{trf}
use echoi_rcd.Server.Users.{User}
use echoi_rcd.Server.State.{Server, Effect, emit}
use echoi_rcd.Server.Quit.{emit_all, remove_user}
use echoi_rcd.XLine.Kinds.{XKind, XLine, kind_eq, tag}
use echoi_rcd.XLine.Duration.{human_duration}
use echoi_rcd.XLine.Db.{parse_db_line, write_db_line}
use echoi_rcd.XLine.Match.{is_active, matched_xline}

abbrev pub err_yourebannedcreep : ℕ
err_yourebannedcreep = 465

-- The two lines are for the same kind and mask.
abbrev pub same_line : XLine → XLine → Bool
same_line x y = kind_eq y.kind x.kind && text_eq y.mask x.mask

-- What `add_xline_at` does to the table.
abbrev pub put_line : XLine → List XLine → List XLine
put_line x lines = retain (λ y. not (same_line x y)) lines ++ x ∷ []

-- The table with the line, announced and saved.
unfoldable pub store_line : XLine → Text → Server → Server
store_line x notice s =
    emit (Effect.save_xlines (put_line x s.xlines))
      (emit (Effect.snotice_c b'x' notice) (record s { xlines = put_line x s.xlines }))

-- `publish_event`, if redis is active.
unfoldable pub publish_if : Bool → List Text → Server → Server
publish_if true fields s = emit (Effect.publish_event fields) s
publish_if false fields s = s

-- The line for a ban of that many seconds; 0 is for ever.
abbrev pub new_line : XKind → Text → ℕ → Text → Text → ℕ → XLine
new_line kind mask duration setter reason set_at = record {
  kind = kind;
  mask = mask;
  reason = reason;
  setter = setter;
  expires = if duration == 0 then 0 else min (set_at + duration) max_u64;
  set_at = set_at;
}

-- Where the line came from, as the notice of its end says.
unfoldable pub xline_origin : Text → ℕ → ℕ → Text
xline_origin setter set_at expires =
    let by = codes "set by " ++ setter in
    let on = by ++ codes " on " ++ long_date set_at in
    if set_at == 0
    then by
    else if ltb set_at expires
    then on ++ codes ", duration " ++ human_duration (expires - set_at)
    else on

abbrev pub named : XKind → Text → XLine → Bool
named kind mask x = kind_eq x.kind kind && eq_ignore_case x.mask mask

abbrev removed_detail : XKind → Text → ℕ → ℕ → Text
removed_detail kind mask expires now =
    if ltb now expires
    then codes "timed "
      ++ tag kind
      ++ codes "-line on "
      ++ mask
      ++ codes " ("
      ++ human_duration (expires - now)
      ++ codes " remaining)"
    else if not (expires == 0)
    then codes "timed " ++ tag kind ++ codes "-line on " ++ mask ++ codes " (already expired)"
    else codes "permanent " ++ tag kind ++ codes "-line on " ++ mask

abbrev added_detail : XLine → ℕ → Text
added_detail x duration =
    if duration == 0
    then codes "permanent " ++ tag x.kind ++ codes "-line on " ++ x.mask
    else codes "timed "
      ++ tag x.kind
      ++ codes "-line on "
      ++ x.mask
      ++ codes ", expires in "
      ++ human_duration duration
      ++ codes " (on "
      ++ long_date x.expires
      ++ codes ")"

-- The catalog translates a text.
module _ (catalog : Text → Text) where
  -- Whether a line was found, and the state after.
  unfoldable pub remove_xline : XKind → Text → Text → Server → Bool × Server
  remove_xline kind mask remover s =
      let lines = retain (λ x. not (named kind mask x)) s.xlines in
      let target : Option XLine = find (named kind mask) s.xlines in
      let expires = get_or (map_option (λ x. x.expires) target) 0 in
      let setter = get_or (map_option (λ x. x.setter) target) [] in
      let reason = get_or (map_option (λ x. x.reason) target) [] in
      let notice =
        trf catalog (codes "XLINE: {0} removed a {1} (set by {2}: {3})")
          (remover ∷ removed_detail kind mask expires s.clock ∷ setter ∷ reason ∷ []) in
      let t = record s { xlines = lines } in
      if ltb (length lines) (length s.xlines)
      then (true, emit (Effect.save_xlines lines) (emit (Effect.snotice_c b'x' notice) t))
      else (false, t)

  abbrev expiry_notice : XLine → Effect
  expiry_notice x = Effect.snotice_c b'x' (
      trf catalog (codes "XLINE: {0}-line on {1} expired ({2}): {3}")
        (tag x.kind ∷ x.mask ∷ xline_origin x.setter x.set_at x.expires ∷ x.reason ∷ []))

  unfoldable pub purge_xlines : Server → Server
  purge_xlines s =
      let expired = retain (λ x. not (is_active s.clock x)) s.xlines in
      let lines = retain (is_active s.clock) s.xlines in
      if is_nil expired
      then s
      else emit (Effect.save_xlines lines)
          (emit_all (map expiry_notice expired) (record s { xlines = lines }))

-- `to_lowercase` is the standard library's.
module _ (catalog to_lowercase : Text → Text) where
  unfoldable pub refuse_banned : ℕ → Text → Server → Server
  refuse_banned uid reason s = remove_user uid reason (
      emit
        (Effect.send uid
          (codes "ERROR :" ++ trf catalog (codes "Closing link: ({0})") (reason ∷ [])))
        (emit (Effect.numeric uid err_yourebannedcreep (b':' ∷ reason)) s))

  unfoldable pub refuse_all : List (ℕ × Text) → Server → Server
  refuse_all [] s = s
  refuse_all ((uid, reason) ∷ victims) s = refuse_all victims (refuse_banned uid reason s)

  -- The registered users that a line in force hits, with what they are told.
  unfoldable pub victims_of : Server → List (ℕ × User) → List (ℕ × Text)
  victims_of s [] = []
  victims_of s ((uid, u) ∷ us) =
      let rest = victims_of s us in
      let hit : List (ℕ × Text) = elim (matched_xline to_lowercase s u.ident u.host u.ip) [
        | none ↦ rest
        | some reason ↦ (uid, reason) ∷ rest
      ] in
      if u.registered then hit else rest

  unfoldable pub enforce_xlines : Server → Server
  enforce_xlines s = refuse_all (victims_of s s.users) s

  unfoldable pub add_xline_at : XKind → Text → ℕ → Text → Text → ℕ → Server → Server
  add_xline_at kind mask duration setter reason set_at s =
      let x = new_line kind mask duration setter reason set_at in
      let notice =
        trf catalog (codes "XLINE: {0} added a {1}: {2}")
          (setter ∷ added_detail x duration ∷ reason ∷ []) in
      publish_if s.redis_active (codes "xline" ∷ tag kind ∷ mask ∷ setter ∷ reason ∷ [])
        (enforce_xlines (store_line x notice s))

  unfoldable pub add_xline : XKind → Text → ℕ → Text → Text → Server → Server
  add_xline kind mask duration setter reason s =
      add_xline_at kind mask duration setter reason s.clock s

-- The text that `save_xlines` hands to the file store.
unfoldable pub saved_text : List XLine → Text
saved_text [] = []
saved_text (x ∷ xs) = write_db_line x ++ 0xA ∷ saved_text xs

-- The loop over the lines of the saved text.
unfoldable pub load_lines : List Text → ℕ → List XLine → List XLine
load_lines [] now lines = lines
load_lines (line ∷ rest) now lines = load_lines rest now (elim (parse_db_line line) [
  | none ↦ lines
  | some x ↦ if is_active now x then lines ++ x ∷ [] else lines
])

-- `text` is what the file store gives back.
unfoldable pub load_xlines_text : Option Text → ℕ → List XLine → List XLine
load_xlines_text none now before = before
load_xlines_text (some text) now before = load_lines (lines text) now before

-- The first line of each kind and mask is kept; `seen` has those that were kept before.
unfoldable pub keep_first : List XLine → List XLine → List XLine
keep_first seen [] = []
keep_first seen (x ∷ xs) =
    let kept = keep_first (x ∷ seen) xs in
    let dropped = keep_first seen xs in if any (same_line x) seen then dropped else x ∷ kept
