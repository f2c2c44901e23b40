-- ===== src/Membership/Rename.antt =====
-- src/channels.rs: `rename_channel`, by which a channel keeps its state under a new name.
use echoi_rcd.Prelude.{
  ℕ, Bool, not, ◌&&◌, List, [], ◌∷◌, ◌++◌, Option, none, some, Text, codes, if◌then◌else◌, is_nil,
  text_eq, to_lower, get, get_or, insert, modify, remove, contains_key, without, set_insert, keys,
  show_nat, nat_key, text_key,
}
use echoi_rcd.Channel.Record.{Channel}
use echoi_rcd.Server.Users.{User, prefix}
use echoi_rcd.Server.State.{Server, Effect}
use echoi_rcd.Server.Quit.{emit_all}

abbrev pub moved : Text → Text → User → User
moved oldkey newkey u = record u { channels = set_insert newkey (without oldkey u.channels) }

-- The channel sets of the members.
unfoldable pub move_users : Text → Text → List ℕ → List (ℕ × User) → List (ℕ × User)
move_users oldkey newkey [] users = users
move_users oldkey newkey (m ∷ ms) users =
    move_users oldkey newkey ms (modify m (moved oldkey newkey) users)

-- What stands in for a line of RENAME for those who do not know it.
abbrev emulate_rename_join : ℕ → User → Text → Text → Text → Text → Option Channel → List Effect
emulate_rename_join m u oldname newname newkey reason ch =
    let head = b':' ∷ (prefix u ++ codes " JOIN " ++ newname) in
    let joinline =
      if u.extended_join
      then head ++ b' ' ∷ (get_or u.account (codes "*") ++ (codes " :" ++ u.realname))
      else head in
    let partline =
      b':'
      ∷ (prefix u
          ++ (codes " PART "
              ++ (oldname ++ (if is_nil reason then [] else codes " :" ++ reason)))) in
    let topic : List Effect = elim ch [
      | none ↦ []
      | some c ↦ elim c.topic [
        | none ↦ []
        | some t ↦
            Effect.numeric m 332 (newname ++ (codes " :" ++ t.text))
            ∷ Effect.numeric m 333 (newname ++ b' ' ∷ (t.setter ++ b' ' ∷ show_nat t.ts))
            ∷ []
      ]
    ] in
    Effect.send m partline ∷ Effect.send m joinline ∷ (topic ++ Effect.send_names m newkey ∷ [])

abbrev rename_lines : List ℕ → Text → Text → Text → Text → Text → Bool → Server → List Effect
rename_lines [] oldname newname newkey src reason case_only s = []
rename_lines (m ∷ ms) oldname newname newkey src reason case_only s =
    let rest = rename_lines ms oldname newname newkey src reason case_only s in
    let line =
      b':'
      ∷ (src ++ (codes " RENAME " ++ (oldname ++ b' ' ∷ (newname ++ (codes " :" ++ reason))))) in
    let told : List Effect = elim (get m s.users) [
      | none ↦ []
      | some u ↦
          if u.channel_rename
          then Effect.send m line ∷ []
          else if case_only
          then []
          else emulate_rename_join m u oldname newname newkey reason (get newkey s.channels)
    ] in
    told ++ rest

abbrev pub renamed : Text → Channel → Channel
renamed newname ch = record ch { name = newname }

-- The new key, or none if the channel could not be moved.
unfoldable pub rename_channel : Text → Text → Text → Text → Server → Option Text × Server
rename_channel oldkey newname src reason s = elim (get oldkey s.channels) [
  | none ↦ (none, s)
  | some ch ↦
      let newkey = to_lower newname in
      let case_only = text_eq newkey oldkey in
      let members = keys ch.members in
      let same = record s { channels = modify oldkey (renamed newname) s.channels } in
      let other = record s {
        channels = insert newkey (renamed newname ch) (remove oldkey s.channels);
        users = move_users oldkey newkey members s.users;
        out = Effect.rekey_channel_state oldkey newkey ∷ s.out;
      } in
      let t = if case_only then same else other in
      if not case_only && contains_key newkey s.channels then (none, s) else (
        some newkey,
        emit_all (rename_lines members ch.name newname newkey src reason case_only t) t,
      )
]
