-- ===== src/Mode/Hidden.antt =====
-- src/modules/hidelist.rs and src/modules/hidemode.rs: the lists and the changes that members of
-- low rank are not shown.
use echoi_rcd.Prelude.{
  ℕ, ◌^◌, ◌-◌, Bool, true, false, ◌||◌, ◌&&◌, List, [], ◌∷◌, ◌++◌, Option, none, some, Text, codes,
  if◌then◌else◌, ltb, leb, ◌==◌, any, retain, keys, is_nil, join, text_eq, to_lower,
  starts_with_char, get, text_key, nat_key,
}
use echoi_rcd.Channel.Prefixes.{PrefixCfg}
use echoi_rcd.Channel.Member.{rank_owner, rank_admin, rank_op, rank_halfop, rank_voice}
use echoi_rcd.Server.State.{Server, Effect, conf_all, is_oper}
use echoi_rcd.Mode.Members.{channel_rank}
use echoi_rcd.Server.Quit.{emit_all}

-- `char::is_whitespace`
abbrev pub is_whitespace : ℕ → Bool
is_whitespace c =
    (leb 0x9 c && leb c 0xD)
    || (c == 0x20
        || (c == 0x85
            || (c == 0xA0
                || (c == 0x1680
                    || ((leb 0x2000 c && leb c 0x200A)
                        || (c == 0x2028
                            || (c == 0x2029 || (c == 0x202F || (c == 0x205F || c == 0x3000)))))))))

-- `word` is what was read of the current word, the last character first.
abbrev pub reversed : Text → Text → Text
reversed [] out = out
reversed (c ∷ w) out = reversed w (c ∷ out)

unfoldable pub words : Text → Text → List Text
words word [] = if is_nil word then [] else reversed word [] ∷ []
words word (c ∷ r) =
    let after = words [] r in
    let inside = words (c ∷ word) r in
    if is_whitespace c then (if is_nil word then after else reversed word [] ∷ after) else inside

abbrev pub split_whitespace : Text → List Text
split_whitespace line = words [] line

abbrev one_of : Text → List Text → Bool
one_of name names = any (λ n. text_eq n name) names

unfoldable pub rank_value : Text → ℕ
rank_value text =
    let name = to_lower text in
    if one_of name (codes "owner" ∷ codes "founder" ∷ codes "q" ∷ [])
    then rank_owner
    else if one_of name (codes "admin" ∷ codes "protect" ∷ codes "a" ∷ [])
    then rank_admin
    else if one_of name (codes "op" ∷ codes "o" ∷ [])
    then rank_op
    else if one_of name (codes "halfop" ∷ codes "h" ∷ [])
    then rank_halfop
    else if one_of name (codes "voice" ∷ codes "v" ∷ [])
    then rank_voice
    else rank_op

-- The rank that a line of the configuration asks for a mode, if it is about that mode.
abbrev asked : ℕ → List Text → Option ℕ
asked modechar (mc ∷ rank ∷ more) =
    if starts_with_char modechar mc then some (rank_value rank) else none
asked modechar few = none

-- The last line about the mode counts.
abbrev last_asked : ℕ → Option ℕ → List Text → Option ℕ
last_asked modechar req [] = req
last_asked modechar req (line ∷ lines) =
    last_asked modechar
      (elim (asked modechar (split_whitespace line)) [ none ↦ req | some r ↦ some r ]) lines

-- The first line about the mode counts.
abbrev first_asked : ℕ → List Text → Option ℕ
first_asked modechar [] = none
first_asked modechar (line ∷ lines) = elim (asked modechar (split_whitespace line)) [
  | none ↦ first_asked modechar lines
  | some r ↦ some r
]

abbrev pub hidden_rank : Server → ℕ → Option ℕ
hidden_rank s modechar = first_asked modechar (conf_all s (codes "hidemode"))

-- A change that was made: its sign, its letter and the parameter that is shown.
pub record Change : Type 0 where
  pub sign : ℕ
  pub letter : ℕ
  pub shown : Option Text

-- `last` is the sign that was written last.
unfoldable pub render_modes : ℕ → List Change → Text
render_modes last [] = []
render_modes last (c ∷ cs) =
    (if c.sign == last then c.letter ∷ [] else c.sign ∷ c.letter ∷ []) ++ render_modes c.sign cs

abbrev pub shown_params : List Change → List Text
shown_params [] = []
shown_params (c ∷ cs) = elim c.shown [ none ↦ shown_params cs | some p ↦ p ∷ shown_params cs ]

abbrev pub spaced_params : List Text → Text
spaced_params params = if is_nil params then [] else b' ' ∷ join b' ' params

module _ (cfg : PrefixCfg) where
  unfoldable pub denied : Server → ℕ → Text → ℕ → Bool
  denied s uid key modechar =
      if is_oper s uid
      then false
      else elim (last_asked modechar none (conf_all s (codes "hidelist"))) [
        | none ↦ false
        | some r ↦ ltb (channel_rank cfg uid key s) r
      ]

  -- The rank with which a member looks at the changes.
  abbrev viewer_rank : Server → Text → ℕ → ℕ → ℕ
  viewer_rank s key setter m =
      if m == setter || is_oper s m then 2 ^ 8 - 1 else channel_rank cfg m key s

  abbrev pub visible : Server → Text → ℕ → ℕ → List Change → List Change
  visible s key setter m changes =
      retain
        (λ c. elim (hidden_rank s c.letter) [
          | none ↦ true
          | some req ↦ leb req (viewer_rank s key setter m)
        ])
        changes

  abbrev line_for : Text → Text → List Change → Text
  line_for prefix target seen =
      b':'
      ∷ (prefix
          ++ (codes " MODE "
              ++ (target ++ b' ' ∷ (render_modes b' ' seen ++ spaced_params (shown_params seen)))))

  abbrev deliveries : Server → Text → Text → ℕ → Text → List Change → List ℕ → List Effect
  deliveries s key target setter prefix changes [] = []
  deliveries s key target setter prefix changes (m ∷ ms) =
      let seen = visible s key setter m changes in
      let rest = deliveries s key target setter prefix changes ms in
      if is_nil seen then rest else Effect.send m (line_for prefix target seen) ∷ rest

  unfoldable pub broadcast : Text → Text → ℕ → Text → List Change → Server → Server
  broadcast key target setter prefix changes s =
      let members : List ℕ = elim (get key s.channels) [ none ↦ [] | some ch ↦ keys ch.members ] in
      emit_all (deliveries s key target setter prefix changes members) s
