-- ===== src/Message.antt =====
-- src/message.rs: the wire format of IRC lines, with IRCv3 message tags.
pub mod Params
pub mod Tags
pub mod RoundTrip
mod Examples
use mathlib.Core.List.{foldl}
use echoi_rcd.Prelude.{
  ℕ, zero, suc, Bool, true, false, ◌&&◌, ◌||◌, List, [], ◌∷◌, ◌++◌, Option, none, some, Text, codes,
  if◌then◌else◌, ◌==◌, ◌>>=◌, is_nil, length, text_eq, strip_char, strip_prefix, starts_with_char,
  contains_char, trim_start, split_once, split, to_upper,
}

pub record Message : Type 0 where
  pub source : Option Text
  pub command : Text
  pub params : List Text
  pub ctags : Text
  pub label : Option Text
  pub batch : Option Text
  pub concat : Bool

-- Whether the last parameter has to be written as a trailing one.
abbrev pub needs_colon : Text → Bool
needs_colon p = is_nil p || contains_char b' ' p || starts_with_char b':' p

-- The loop of `to_wire`: `i + 1 == n` says that no parameter follows.
pub write_params : List Text → Text → Text
write_params [] out = out
write_params (p ∷ ps) out =
    write_params ps (out ++ b' ' ∷ (if is_nil ps && needs_colon p then b':' ∷ p else p))

abbrev pub write_source : Option Text → Text
write_source none = []
write_source (some src) = b':' ∷ (src ++ b' ' ∷ [])

pub to_wire : Message → Text
to_wire m = write_params m.params (write_source m.source ++ m.command)

-- What the tag block sets: the variables `ctags`, `label`, `batch` and `concat`.
pub record TagState : Type 0 where
  pub ctags : Text
  pub label : Option Text
  pub batch : Option Text
  pub concat : Bool

abbrev pub no_tags : TagState
no_tags = record { ctags = []; label = none; batch = none; concat = false }

-- One round of the loop over the tag block.
pub read_tag : TagState → Text → TagState
read_tag g t =
    if starts_with_char b'+' t
    then record g { ctags = (if is_nil g.ctags then g.ctags else g.ctags ++ b';' ∷ []) ++ t }
    else elim (strip_prefix (codes "label=") t) [
      | some v ↦ record g { label = some v }
      | none ↦ elim (strip_prefix (codes "batch=") t) [
        | some v ↦ record g { batch = some v }
        | none ↦
            if text_eq t (codes "draft/multiline-concat") then record g { concat = true } else g
      ]
    ]

pub read_tags : Text → TagState
read_tags tags = foldl read_tag no_tags (split b';' tags)

pub parse_tags : Text → Option (TagState × Text)
parse_tags rest = elim (strip_char b'@' rest) [
  | none ↦ some (no_tags, rest)
  | some after_at ↦ do
    (tags, r) ← split_once b' ' after_at
    some (read_tags tags, trim_start b' ' r)
]

pub parse_source : Text → Option (Option Text × Text)
parse_source rest = elim (strip_char b':' rest) [
  | none ↦ some (none, rest)
  | some after_colon ↦ do (src, r) ← split_once b' ' after_colon; some (some src, trim_start b' ' r)
]

pub parse_command : Text → Text × Text
parse_command rest = elim (split_once b' ' rest) [
  | some (c, r) ↦ (c, trim_start b' ' r)
  | none ↦ (rest, [])
]

-- The `while !rest.is_empty()` loop. `none` means that the fuel ran out.
pub read_params : ℕ → Text → List Text → Option (List Text)
read_params f [] params = some params
read_params zero (c ∷ rest) params = none
read_params (suc f) (c ∷ rest) params = elim (strip_char b':' (c ∷ rest)) [
  | some trailing ↦ some (params ++ trailing ∷ [])
  | none ↦ elim (split_once b' ' (c ∷ rest)) [
    | some (p, r) ↦ read_params f (trim_start b' ' r) (params ++ p ∷ [])
    | none ↦ some (params ++ (c ∷ rest) ∷ [])
  ]
]

abbrev pub build : TagState → Option Text → Text → List Text → Message
build g source cmd params = record {
  source = source;
  command = to_upper cmd;
  params = params;
  ctags = g.ctags;
  label = g.label;
  batch = g.batch;
  concat = g.concat;
}

-- The end of `parse`. Every round of the loop over the parameters shortens the text, so its length
-- is enough fuel.
pub finish : TagState → Option Text → Text × Text → Option Message
finish g source (cmd, rest) = do
  params ← read_params (length rest) rest []
  if is_nil cmd then none else some (build g source cmd params)

pub parse : Text → Option Message
unfolding finish
parse line = do
  (g, rest) ← parse_tags (trim_start b' ' line)
  (source, after_source) ← parse_source rest
  finish g source (parse_command after_source)
