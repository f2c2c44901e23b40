-- ===== src/Message/RoundTrip.antt =====
-- `parse` undoes `to_wire`.
use mathlib.Core.List.{cons-ne-nil}
use mathlib.Core.Bool.{false≢true}
use echoi_rcd.Prelude.{
  ℕ, ◌≡◌, ◌≢◌, refl, sym, subst, false, List, [], ◌∷◌, ◌++◌, append_assoc, append-nil, Option, none,
  some, Text, ◌==◌, arith, inl, inr, Option-cases, Bool-cases, is_nil, is_nil-false, length, Lacks,
  StartsOther, strip_char, split_once, trim_start, trim_start_id, upper, to_upper,
  to_upper-to_upper, trim_start-StartsOther, split_once_sound, split_once-none_sound,
  split_once-append, ◌>>=◌, split_once-none,
}
use echoi_rcd.Message.{
  Message, TagState, finish, build, to_wire, parse, parse_tags, parse_source, parse_command,
  read_params, no_tags, write_source,
}
use echoi_rcd.Message.Params.{
  read_params_total, AreParams, spaced, wire_rest, write_params-spaced, wire_rest-StartsOther,
  read_params-wire_rest, read_params-AreParams,
}

-- A source is written without a space.
abbrev pub IsSource : Option Text → Type 0
IsSource none = Unit
IsSource (some s) = Lacks b' ' s

-- With no source before it, a command must not be taken for a source or for tags.
abbrev pub IsLeading : Option Text → Text → Type 0
IsLeading none cmd = StartsOther b':' cmd × StartsOther b'@' cmd
IsLeading (some s) cmd = Unit

-- A message that its wire text determines.
pub record IsWire (m : Message) : Type 0 where
  pub source_ok : IsSource m.source
  pub nonempty : m.command ≢ []
  pub one_word : Lacks b' ' m.command
  pub is_upper : to_upper m.command ≡ m.command
  pub leading : IsLeading m.source m.command
  pub params_ok : AreParams m.params

-- What `to_wire` writes of a message: all but the tags.
abbrev pub core : Message → Message
core m = record m { ctags = []; label = none; batch = none; concat = false }

to_wire_lem : (m : Message) → to_wire m ≡ (write_source m.source ++ m.command) ++ spaced m.params
unfolding to_wire
to_wire_lem m = write_params-spaced m.params _

parse_command_lem :
    (cmd : Text) (ps : List Text)
    → Lacks b' ' cmd
    → AreParams ps
    → parse_command (cmd ++ spaced ps) ≡ (cmd, wire_rest ps)
unfolding parse_command wire_rest
parse_command_lem cmd [] h a = rw append-nil (ground (arith, split_once-none b' ' cmd h))
parse_command_lem cmd (p ∷ ps) h a = ground (
  arith,
  split_once-append b' ' cmd (wire_rest (p ∷ ps)) h,
  trim_start_id b' ' (wire_rest (p ∷ ps)) (wire_rest-StartsOther (p ∷ ps) a),
)

parse_source_lem :
    (source : Option Text) (cmd rest : Text)
    → IsSource source
    → cmd ≢ []
    → Lacks b' ' cmd
    → IsLeading source cmd
    → parse_source ((write_source source ++ cmd) ++ rest) ≡ some (source, cmd ++ rest)
unfolding parse_source
parse_source_lem source [] rest hs ne h l = absurd (ne refl)
parse_source_lem none (c ∷ cmd) rest hs ne h l = ground arith
parse_source_lem (some s) (c ∷ cmd) rest hs ne h l = ground (
  arith,
  append_assoc (s ++ b' ' ∷ []) (c ∷ cmd) rest,
  append_assoc s (b' ' ∷ []) (c ∷ (cmd ++ rest)),
  split_once-append b' ' s (c ∷ (cmd ++ rest)) hs,
  trim_start_id b' ' (c ∷ (cmd ++ rest)) h.0,
)

-- The wire text begins with neither a space nor a tag block.
wire-StartsOther :
    (source : Option Text) (cmd rest : Text)
    → cmd ≢ []
    → Lacks b' ' cmd
    → IsLeading source cmd
    → StartsOther b' ' ((write_source source ++ cmd) ++ rest)
      × StartsOther b'@' ((write_source source ++ cmd) ++ rest)
wire-StartsOther source [] rest ne h l = absurd (ne refl)
wire-StartsOther none (c ∷ cmd) rest ne h l = (h.0, l.1)
wire-StartsOther (some s) (c ∷ cmd) rest ne h l = omega arith

parse_tags_none : (s : Text) → StartsOther b'@' s → parse_tags s ≡ some (no_tags, s)
unfolding parse_tags
parse_tags_none [] h = refl
parse_tags_none (c ∷ s) h = ground arith

-- A message whose source, command and parameters can be written on a line (`IsWire`) is read
-- back, but for its tags, from the line that `to_wire` writes for it.
pub parse-to_wire : (m : Message) → IsWire m → parse (to_wire m) ≡ some (core m)
unfolding parse
parse-to_wire m w =
    let body = write_source m.source ++ m.command in
    let (starts, no_at) =
      wire-StartsOther m.source m.command (spaced m.params) w.nonempty w.one_word w.leading in
    rw (
      to_wire_lem m,
      trim_start_id b' ' (body ++ spaced m.params) starts,
      parse_tags_none (body ++ spaced m.params) no_at,
      parse_source_lem m.source m.command (spaced m.params) w.source_ok w.nonempty w.one_word
          w.leading,
      parse_command_lem m.command m.params w.one_word w.params_ok,
      read_params-wire_rest m.params (length (wire_rest m.params)) [] w.params_ok (omega arith),
      w.is_upper,
      is_nil-false m.command w.nonempty,
    )

parse_tags-StartsOther :
    (s : Text) {p : TagState × Text}
    → StartsOther b' ' s
    → parse_tags s ≡ some p
    → StartsOther b' ' p.1
unfolding parse_tags
parse_tags-StartsOther s {p} h e = elim (Option-cases (strip_char b'@' s)) [
  | inl n ↦ ground arith
  | inr (a, n) ↦ elim (Option-cases (split_once b' ' a)) [
    | inl k ↦ ground arith
    | inr ((tags, r), k) ↦ ground (arith, trim_start-StartsOther b' ' r)
  ]
]

-- What reading the source leaves.
record SourceRead (p : Option Text × Text) : Type 0 where
  ok : IsSource p.0
  rest_ok : StartsOther b' ' p.1
  no_colon : p.0 ≡ none → StartsOther b':' p.1

parse_source-SourceRead :
    (s : Text) {p : Option Text × Text}
    → StartsOther b' ' s
    → parse_source s ≡ some p
    → SourceRead p
unfolding parse_source
parse_source-SourceRead [] h e = ground arith
parse_source-SourceRead (c ∷ s) {p} h e = elim (Bool-cases (c == b':')) [
  | inl k ↦ elim (Option-cases (split_once b' ' s)) [
    | inl n ↦ ground arith
    | inr ((src, r), n) ↦
        let (lacks, _) = split_once_sound b' ' s src r n in
        ground (arith, trim_start-StartsOther b' ' r)
  ]
  | inr k ↦ ground arith
]

record CommandRead (r : Text) (p : Text × Text) : Type 0 where
  one_word : Lacks b' ' p.0
  rest_ok : StartsOther b' ' p.1
  same_start : (c : ℕ) → StartsOther c r → StartsOther c p.0

StartsOther-append_left : (c : ℕ) (s t : Text) → StartsOther c (s ++ t) → StartsOther c s
StartsOther-append_left c [] t h = tt
StartsOther-append_left c (d ∷ s) t h = h

parse_command-CommandRead : (r : Text) → CommandRead r (parse_command r)
parse_command-CommandRead r = elim (Option-cases (split_once b' ' r)) [
  | inl n ↦
      unfold parse_command in
      rw (n, parse_command)
        (record { one_word = split_once-none_sound b' ' r n; rest_ok = tt; same_start = λ c h. h })
  | inr ((cmd, t), n) ↦
      let (lacks, e) = split_once_sound b' ' r cmd t n in
      unfold parse_command in
      rw (n, parse_command)
        (record {
          one_word = lacks;
          rest_ok = trim_start-StartsOther b' ' t;
          same_start = λ c h. StartsOther-append_left c cmd (b' ' ∷ t) (rw e at h);
        })
]

to_upper-Lacks : (s : Text) → Lacks b' ' s → Lacks b' ' (to_upper s)
to_upper-Lacks [] h = tt
to_upper-Lacks (c ∷ s) (hc, h) = (ground arith, to_upper-Lacks s h)

to_upper-colon : (s : Text) → StartsOther b':' s → StartsOther b':' (to_upper s)
to_upper-colon [] h = tt
to_upper-colon (c ∷ s) h = ground arith

to_upper-ne-nil : (s : Text) → is_nil s ≡ false → to_upper s ≢ []
to_upper-ne-nil [] h = λ e. false≢true (sym h)
to_upper-ne-nil (c ∷ s) h = cons-ne-nil (upper c) (to_upper s)

-- A split of a successful chain into two cases, for a proof that ends in the second.
bind_elim {ℓ κ} :
    {A B : Type ℓ} (P : Type κ) (m : Option A) (f : A → Option B) {b : B}
    → (m >>= f) ≡ some b
    → ((a : A) → m ≡ some a → f a ≡ some b → P)
    → P
bind_elim P none f h k = absurd (cc)
bind_elim P (some a) f h k = k a refl h

IsLeading-of :
    (source : Option Text) (cmd : Text)
    → (source ≡ none → StartsOther b':' cmd)
    → (source ≡ none → StartsOther b'@' cmd)
    → IsLeading source cmd
IsLeading-of none cmd h k = (h refl, k refl)
IsLeading-of (some s) cmd h k = tt

build-IsWire :
    (g : TagState) (source : Option Text) (r rest cmd : Text) {ps : List Text}
    → SourceRead (source, r)
    → CommandRead r (cmd, rest)
    → is_nil cmd ≡ false
    → read_params (length rest) rest [] ≡ some ps
    → (source ≡ none → StartsOther b'@' (to_upper cmd))
    → IsWire (build g source cmd ps)
build-IsWire g source r rest cmd {ps} sr cr n e at_sign = record {
  source_ok = sr.ok;
  nonempty = to_upper-ne-nil cmd n;
  one_word = to_upper-Lacks cmd cr.one_word;
  is_upper = to_upper-to_upper cmd;
  leading =
      IsLeading-of source (to_upper cmd)
        (λ h. to_upper-colon cmd (cr.same_start b':' (sr.no_colon h))) at_sign;
  params_ok =
      let (qs, same, ok) = read_params-AreParams (length rest) rest [] {ps = ps} cr.rest_ok e in
      rw same ok;
}

finish-IsWire :
    (g : TagState) (source : Option Text) (r : Text) (p : Text × Text) {m : Message}
    → SourceRead (source, r)
    → CommandRead r p
    → finish g source p ≡ some m
    → (m.source ≡ none → StartsOther b'@' m.command)
    → IsWire m
unfolding finish
finish-IsWire g source r (cmd, rest) {m} sr cr e at_sign =
    bind_elim (IsWire m) (read_params (length rest) rest []) _ e λ ps e1 k.
      elim (Bool-cases (is_nil cmd)) [
        | inl n ↦ absurd (cc)
        | inr n ↦
            let same : build g source cmd ps ≡ m = ground arith in
            subst IsWire same
              (build-IsWire g source r rest cmd sr cr n e1 (rw (sym same) at at_sign))
      ]

-- A parsed message is determined by its wire text, unless it has no source and its command
-- begins with `@`.
pub parse-IsWire :
    (line : Text) {m : Message}
    → parse line ≡ some m
    → (m.source ≡ none → StartsOther b'@' m.command)
    → IsWire m
unfolding parse
parse-IsWire line {m} e at_sign =
    bind_elim (IsWire m) (parse_tags (trim_start b' ' line)) _ e λ (g, rest) e1 k1.
      bind_elim (IsWire m) (parse_source rest) _ k1 λ (source, r) e2 k2.
        finish-IsWire g source r (parse_command r)
          (parse_source-SourceRead rest
            (parse_tags-StartsOther (trim_start b' ' line) (trim_start-StartsOther b' ' line) e1)
            e2)
          (parse_command-CommandRead r) k2 at_sign

-- For every line that parses to a message, the wire text of the message parses to the same
-- source, command and parameters, and to no tags, if the message has a source or its command does
-- not begin with `@`.
pub parse-to_wire-parse :
    (line : Text) {m : Message}
    → parse line ≡ some m
    → (m.source ≡ none → StartsOther b'@' m.command)
    → parse (to_wire m) ≡ some (core m)
parse-to_wire-parse line {m} e at_sign = parse-to_wire m (parse-IsWire line e at_sign)

-- A message with no source and no parameter, whose command begins with `@` and holds no space, is
-- written as a line that does not parse.
pub to_wire_at_sign :
    (m : Message) (cmd : Text)
    → m.source ≡ none
    → m.command ≡ b'@' ∷ cmd
    → m.params ≡ []
    → Lacks b' ' cmd
    → parse (to_wire m) ≡ none
unfolding parse parse_tags
to_wire_at_sign m cmd hs hc hp lacks =
    rw (to_wire_lem m, hs, hc, hp, append-nil)
      (ground
        (arith, split_once-none b' ' cmd lacks, trim_start_id b' ' (b'@' ∷ cmd) (omega arith)))

-- A line whose tag block and source are read, and which goes on with a command that is not empty,
-- gives a message: the loop over the parameters ends.
pub parse_total :
    (line rest r : Text) (g : TagState) (source : Option Text)
    → parse_tags (trim_start b' ' line) ≡ some (g, rest)
    → parse_source rest ≡ some (source, r)
    → (parse_command r).0 ≢ []
    → (m : Message) × (parse line ≡ some m)
unfolding parse
parse_total line rest r g source e1 e2 ne =
    let (cmd, t) = parse_command r in
    let (ps, e3) = read_params_total (length t) t [] (omega arith) in
    (build g source cmd ps, rw (e1, e2, e3, is_nil-false cmd ne))
