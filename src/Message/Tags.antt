-- ===== src/Message/Tags.antt =====
-- The tag block: what `parse` keeps of it.
use mathlib.Core.List.{foldl, cons-ne-nil}
use mathlib.Core.Bool.{false≢true}
use echoi_rcd.Prelude.{
  ℕ, ◌≡◌, ◌≢◌, refl, sym, ap, ◌∙◌, true, List, [], ◌∷◌, ◌++◌, append_assoc, append-nil, Option,
  none, some, Text, codes, if◌then◌else◌, arith, inl, inr, Bool-cases, is_nil, is_nil-false, Lacks,
  retain, join, split, strip_prefix, starts_with_char, split_once-append, trim_start_id,
}
use echoi_rcd.Message.{Message, TagState, no_tags, read_tag, read_tags, parse, parse_tags, finish}

-- Texts behind one another, each behind a semicolon.
abbrev behind : List Text → Text
behind [] = []
behind (t ∷ ts) = b';' ∷ (t ++ behind ts)

join-behind : (t : Text) (ts : List Text) → join b';' (t ∷ ts) ≡ t ++ behind ts
unfolding join
join-behind t [] = sym (append-nil t)
join-behind t (u ∷ ts) = ap (λ s. t ++ b';' ∷ s) (join-behind u ts)

abbrev client_only : List Text → List Text
client_only = retain (starts_with_char b'+')

-- One tag adds itself to `ctags` if it begins with `+`, and leaves `ctags` alone otherwise.
read_tag-ctags :
    (g : TagState) (t : Text)
    → (read_tag g t).ctags ≡ (
        if starts_with_char b'+' t
        then (if is_nil g.ctags then g.ctags else g.ctags ++ b';' ∷ []) ++ t
        else g.ctags)
unfolding read_tag
read_tag-ctags g t = ground arith

append-ne-nil : (s t : Text) → s ≢ [] → s ++ t ≢ []
append-ne-nil [] t h = absurd (h refl)
append-ne-nil (c ∷ s) t h = cons-ne-nil c (s ++ t)

starts-ne-nil : (c : ℕ) (t : Text) → starts_with_char c t ≡ true → t ≢ []
starts-ne-nil c [] h = absurd (false≢true h)
starts-ne-nil c (d ∷ t) h = cons-ne-nil d t

foldl-ctags :
    (ts : List Text) (g : TagState)
    → g.ctags ≢ []
    → (foldl read_tag g ts).ctags ≡ g.ctags ++ behind (client_only ts)
foldl-ctags [] g h = sym (append-nil g.ctags)
foldl-ctags (t ∷ ts) g h = elim (Bool-cases (starts_with_char b'+' t)) [
  | inl e ↦
      let now : (read_tag g t).ctags ≡ (g.ctags ++ b';' ∷ []) ++ t =
        read_tag-ctags g t ∙ rw (e, is_nil-false g.ctags h) in
      foldl-ctags ts (read_tag g t)
        (rw now (append-ne-nil (g.ctags ++ b';' ∷ []) t (append-ne-nil g.ctags (b';' ∷ []) h)))
      ∙ rw (now, e) (simp append_assoc)
  | inr e ↦
      let same : (read_tag g t).ctags ≡ g.ctags = read_tag-ctags g t ∙ rw e in
      foldl-ctags ts (read_tag g t) (rw same h) ∙ rw (same, e)
]

foldl-ctags_empty :
    (ts : List Text) (g : TagState)
    → g.ctags ≡ []
    → (foldl read_tag g ts).ctags ≡ join b';' (client_only ts)
foldl-ctags_empty [] g h = unfold join in h
foldl-ctags_empty (t ∷ ts) g h = elim (Bool-cases (starts_with_char b'+' t)) [
  | inl e ↦
      let now : (read_tag g t).ctags ≡ t = read_tag-ctags g t ∙ rw (e, h) in
      foldl-ctags ts (read_tag g t) (rw now (starts-ne-nil b'+' t e))
      ∙ rw (now, e) (sym (join-behind t (client_only ts)))
  | inr e ↦ rw e (foldl-ctags_empty ts (read_tag g t) (read_tag-ctags g t ∙ rw (e, h)))
]

-- The value of the last tag `label=…`.
abbrev last_label : Option Text → List Text → Option Text
last_label l [] = l
last_label l (t ∷ ts) = elim (strip_prefix (codes "label=") t) [
  | some v ↦ last_label (some v) ts
  | none ↦ last_label l ts
]

read_tag-label :
    (g : TagState) (t : Text) (ts : List Text)
    → last_label (read_tag g t).label ts ≡ last_label g.label (t ∷ ts)
unfolding read_tag
read_tag-label g [] ts = ground arith
read_tag-label g (c ∷ t) ts = ground arith

foldl-label : (ts : List Text) (g : TagState) → (foldl read_tag g ts).label ≡ last_label g.label ts
foldl-label [] g = refl
foldl-label (t ∷ ts) g = foldl-label ts (read_tag g t) ∙ read_tag-label g t ts

-- A line with a tag block that parses keeps, in their order, the tags that begin with `+`, and
-- the value of the last `label` tag.
pub parse-tags :
    (tags rest : Text) {m : Message}
    → Lacks b' ' tags
    → parse (b'@' ∷ (tags ++ b' ' ∷ rest)) ≡ some m
    → (m.ctags ≡ join b';' (client_only (split b';' tags)))
      × (m.label ≡ last_label none (split b';' tags))
unfolding parse finish parse_tags read_tags
parse-tags tags rest {m} lacks e = ground (
  arith,
  split_once-append b' ' tags rest lacks,
  trim_start_id b' ' (b'@' ∷ (tags ++ b' ' ∷ rest)) (omega arith),
  foldl-ctags_empty (split b';' tags) no_tags refl,
  foldl-label (split b';' tags) no_tags,
)
