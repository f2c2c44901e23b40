-- ===== src/Channel/Modes/Render.antt =====
-- The flags that `set_by_letter` writes are the letters that `render` shows.
use echoi_rcd.Prelude.{
  ℕ, Bool, false, ◌&&◌, ◌||◌, List, [], ◌∷◌, ◌++◌, Option, none, some, Text, if◌then◌else◌, ◌==◌,
  contains_char, split_once, split_once-append, split_once-none, Lacks, All, All-append, map_option,
  get_or, true, ◌∙◌, ap, ◌≢◌, append_assoc, append-nil, sym, ◌≡◌, refl, arith, any,
}
use echoi_rcd.Channel.Modes.{
  ChanModes, set_by_letter, flag_table, param_table, letters_on, render, render_params, spaced,
}

-- The value of a flag by its letter, as it stands in the table of `render`.
abbrev pub lookup_flag : ℕ → List (Bool × ℕ) → Option Bool
lookup_flag c [] = none
lookup_flag c ((on, ch) ∷ rest) = if ch == c then some on else lookup_flag c rest

abbrev pub flag : ChanModes → ℕ → Option Bool
flag m c = lookup_flag c (flag_table m)

-- The flag modes.
pub data FlagMode : Type 0 where
  moderated no_external topic_ops invite_only secret secure_only private oper_only no_nick no_ctcp
        no_notice no_color :
      FlagMode
  strip_color reg_only reg_moderated censor auditorium nokicks allowinvite permanent opmoderated
        delayjoin encrypted registered :
      FlagMode

abbrev pub letter_of : FlagMode → ℕ
letter_of moderated = b'm'
letter_of no_external = b'n'
letter_of topic_ops = b't'
letter_of invite_only = b'i'
letter_of secret = b's'
letter_of secure_only = b'z'
letter_of private = b'p'
letter_of oper_only = b'O'
letter_of no_nick = b'N'
letter_of no_ctcp = b'C'
letter_of no_notice = b'T'
letter_of no_color = b'c'
letter_of strip_color = b'S'
letter_of reg_only = b'R'
letter_of reg_moderated = b'M'
letter_of censor = b'G'
letter_of auditorium = b'u'
letter_of nokicks = b'Q'
letter_of allowinvite = b'A'
letter_of permanent = b'P'
letter_of opmoderated = b'U'
letter_of delayjoin = b'D'
letter_of encrypted = b'E'
letter_of registered = b'r'

-- Setting the flag of a letter sets that flag to the value given and leaves every other flag of
-- the modes.
pub flag-set_by_letter :
    (m : ChanModes) (f : FlagMode) (d : ℕ) (on : Bool)
    → flag (set_by_letter m (letter_of f) on) d ≡ (if letter_of f == d then some on else flag m d)
unfolding set_by_letter
flag-set_by_letter m moderated d on = ground arith
flag-set_by_letter m _ d on = ground arith

-- A letter of no flag changes nothing.
pub set_by_letter_other :
    (m : ChanModes) (c : ℕ) (on : Bool) → flag m c ≡ none → set_by_letter m c on ≡ m
unfolding set_by_letter
set_by_letter_other m c on e = ground arith

contains-letters_on :
    (c : ℕ) (l : List (Bool × ℕ)) → contains_char c (letters_on l) ≡ any (λ p. (p.1 == c) && p.0) l
contains-letters_on c [] = refl
contains-letters_on c ((on, ch) ∷ l) = ground (arith, contains-letters_on c l)

contains-append :
    (c : ℕ) (s t : Text) → contains_char c (s ++ t) ≡ (contains_char c s || contains_char c t)
contains-append c [] t = refl
contains-append c (d ∷ s) t = ground (arith, contains-append c s t)

-- Whether the modes have the flag.
abbrev pub is_on : FlagMode → ChanModes → Bool
is_on moderated m = m.moderated
is_on no_external m = m.no_external
is_on topic_ops m = m.topic_ops
is_on invite_only m = m.invite_only
is_on secret m = m.secret
is_on secure_only m = m.secure_only
is_on private m = m.private
is_on oper_only m = m.oper_only
is_on no_nick m = m.no_nick
is_on no_ctcp m = m.no_ctcp
is_on no_notice m = m.no_notice
is_on no_color m = m.no_color
is_on strip_color m = m.strip_color
is_on reg_only m = m.reg_only
is_on reg_moderated m = m.reg_moderated
is_on censor m = m.censor
is_on auditorium m = m.auditorium
is_on nokicks m = m.nokicks
is_on allowinvite m = m.allowinvite
is_on permanent m = m.permanent
is_on opmoderated m = m.opmoderated
is_on delayjoin m = m.delayjoin
is_on encrypted m = m.encrypted
is_on registered m = m.registered

-- The word of the letters, which the parameters follow.
abbrev pub first_word : Text → Text
first_word t = get_or (map_option (λ p. p.0) (split_once b' ' t)) t

letters_on-Lacks : (l : List (Bool × ℕ)) → All (λ p. p.1 ≢ b' ') l → Lacks b' ' (letters_on l)
letters_on-Lacks [] h = tt
letters_on-Lacks ((on, ch) ∷ l) (h, hs) = ground (arith, letters_on-Lacks l hs)

flag_table-Lacks : (m : ChanModes) → All (λ (p : Bool × ℕ). p.1 ≢ b' ') (flag_table m)
flag_table-Lacks m = ground arith

param_table-Lacks : (m : ChanModes) → All (λ (p : Bool × ℕ). p.1 ≢ b' ') (param_table m)
param_table-Lacks m = ground arith

plus-Lacks : Lacks b' ' (b'+' ∷ [])
plus-Lacks = ground arith

abbrev shown_letters : ChanModes → Text
shown_letters m = b'+' ∷ (letters_on (flag_table m) ++ letters_on (param_table m))

letters-Lacks : (m : ChanModes) → Lacks b' ' (shown_letters m)
letters-Lacks m = (
  plus-Lacks.0,
  All-append (λ c. c ≢ b' ') (letters_on (flag_table m)) (letters_on (param_table m))
      (letters_on-Lacks (flag_table m) (flag_table-Lacks m))
      (letters_on-Lacks (param_table m) (param_table-Lacks m)),
)

-- The parameters are empty or begin with a space.
Apart : Text → Type 0
Apart [] = Unit
Apart (c ∷ t) = c ≡ b' '

Apart-append : (s t : Text) → Apart s → Apart t → Apart (s ++ t)
unfolding Apart
Apart-append [] t hs ht = ht
Apart-append (c ∷ s) t hs ht = hs

spaced-Apart {ℓ} : {A : Type ℓ} (o : Option A) (f : A → Text) → Apart (spaced o f)
unfolding Apart
spaced-Apart none f = tt
spaced-Apart (some a) f = refl

render_params-Apart : (m : ChanModes) → Apart (render_params m)
unfolding render_params
render_params-Apart m = search (Apart-append, spaced-Apart) depth 24

shown_params-Apart :
    (params : Bool) (m : ChanModes) → Apart (if params then render_params m else [])
unfolding Apart
shown_params-Apart true m = render_params-Apart m
shown_params-Apart false m = tt

first_word-append : (w p : Text) → Lacks b' ' w → Apart p → first_word (w ++ p) ≡ w
unfolding Apart
first_word-append w [] h a = rw (append-nil w, split_once-none b' ' w h) refl
first_word-append w (c ∷ p) h a = rw (a, split_once-append b' ' w p h) refl

shown :
    (m : ChanModes) (f : FlagMode)
    → (b'+' == letter_of f
        || (any (λ p. (p.1 == letter_of f) && p.0) (flag_table m)
            || any (λ p. (p.1 == letter_of f) && p.0) (param_table m)))
      ≡ is_on f m
shown m moderated = ground arith
shown m _ = ground arith

-- The letter of a flag stands in the first word of the rendered modes, with or without the
-- parameters, exactly if the flag is on.
pub contains-render :
    (m : ChanModes) (f : FlagMode) (params : Bool)
    → contains_char (letter_of f) (first_word (render m params)) ≡ is_on f m
unfolding render
contains-render m f params =
    ap (λ t. contains_char (letter_of f) (first_word (b'+' ∷ t)))
      (sym (
        append_assoc (letters_on (flag_table m)) (letters_on (param_table m))
          (if params then render_params m else [])))
    ∙ (ap (contains_char (letter_of f)) (
          first_word-append (shown_letters m) (if params then render_params m else [])
            (letters-Lacks m) (shown_params-Apart params m))
        ∙ (rw
            (
              contains-append (letter_of f) (letters_on (flag_table m))
                  (letters_on (param_table m)),
              contains-letters_on (letter_of f) (flag_table m),
              contains-letters_on (letter_of f) (param_table m),
            )
            (shown m f)))
