-- ===== src/Channel/Modes.antt =====
-- The channel modes: the flags and parameters of a channel, and how they are rendered.
pub mod Render
use echoi_rcd.Prelude.{
  ℕ, Bool, true, false, ◌&&◌, List, [], ◌∷◌, ◌++◌, Option, none, some, Text, codes, if◌then◌else◌,
  ◌==◌, is_some, show_nat,
}

pub record MsgFlood : Type 0 where
  pub lines : ℕ
  pub secs : ℕ
  pub ban : Bool

pub record Rate : Type 0 where
  pub count : ℕ
  pub secs : ℕ

pub record ChanModes : Type 0 where
  pub moderated : Bool
  pub topic_ops : Bool
  pub no_external : Bool
  pub invite_only : Bool
  pub secret : Bool
  pub key : Option Text
  pub limit : Option ℕ
  pub secure_only : Bool
  pub private : Bool
  pub oper_only : Bool
  pub no_nick : Bool
  pub no_ctcp : Bool
  pub no_notice : Bool
  pub no_color : Bool
  pub strip_color : Bool
  pub reg_only : Bool
  pub reg_moderated : Bool
  pub censor : Bool
  pub auditorium : Bool
  pub flood : Option MsgFlood
  pub joinflood : Option Rate
  pub nickflood : Option Rate
  pub slowmode : Option Rate
  pub redirect : Option Text
  pub history : Option (ℕ × ℕ)
  pub anticaps : Option ℕ
  pub nokicks : Bool
  pub allowinvite : Bool
  pub permanent : Bool
  pub kicknorejoin : Option ℕ
  pub opmoderated : Bool
  pub delaymsg : Option ℕ
  pub repeat : Option ℕ
  pub delayjoin : Bool
  pub encrypted : Bool
  pub registered : Bool

abbrev pub default_modes : ChanModes
default_modes = record {
  moderated = false;
  topic_ops = false;
  no_external = false;
  invite_only = false;
  secret = false;
  key = none;
  limit = none;
  secure_only = false;
  private = false;
  oper_only = false;
  no_nick = false;
  no_ctcp = false;
  no_notice = false;
  no_color = false;
  strip_color = false;
  reg_only = false;
  reg_moderated = false;
  censor = false;
  auditorium = false;
  flood = none;
  joinflood = none;
  nickflood = none;
  slowmode = none;
  redirect = none;
  history = none;
  anticaps = none;
  nokicks = false;
  allowinvite = false;
  permanent = false;
  kicknorejoin = none;
  opmoderated = false;
  delaymsg = none;
  repeat = none;
  delayjoin = false;
  encrypted = false;
  registered = false;
}

-- Set or clear a flag by its letter; any other letter changes nothing.
unfoldable pub set_by_letter : ChanModes → ℕ → Bool → ChanModes
set_by_letter m c on =
    if c == b'm'
    then record m { moderated = on }
    else if c == b'n'
    then record m { no_external = on }
    else if c == b't'
    then record m { topic_ops = on }
    else if c == b'i'
    then record m { invite_only = on }
    else if c == b's'
    then record m { secret = on }
    else if c == b'z'
    then record m { secure_only = on }
    else if c == b'p'
    then record m { private = on }
    else if c == b'O'
    then record m { oper_only = on }
    else if c == b'N'
    then record m { no_nick = on }
    else if c == b'C'
    then record m { no_ctcp = on }
    else if c == b'T'
    then record m { no_notice = on }
    else if c == b'c'
    then record m { no_color = on }
    else if c == b'S'
    then record m { strip_color = on }
    else if c == b'R'
    then record m { reg_only = on }
    else if c == b'M'
    then record m { reg_moderated = on }
    else if c == b'G'
    then record m { censor = on }
    else if c == b'u'
    then record m { auditorium = on }
    else if c == b'Q'
    then record m { nokicks = on }
    else if c == b'A'
    then record m { allowinvite = on }
    else if c == b'P'
    then record m { permanent = on }
    else if c == b'U'
    then record m { opmoderated = on }
    else if c == b'D'
    then record m { delayjoin = on }
    else if c == b'E'
    then record m { encrypted = on }
    else if c == b'r'
    then record m { registered = on }
    else m

-- The pairs that `render` goes through, and the letters of those that are on.
abbrev pub flag_table : ChanModes → List (Bool × ℕ)
flag_table m =
    (m.registered, b'r')
    ∷ (m.invite_only, b'i')
    ∷ (m.moderated, b'm')
    ∷ (m.no_external, b'n')
    ∷ (m.secret, b's')
    ∷ (m.topic_ops, b't')
    ∷ (m.secure_only, b'z')
    ∷ (m.private, b'p')
    ∷ (m.oper_only, b'O')
    ∷ (m.no_nick, b'N')
    ∷ (m.no_ctcp, b'C')
    ∷ (m.no_notice, b'T')
    ∷ (m.no_color, b'c')
    ∷ (m.strip_color, b'S')
    ∷ (m.reg_only, b'R')
    ∷ (m.reg_moderated, b'M')
    ∷ (m.censor, b'G')
    ∷ (m.auditorium, b'u')
    ∷ (m.permanent, b'P')
    ∷ (m.nokicks, b'Q')
    ∷ (m.allowinvite, b'A')
    ∷ (m.opmoderated, b'U')
    ∷ (m.delayjoin, b'D')
    ∷ (m.encrypted, b'E')
    ∷ []

abbrev pub letters_on : List (Bool × ℕ) → Text
letters_on [] = []
letters_on ((on, ch) ∷ rest) = if on then ch ∷ letters_on rest else letters_on rest

abbrev pub param_table : ChanModes → List (Bool × ℕ)
param_table m =
    (is_some m.key, b'k')
    ∷ (is_some m.limit, b'l')
    ∷ (is_some m.flood, b'f')
    ∷ (is_some m.joinflood, b'j')
    ∷ (is_some m.nickflood, b'F')
    ∷ (is_some m.slowmode, b'W')
    ∷ (is_some m.redirect, b'L')
    ∷ (is_some m.history, b'H')
    ∷ (is_some m.anticaps, b'B')
    ∷ (is_some m.kicknorejoin, b'J')
    ∷ (is_some m.delaymsg, b'd')
    ∷ (is_some m.repeat, b'K')
    ∷ []

abbrev spaced {ℓ} : {A : Type ℓ} → Option A → (A → Text) → Text
spaced none f = []
spaced (some a) f = b' ' ∷ f a

abbrev pub show_rate : ℕ → ℕ → Text
show_rate count secs = show_nat count ++ b':' ∷ show_nat secs

abbrev pub show_flood : MsgFlood → Text
show_flood f = (if f.ban then b'*' ∷ [] else []) ++ show_rate f.lines f.secs

-- The parameters, in the order of their letters.
pub render_params : ChanModes → Text
render_params m =
    spaced m.key (λ k. k)
    ++ (spaced m.limit show_nat
        ++ (spaced m.flood show_flood
            ++ (spaced m.joinflood (λ (r : Rate). show_rate r.count r.secs)
                ++ (spaced m.nickflood (λ (r : Rate). show_rate r.count r.secs)
                    ++ (spaced m.slowmode (λ (r : Rate). show_rate r.count r.secs)
                        ++ (spaced m.redirect (λ t. t)
                            ++ (spaced m.history (λ h. show_rate h.0 h.1)
                                ++ (spaced m.anticaps show_nat
                                    ++ (spaced m.kicknorejoin show_nat
                                        ++ (spaced m.delaymsg show_nat
                                            ++ spaced m.repeat show_nat))))))))))

pub render : ChanModes → Bool → Text
render m params =
    b'+'
    ∷ (letters_on (flag_table m)
        ++ (letters_on (param_table m) ++ (if params then render_params m else [])))
