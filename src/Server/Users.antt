-- ===== src/Server/Users.antt =====
-- src/users.rs: the user of a connection. The record holds the fields that the modelled code reads
-- or writes.
use echoi_rcd.Prelude.{
  ℕ, Bool, true, false, List, [], ◌==◌, any, Option, none, some, Text, ◌++◌, ◌∷◌, not, ◌&&◌, ◌||◌,
  contains, text_key, is_nil, if◌then◌else◌,
}

pub record UserFlags : Type 0 where
  pub oper : Bool
  pub invisible : Bool
  pub wallops : Bool
  pub cloak : Bool
  pub bot : Bool
  pub deaf : Bool
  pub hidechans : Bool
  pub hideoper : Bool
  pub logged_in : Bool
  pub reg_only_pm : Bool
  pub ssl_pm : Bool
  pub noctcp : Bool
  pub snomask : Bool
  pub snomask_cats : Text
  pub callerid : Bool
  pub showwhois : Bool
  pub helpop : Bool
  pub deny_uncommon : Bool
  pub servprotect : Bool

-- `UserFlags::default()`
abbrev pub default_flags : UserFlags
default_flags = record {
  oper = false;
  invisible = false;
  wallops = false;
  cloak = false;
  bot = false;
  deaf = false;
  hidechans = false;
  hideoper = false;
  logged_in = false;
  reg_only_pm = false;
  ssl_pm = false;
  noctcp = false;
  snomask = false;
  snomask_cats = [];
  callerid = false;
  showwhois = false;
  helpop = false;
  deny_uncommon = false;
  servprotect = false;
}

-- The modes that a type of operators may set.
pub data ModeAllow : Type 0 where
  all : ModeAllow
  only : List ℕ → ModeAllow

abbrev pub allows : ModeAllow → ℕ → Bool
allows all c = true
allows (only set) c = any (λ d. d == c) set

-- The type of an operator: its privileges, and the modes that it may set.
pub record OperType : Type 0 where
  pub all_privs : Bool
  pub privs : List Text
  pub deny_privs : List Text
  pub usermodes : ModeAllow
  pub chanmodes : ModeAllow

pub record User : Type 0 where
  pub uuid : Text
  pub nick : Text
  pub ident : Text
  pub realname : Text
  pub host : Text
  pub cloak : Text
  pub vhost : Option Text
  pub account : Option Text
  pub signon : ℕ
  pub nick_ts : ℕ
  -- `addr.ip()` as a text
  pub ip : Text
  pub registered : Bool
  pub class : Option Text
  pub channels : List Text
  pub invited : List Text
  pub watch : List Text
  pub monitor : List Text
  pub silence : List Text
  pub signore : List Text
  pub accept : List Text
  -- `caps.extended_join`
  pub extended_join : Bool
  -- `caps.e2e` and so on
  pub e2e : Bool
  pub chghost : Bool
  pub channel_rename : Bool
  pub no_implicit_names : Bool
  -- whether the connection uses TLS
  pub secure : Bool
  -- `ext.get::<OperType>()`
  pub oper_type : Option OperType
  pub flags : UserFlags

unfoldable pub user_has_priv : User → Text → Bool
user_has_priv u name = if not u.flags.oper then false else elim u.oper_type [
  | none ↦ true
  | some t ↦ (t.all_privs || contains name t.privs) && not (contains name t.deny_privs)
]

abbrev pub host_display : User → Text
host_display u = elim u.vhost [
  | some v ↦ v
  | none ↦ if u.flags.cloak && not (is_nil u.cloak) then u.cloak else u.host
]

abbrev pub prefix : User → Text
prefix u = u.nick ++ b'!' ∷ (u.ident ++ b'@' ∷ host_display u)

-- The letters of the flags that are on.
abbrev when_on : Bool → ℕ → Text → Text
when_on on ch rest = if on then ch ∷ rest else rest

pub umodes : UserFlags → Text
umodes f =
    let oper_part = when_on f.reg_only_pm b'R' (
      when_on f.ssl_pm b'z' (
        when_on f.noctcp b'T' (
          when_on f.snomask b's' (
            when_on f.callerid b'g' (
              when_on f.showwhois b'W'
                (when_on f.helpop b'h' (when_on f.deny_uncommon b'c' []))))))) in
    b'+'
    ∷ when_on f.invisible b'i' (
        when_on f.wallops b'w' (
          when_on f.oper b'o' (
            when_on f.cloak b'x' (
              when_on f.bot b'B' (
                when_on f.servprotect b'k' (
                  when_on f.deaf b'D' (
                    when_on f.hidechans b'I'
                      (when_on f.hideoper b'H' (when_on f.logged_in b'r' oper_part)))))))))
