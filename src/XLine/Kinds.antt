-- ===== src/XLine/Kinds.antt =====
-- The kinds of bans with their tags, and the record of a ban.
use echoi_rcd.Prelude.{
  ℕ, Option, none, some, Text, codes, text_eq, if◌then◌else◌, ◌≡◌, refl, Bool, arith,
}

pub data XKind : Type 0 where
  kline gline zline eline shun qline cban svshold rline jupe aline galine : XKind

unfoldable pub tag : XKind → Text
tag kline = codes "K"
tag gline = codes "G"
tag zline = codes "Z"
tag eline = codes "E"
tag shun = codes "SHUN"
tag qline = codes "Q"
tag cban = codes "CBAN"
tag svshold = codes "SVSHOLD"
tag rline = codes "R"
tag jupe = codes "JUPE"
tag aline = codes "ALINE"
tag galine = codes "GALINE"

unfoldable pub from_tag : Text → Option XKind
from_tag t =
    if text_eq t (codes "K")
    then some kline
    else if text_eq t (codes "G")
    then some gline
    else if text_eq t (codes "Z")
    then some zline
    else if text_eq t (codes "E")
    then some eline
    else if text_eq t (codes "SHUN")
    then some shun
    else if text_eq t (codes "Q")
    then some qline
    else if text_eq t (codes "CBAN")
    then some cban
    else if text_eq t (codes "SVSHOLD")
    then some svshold
    else if text_eq t (codes "R")
    then some rline
    else if text_eq t (codes "JUPE")
    then some jupe
    else if text_eq t (codes "ALINE")
    then some aline
    else if text_eq t (codes "GALINE")
    then some galine
    else none

-- The equality of kinds, which the program derives.
abbrev pub kind_eq : XKind → XKind → Bool
kind_eq j k = text_eq (tag j) (tag k)

pub record XLine : Type 0 where
  pub kind : XKind
  pub mask : Text
  pub reason : Text
  pub setter : Text
  pub expires : ℕ
  pub set_at : ℕ

pub from_tag-tag : (k : XKind) → from_tag (tag k) ≡ some k
unfolding from_tag tag text_eq
from_tag-tag kline = refl
from_tag-tag _ = ground arith
