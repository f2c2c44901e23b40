-- ===== src/Mode/ListModes.antt =====
-- src/mode.rs: the handler of the list modes.
use echoi_rcd.Prelude.{
  ℕ, Bool, true, false, not, ◌&&◌, List, [], ◌∷◌, ◌++◌, map, Option, none, some, Text, codes,
  if◌then◌else◌, ltb, leb, ◌==◌, get_or, map_option, any, retain, length, get, modify, split_once,
  strip_prefix, is_some, show_nat, eq_ignore_case, nat_key, text_key,
}
use echoi_rcd.Channel.Prefixes.{PrefixCfg}
use echoi_rcd.Channel.Member.{rank_owner, rank_admin, rank_op, rank_halfop, rank_voice}
use echoi_rcd.Channel.Record.{Channel, Ban}
use echoi_rcd.Channel.Masks.{normalize_ban_mask}
use echoi_rcd.I18n.{trf}
use echoi_rcd.Server.State.{Server, Effect, emit, conf_num, conf_bool, is_oper}
use echoi_rcd.Server.Quit.{emit_all}
use echoi_rcd.Mode.Numerics
use echoi_rcd.Mode.Hidden.{denied}
use echoi_rcd.Mode.Members.{channel_rank}
use echoi_rcd.Mode.Prefix.{Applied, rejected, applied, err_chanoprivsneeded}

pub data ListKind : Type 0 where
  ban : ListKind
  except : ListKind
  invex : ListKind
  filter : ListKind
  exempt_chan_ops : ListKind
  auto_op : ListKind

abbrev pub list : ListKind → Channel → List Ban
list ban c = c.bans
list except c = c.excepts
list invex c = c.invex
list filter c = c.filters
list exempt_chan_ops c = c.exemptchanops
list auto_op c = c.autoop

-- A change of the list through `list_mut`.
abbrev pub list_mut : ListKind → (List Ban → List Ban) → Channel → Channel
list_mut ban f c = record c { bans = f c.bans }
list_mut except f c = record c { excepts = f c.excepts }
list_mut invex f c = record c { invex = f c.invex }
list_mut filter f c = record c { filters = f c.filters }
list_mut exempt_chan_ops f c = record c { exemptchanops = f c.exemptchanops }
list_mut auto_op f c = record c { autoop = f c.autoop }

-- The numeric of an entry, that of the end, and what the list is called.
record ListNumerics : Type 0 where
  entry : ℕ
  end_of : ℕ
  noun : Text

abbrev numerics : ListKind → ListNumerics
numerics ban = record {
  entry = Numerics.rpl_banlist;
  end_of = Numerics.rpl_endofbanlist;
  noun = codes "ban list";
}
numerics except = record {
  entry = Numerics.rpl_exceptlist;
  end_of = Numerics.rpl_endofexceptlist;
  noun = codes "exception list";
}
numerics invex = record {
  entry = Numerics.rpl_invexlist;
  end_of = Numerics.rpl_endofinvexlist;
  noun = codes "invite list";
}
numerics filter = record {
  entry = Numerics.rpl_spamfilter;
  end_of = Numerics.rpl_endofspamfilter;
  noun = codes "spamfilter list";
}
numerics exempt_chan_ops = record {
  entry = Numerics.rpl_exemptionlist;
  end_of = Numerics.rpl_endofexemptionlist;
  noun = codes "exemptchanops list";
}
numerics auto_op = record {
  entry = Numerics.rpl_autooplist;
  end_of = Numerics.rpl_endofautoop;
  noun = codes "autoop list";
}

abbrev pub normalizes : ListKind → Bool
normalizes ban = true
normalizes except = true
normalizes invex = true
normalizes other = false

abbrev is_ban : ListKind → Bool
is_ban ban = true
is_ban other = false

abbrev is_auto_op : ListKind → Bool
is_auto_op auto_op = true
is_auto_op other = false

-- The mask as it is stored.
abbrev pub stored_mask : ListKind → Text → Text
stored_mask kind mask = if normalizes kind then normalize_ban_mask mask else mask

abbrev pub has_mask : Text → List Ban → Bool
has_mask mask bs = any (λ b. eq_ignore_case b.mask mask) bs

abbrev pub without_mask : Text → List Ban → List Ban
without_mask mask bs = retain (λ b. not (eq_ignore_case b.mask mask)) bs

abbrev setter_of : ℕ → Server → Text
setter_of uid s = get_or (map_option (λ u. u.nick) (get uid s.users)) []

abbrev pub new_entry : Text → ℕ → Server → Ban
new_entry mask uid s = record {
  mask = mask;
  setter = setter_of uid s;
  ts = s.clock;
  expires = none;
}

unfoldable pub list_add : ListKind → Text → Text → ℕ → Text → Server → Applied × Server
list_add kind chan key uid mask s = elim (get key s.channels) [
  | none ↦ (applied (some mask), s)
  | some c ↦
      if has_mask mask (list kind c)
      then (rejected, s)
      else if not s.mode_sudo && leb (conf_num s (codes "maxbans") 100) (length (list kind c))
      then (
        rejected,
        emit
            (Effect.numeric uid Numerics.err_banlistfull
              (chan ++ b' ' ∷ (mask ++ codes " :Channel list is full")))
            s,
      )
      else (
        applied (some mask),
        record s {
          channels = modify key (list_mut kind (λ bs. bs ++ new_entry mask uid s ∷ [])) s.channels;
        },
      )
]

unfoldable pub list_remove : ListKind → Text → Text → Server → Applied × Server
list_remove kind key mask s = elim (get key s.channels) [
  | none ↦ (rejected, s)
  | some c ↦ (
    if ltb (length (without_mask mask (list kind c))) (length (list kind c))
        then applied (some mask)
        else rejected,
    record s { channels = modify key (list_mut kind (without_mask mask)) s.channels },
  )
]

-- The prefix that an entry of `+w` grants, and the rank that one needs to grant it.
abbrev granted_prefix : Text → Option ℕ
granted_prefix mask = elim (split_once b':' mask) [
  | none ↦ none
  | some ([], rest) ↦ none
  | some (c ∷ p, rest) ↦ some c
]

abbrev rank_of_prefix : Option ℕ → ℕ
rank_of_prefix none = 0
rank_of_prefix (some c) =
    if c == b'q'
    then rank_owner
    else if c == b'a'
    then rank_admin
    else if c == b'o'
    then rank_op
    else if c == b'h'
    then rank_halfop
    else if c == b'v'
    then rank_voice
    else 0

abbrev pub autoop_needed : Text → ℕ
autoop_needed mask = rank_of_prefix (granted_prefix mask)

module _ (cfg : PrefixCfg) (catalog : Text → Text) where
  abbrev entry_line : Text → Ban → Text
  entry_line chan b = chan ++ b' ' ∷ (b.mask ++ b' ' ∷ (b.setter ++ b' ' ∷ show_nat b.ts))

  unfoldable pub list_view : ListKind → ℕ → Text → Text → ℕ → Server → Server
  list_view kind ch chan key uid s =
      let n = numerics kind in
      let rows : List Ban = elim (get key s.channels) [ none ↦ [] | some c ↦ list kind c ] in
      if denied cfg s uid key ch
      then emit
          (Effect.numeric uid err_chanoprivsneeded
            (chan ++ codes " :You do not have access to view the " ++ n.noun))
          s
      else emit_all
          (map (λ b. Effect.numeric uid n.entry (entry_line chan b)) rows
            ++ Effect.numeric uid n.end_of
                (chan ++ codes " :" ++ trf catalog (codes "End of channel {0}") (n.noun ∷ []))
              ∷ [])
          s

  -- An entry that grants a prefix on arrival asks for the rank to grant it by hand.
  abbrev pub autoop_barred : ListKind → Text → ℕ → Bool → Text → Server → Bool
  autoop_barred kind key uid adding mask s =
      (adding && is_auto_op kind)
      && (not s.mode_sudo && ltb (channel_rank cfg uid key s) (autoop_needed mask))

  abbrev pub classban_barred : ListKind → ℕ → Bool → Text → Server → Bool
  classban_barred kind uid adding mask s =
      (adding && is_ban kind)
      && (is_some (strip_prefix (codes "C:") mask)
          && (not s.mode_sudo
              && (conf_bool s (codes "classban_operonly") false && not (is_oper s uid))))

  unfoldable pub list_apply :
      ℕ → ListKind → Text → Text → ℕ → Bool → Option Text → Server → Applied × Server
  list_apply ch kind chan key uid adding none s = (rejected, list_view kind ch chan key uid s)
  list_apply ch kind chan key uid adding (some mask) s =
      if autoop_barred kind key uid adding mask s
      then (
        rejected,
        emit
            (Effect.numeric uid err_chanoprivsneeded (
              chan
              ++ (codes " :You lack the channel rank to auto-grant +"
                  ++ get_or (granted_prefix mask) b'?' ∷ [])))
            s,
      )
      else if classban_barred kind uid adding mask s
      then (
        rejected,
        emit
            (Effect.numeric uid err_chanoprivsneeded
              (chan ++ codes " :Only operators may set a class ban (C:)"))
            s,
      )
      else if adding
      then list_add kind chan key uid (stored_mask kind mask) s
      else list_remove kind key (stored_mask kind mask) s
