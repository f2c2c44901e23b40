-- ===== src/Mode/Prefix.antt =====
-- The handler of the prefix modes.
use echoi_rcd.Prelude.{
  ℕ, Bool, not, ◌||◌, ◌&&◌, [], ◌∷◌, ◌++◌, Option, none, some, Text, codes, if◌then◌else◌, ◌==◌,
  ltb, get_or,
}
use echoi_rcd.Channel.Prefixes.{PrefixCfg, rank_to_set, rank_to_unset, can_depriv}
use echoi_rcd.Channel.Member.{Member, rank, set_prefix}
use echoi_rcd.Server.State.{Server, Effect, emit, find_nick}
use echoi_rcd.Mode.Members.{find_member, modify_member, channel_rank, reveal_member}

-- What became of a letter: nothing to show, or a change with its parameter.
pub data Applied : Type 0 where
  rejected : Applied
  applied : Option Text → Applied

-- The letter of a prefix and the rank it grants.
pub record Prefix : Type 0 where
  pub ch : ℕ
  pub rank : ℕ

abbrev pub err_nosuchnick : ℕ
err_nosuchnick = 401

abbrev pub err_usernotinchannel : ℕ
err_usernotinchannel = 441

abbrev pub err_chanoprivsneeded : ℕ
err_chanoprivsneeded = 482

module _ (cfg : PrefixCfg) where
  -- The rank that is asked of the one who grants or takes the prefix.
  abbrev pub needed : Prefix → Bool → ℕ
  needed p adding = get_or (if adding then rank_to_set cfg p.ch else rank_to_unset cfg p.ch) p.rank

  abbrev lacks : Text → Prefix → Text
  lacks chan p = chan ++ codes " :You lack the channel rank to set +" ++ p.ch ∷ []

  abbrev own : Text → Prefix → Text
  own chan p = chan ++ codes " :You may not remove +" ++ p.ch ∷ codes " from yourself"

  -- The change itself, once it is allowed.
  unfoldable pub grant : Prefix → Text → ℕ → Bool → Server → Server
  grant p key tuid adding s =
      let t = record s {
        channels = modify_member key tuid (λ m. set_prefix cfg m p.ch adding) s.channels;
      } in
      if adding then reveal_member cfg tuid key t else t

  -- The guards that need the target, a member of the channel.
  unfoldable pub apply_to :
      Prefix → Text → Text → ℕ → Bool → Text → ℕ → Member → Server → Applied × Server
  apply_to p chan key uid adding pn tuid target s =
      let barred = not adding && (tuid == uid && not (can_depriv cfg p.ch)) in
      let src = channel_rank cfg uid key s in
      if barred
      then (rejected, emit (Effect.numeric uid err_chanoprivsneeded (own chan p)) s)
      else if ltb src (needed p adding) || ltb src (rank cfg target)
      then (rejected, emit (Effect.numeric uid err_chanoprivsneeded (lacks chan p)) s)
      else (applied (some pn), grant p key tuid adding s)

  unfoldable pub prefix_apply :
      Prefix → Text → Text → ℕ → Bool → Option Text → Server → Applied × Server
  prefix_apply p chan key uid adding none s = (rejected, s)
  prefix_apply p chan key uid adding (some pn) s = elim (find_nick s pn) [
    | none ↦ (
      rejected,
      emit (Effect.numeric uid err_nosuchnick (pn ++ codes " :No such nick/channel")) s,
    )
    | some tuid ↦ elim (find_member key tuid s.channels) [
      | none ↦ (
        rejected,
        emit
            (Effect.numeric uid err_usernotinchannel
              (pn ++ b' ' ∷ (chan ++ codes " :They aren't on that channel")))
            s,
      )
      | some target ↦ apply_to p chan key uid adding pn tuid target s
    ]
  ]
