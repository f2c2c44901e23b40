-- ===== src/Mode/Lookup.antt =====
-- What holds of every handler that a letter may name.
use echoi_rcd.Prelude.{ℕ, List, [], ◌∷◌, ◌++◌, map, some, ◌==◌, find-All, All, All-append, ◌≡◌}
use echoi_rcd.Channel.Prefixes.{PrefixCfg, PrefixDef}
use echoi_rcd.Mode.Handlers.{ChanMode, letter, tier, chan_modes, chan_mode}

module _ (P : ChanMode → Type 0) (custom : (ch rank : ℕ) → P (tier ch rank)) where
  custom-All : (defs : List PrefixDef) → All P (map (λ d. tier d.letter d.rank) defs)
  custom-All [] = tt
  custom-All (d ∷ defs) = (custom d.letter d.rank, custom-All defs)

  pub chan_mode-All :
      (cfg : PrefixCfg) (c : ℕ) (h : ChanMode) → All P chan_modes → chan_mode cfg c ≡ some h → P h
  unfolding chan_mode
  chan_mode-All cfg c h table e =
      (find-All (λ m. letter m == c) P (chan_modes ++ map (λ d. tier d.letter d.rank) cfg.custom) h
        (All-append P chan_modes (map (λ d. tier d.letter d.rank) cfg.custom) table
          (custom-All cfg.custom))
        e).1
