-- ===== src/Mode/Limits.antt =====
-- The bounds of the parameters of channel modes, and what the handlers read.
use mathlib.Core.Option.{some-injective}
use echoi_rcd.Prelude.{
  ℕ, Bool, true, false, ◌&&◌, List, [], ◌∷◌, Option, none, some, Text, leb, ltb, get, modify,
  remove, get-modify, get-remove, map_option, text_eq, parse_uint, parse_uint-le, max_u32, ◌≡◌,
  refl, ◌∙◌, arith, Bool-cases, Option-cases, inl, inr, text_key, nat_key, ◌==◌, subst, if_both,
}
use echoi_rcd.Channel.Modes.{ChanModes, Rate, MsgFlood}
use echoi_rcd.Channel.Record.{Channel}
use echoi_rcd.Mode.Params

abbrev pub within : ℕ → ℕ → Option ℕ → Bool
within low high none = true
within low high (some n) = leb low n && leb n high

abbrev pub rate_within : Option Rate → Bool
rate_within none = true
rate_within (some r) = ltb 0 r.count && ltb 0 r.secs

abbrev pub flood_within : Option MsgFlood → Bool
flood_within none = true
flood_within (some f) = ltb 0 f.lines && ltb 0 f.secs

abbrev pub history_within : Option (ℕ × ℕ) → Bool
history_within none = true
history_within (some h) = leb 1 h.0 && leb h.0 256

abbrev pub key_within : Option Text → Bool
key_within none = true
key_within (some k) = Params.is_key k

-- Each parameter is what its handler lets pass.
unfoldable pub InBounds : ChanModes → Type 0
InBounds m =
    (key_within m.key ≡ true)
    × (within 1 max_u32 m.limit ≡ true)
    × (flood_within m.flood ≡ true)
    × (rate_within m.joinflood ≡ true)
    × (rate_within m.nickflood ≡ true)
    × (rate_within m.slowmode ≡ true)
    × (history_within m.history ≡ true)
    × (within 1 100 m.anticaps ≡ true)
    × (within 1 3600 m.kicknorejoin ≡ true)
    × (within 1 3600 m.delaymsg ≡ true)
    × (within 1 20 m.repeat ≡ true)

unfoldable pub AllInBounds : List (Text × Channel) → Type 0
AllInBounds chs = (k : Text) (ch : Channel) → get k chs ≡ some ch → InBounds ch.modes

pub remove-AllInBounds :
    (key : Text) (chs : List (Text × Channel)) → AllInBounds chs → AllInBounds (remove key chs)
unfolding AllInBounds
remove-AllInBounds key chs ok k ch = rw (get-remove key k chs) (elim (Bool-cases (text_eq key k)) [
  | inl h ↦ rw (h) (λ none_left. cc)
  | inr h ↦ rw (h) (ok k ch)
])

pub modify-AllInBounds :
    (key : Text) (f : Channel → Channel) (chs : List (Text × Channel))
    → AllInBounds chs
    → ((ch : Channel) → InBounds ch.modes → InBounds (f ch).modes)
    → AllInBounds (modify key f chs)
unfolding AllInBounds
modify-AllInBounds key f chs ok keeps k ch =
    rw (get-modify key k f chs) (elim (Option-cases (get k chs)) [
      | inl h ↦ rw (h) (
          if_both (λ o. o ≡ some ch → InBounds ch.modes) (text_eq key k) none none (λ e. cc)
            (λ e. cc))
      | inr (old, h) ↦ rw (h) (
          if_both (λ o. o ≡ some ch → InBounds ch.modes) (text_eq key k) (some (f old)) (some old)
            (λ e.
              subst (λ c. InBounds c.modes) (some-injective (f old) ch e) (keeps old (ok k old h)))
            (λ e. ok k ch (h ∙ e)))
    ])

pub positive-within :
    (top : ℕ) (p : Text) (v : ℕ)
    → leb 1 top ≡ true
    → Params.positive top p ≡ some v
    → within 1 top (some v) ≡ true
positive-within top p v t = ground arith

pub parse_limit-within :
    (p : Text) (v : ℕ) → Params.parse_limit p ≡ some v → within 1 max_u32 (some v) ≡ true
unfolding Params.parse_limit
parse_limit-within p v = elim (Option-cases (parse_uint max_u32 p)) [
  | inl h ↦ rw (Params.parse_limit, h) (λ done. cc)
  | inr (n, h) ↦ rw (Params.parse_limit, h) (ground (arith, parse_uint-le max_u32 p h))
]

pub parse_percent-within :
    (p : Text) (v : ℕ) → Params.parse_percent p ≡ some v → within 1 100 (some v) ≡ true
unfolding Params.parse_percent
parse_percent-within p v = ground arith

pub parse_rate-within :
    (p : Text) (v : Rate) → Params.parse_rate p ≡ some v → rate_within (some v) ≡ true
unfolding Params.parse_rate
parse_rate-within p v = ground arith

pub parse_slow-within :
    (p : Text) (v : Rate) → Params.parse_slow p ≡ some v → rate_within (some v) ≡ true
unfolding Params.parse_slow
parse_slow-within p v = ground (arith, parse_rate-within p v)

pub flood_of-within :
    (star : Bool) (o : Option Rate) (v : MsgFlood)
    → ((r : Rate) → o ≡ some r → rate_within (some r) ≡ true)
    → map_option (Params.flood_of star) o ≡ some v
    → flood_within (some v) ≡ true
flood_of-within star none v ok = λ e. cc
flood_of-within star (some r) v ok = let here = ok r refl in λ e. ground arith

pub parse_flood-within :
    (p : Text) (v : MsgFlood) → Params.parse_flood p ≡ some v → flood_within (some v) ≡ true
unfolding Params.parse_flood
parse_flood-within [] v = flood_of-within false (Params.parse_rate []) v (parse_rate-within [])
parse_flood-within (c ∷ p) v =
    if_both (λ o. o ≡ some v → flood_within (some v) ≡ true) (c == b'*') _ _
      (flood_of-within true (Params.parse_rate p) v (parse_rate-within p))
      (flood_of-within false (Params.parse_rate (c ∷ p)) v (parse_rate-within (c ∷ p)))

pub parse_history-within :
    (p : Text) (v : ℕ × ℕ) → Params.parse_history p ≡ some v → history_within (some v) ≡ true
unfolding Params.parse_history
parse_history-within p v = ground arith
