-- ===== src/Mode/Reread.antt =====
-- What a handler shows of a parameter is read back as the same value.
use echoi_rcd.Prelude.{
  ℕ, ◌≤◌, ◌^◌, ◌-◌, Bool, true, false, ◌&&◌, [], ◌∷◌, ◌++◌, Option, none, some, Text, codes, get_or,
  map_option, ltb, contains_char, split_once, split_once-append, show_nat, show_nat-Lacks,
  parse_uint, parse_uint-show_nat, parse_uint-le, max_u32, max_u64, ◌≡◌, refl, ◌∙◌, ap, subst,
  arith, Bool-cases, Option-cases, inl, inr, >>=-eq-some, text_key, nat_key,
}
use echoi_rcd.Channel.Modes.{ChanModes, Rate, show_rate}
use echoi_rcd.Server.State.{Server}
use echoi_rcd.XLine.Duration.{
  parse_duration, short_duration, parse_duration-short_duration, parse_duration-le,
}
use echoi_rcd.Mode.Prefix.{Applied}
use echoi_rcd.Mode.Params
use echoi_rcd.Mode.Limits.{
  parse_limit-within, positive-within, parse_percent-within, parse_history-within,
}

-- What is shown of a value is read back as that value, and shown alike.
unfoldable pub Reads : {A : Type 0} → (Text → Option A) → (Text → A → Text) → Type 0
Reads {A} read shown =
    (p : Text) (v : A)
    → read p ≡ some v
    → (read (shown p v) ≡ some v) × (shown (shown p v) v ≡ shown p v)

pub parse_limit-Reads : Reads Params.parse_limit (λ p n. show_nat n)
unfolding Reads Params.parse_limit
parse_limit-Reads p v e =
    let ok = parse_limit-within p v e in
    (rw (parse_uint-show_nat max_u32 v (ground arith)) (ground arith), refl)

pub positive-Reads :
    (top : ℕ) → 1 ≤ top → top ≤ max_u32 → Reads (Params.positive top) (λ p n. show_nat n)
unfolding Reads
positive-Reads top some_room small p v e =
    let ok = positive-within top p v (ground arith) e in
    (rw (parse_uint-show_nat max_u32 v (ground arith)) (ground arith), refl)

pub parse_percent-Reads : Reads Params.parse_percent (λ p n. show_nat n)
unfolding Reads Params.parse_percent
parse_percent-Reads p v e =
    let ok = parse_percent-within p v e in
    (rw (parse_uint-show_nat (2 ^ 8 - 1) v (ground arith)) (ground arith), refl)

-- A rate of two positive numbers of their types is read back.
parse_rate-show_rate :
    (count secs : ℕ)
    → (ltb 0 count && ltb 0 secs) ≡ true
    → count ≤ max_u32
    → secs ≤ max_u64
    → Params.parse_rate (show_rate count secs) ≡ some (record { count = count; secs = secs })
unfolding Params.parse_rate
parse_rate-show_rate count secs ok c s =
    rw
      (
        split_once-append b':' (show_nat count) (show_nat secs) (show_nat-Lacks b':' count refl),
        parse_uint-show_nat max_u32 count c,
        parse_uint-show_nat max_u64 secs s,
        ok,
      )
      refl

parse_rate-bounds :
    (p : Text) (v : Rate)
    → Params.parse_rate p ≡ some v
    → (v.count ≤ max_u32) × (v.secs ≤ max_u64) × ((ltb 0 v.count && ltb 0 v.secs) ≡ true)
unfolding Params.parse_rate
parse_rate-bounds p v e =
    let parts = >>=-eq-some (split_once b':' p) _ e in
    let count = >>=-eq-some (parse_uint max_u32 parts.0.0) _ parts.2 in
    let secs = >>=-eq-some (parse_uint max_u64 parts.0.1) _ count.2 in
    let c = parse_uint-le max_u32 parts.0.0 count.1 in
    let s = parse_uint-le max_u64 parts.0.1 secs.1 in
    let last = secs.2 in (ground arith, ground arith, ground arith)

pub parse_rate-Reads : Reads Params.parse_rate (λ p (r : Rate). show_rate r.count r.secs)
unfolding Reads
parse_rate-Reads p v e =
    let ok = parse_rate-bounds p v e in (parse_rate-show_rate v.count v.secs ok.2 ok.0 ok.1, refl)

contains-colon : (s t : Text) → contains_char b':' (s ++ b':' ∷ t) ≡ true
contains-colon [] t = refl
contains-colon (c ∷ s) t = ground (arith, contains-colon s t)

parse_slow-show_rate :
    (count secs : ℕ)
    → Params.parse_slow (show_rate count secs) ≡ Params.parse_rate (show_rate count secs)
unfolding Params.parse_slow
parse_slow-show_rate count secs = rw (contains-colon (show_nat count) (show_nat secs)) refl

parse_bare-bounds :
    (p : Text) (v : Rate)
    → Params.parse_bare p ≡ some v
    → (v.count ≡ 1) × (v.secs ≤ max_u64) × (ltb 0 v.secs ≡ true)
parse_bare-bounds p v = elim (Option-cases (parse_uint max_u64 p)) [
  | inl h ↦ rw (h) (λ e. cc)
  | inr (n, h) ↦ let top = parse_uint-le max_u64 p h in rw (h) (λ e. ground arith)
]

pub parse_slow-Reads : Reads Params.parse_slow (λ p (r : Rate). show_rate r.count r.secs)
unfolding Reads Params.parse_slow
parse_slow-Reads p v e = elim (Bool-cases (contains_char b':' p)) [
  | inl h ↦
      let same : Params.parse_rate p ≡ some v = rw (h) at e in
      (parse_slow-show_rate v.count v.secs ∙ (parse_rate-Reads p v same).0, refl)
  | inr h ↦
      let bare = parse_bare-bounds p v (rw (h) at e) in
      (
        parse_slow-show_rate v.count v.secs
            ∙ parse_rate-show_rate v.count v.secs (ground (arith, bare)) (ground (arith, bare))
                (ground (arith, bare)),
        refl,
      )
]

duration_le : (t : Text) → get_or (parse_duration t) 0 ≤ max_u64
duration_le t = elim (Option-cases (parse_duration t)) [
  | inl h ↦ rw (h) (omega arith)
  | inr (d, h) ↦ rw (h) (parse_duration-le t h)
]

second_part :
    (o : Option ℕ) (d : ℕ) (v : ℕ × ℕ) → map_option (λ lines. (lines, d)) o ≡ some v → d ≡ v.1
second_part none d v = λ e. cc
second_part (some n) d v = λ e. ap (λ o. (get_or {A = ℕ × ℕ} o (0, 0)).1) e

history_bounds :
    (p : Text) (v : ℕ × ℕ)
    → Params.parse_history p ≡ some v
    → (1 ≤ v.0) × (v.0 ≤ 256) × (v.1 ≤ max_u64)
unfolding Params.parse_history
history_bounds p v e =
    let ok = parse_history-within p v e in
    let parts = get_or (split_once b':' p) (p, codes "0") in
    let same = second_part (Params.positive Params.history_cap parts.0) _ v e in
    (ground arith, ground arith, subst (λ d. d ≤ max_u64) same (duration_le parts.1))

pub parse_history-Reads :
    Reads Params.parse_history (λ p h. show_nat h.0 ++ b':' ∷ short_duration h.1)
unfolding Reads Params.parse_history
parse_history-Reads p v e =
    let ok = history_bounds p v e in
    (
      rw
          (
            split_once-append b':' (show_nat v.0) (short_duration v.1)
                (show_nat-Lacks b':' v.0 refl),
            parse_uint-show_nat max_u32 v.0 (ground arith),
            parse_duration-short_duration v.1 ok.2,
          )
          (ground arith),
      refl,
    )

unfoldable pub shown_text : Applied → Text
shown_text (Applied.applied (some t)) = t
shown_text other = []

module _ (key : Text) (s : Server) where
  pub param_apply-Reads :
      {A : Type 0} (read : Text → Option A) (set : ChanModes → Option A → ChanModes)
      (shown : Text → A → Text) (adding : Bool) (p q : Text)
      → Reads read shown
      → (Params.param_apply read set shown key adding (some p) s).0 ≡ Applied.applied (some q)
      → Params.param_apply read set shown key adding (some q) s
        ≡ Params.param_apply read set shown key adding (some p) s
  unfolding Reads shown_text
  param_apply-Reads read set shown false p q reads = λ done. refl
  param_apply-Reads read set shown true p q reads = elim (Option-cases (read p)) [
    | inl h ↦ rw (h) (λ done. cc)
    | inr (v, h) ↦
        let again = reads p v h in
        let once : Params.param_apply read set shown key true (some (shown p v)) s
            ≡ (Applied.applied (some (shown p v)), Params.set_modes key (λ m. set m (some v)) s) =
          rw (again.0, again.1) refl in
        rw (h) (λ done.
          subst
            (λ t.
              Params.param_apply read set shown key true (some t) s
              ≡ (Applied.applied (some (shown p v)), Params.set_modes key (λ m. set m (some v)) s))
            (ap shown_text done) once)
  ]
