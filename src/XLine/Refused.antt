-- ===== src/XLine/Refused.antt =====
-- Which users the bans refuse, said of the lines of the table one by one.
use mathlib.Core.Bool.{false≢true}
use mathlib.Core.List.{Memᴰ}
use echoi_rcd.Prelude.{
  ℕ, ◌<◌, Bool, true, false, ◌||◌, List, [], ◌∷◌, Text, ◌==◌, ==_iff, ◌↔◌, ◌⊎◌, ◌≡◌, refl, sym, ◌∙◌,
  ap, arith, any, is_some, get_or, text_eq_refl, text_eq→eq, and_left, and_right, Bool-cases, inl,
  inr,
}
use echoi_rcd.Glob.{glob_match}
use echoi_rcd.Server.State.{Server}
use echoi_rcd.XLine.Kinds.{XKind, XLine, kind_eq, tag, from_tag, from_tag-tag}
use echoi_rcd.XLine.Match.{
  is_active, applies, hits, xmatch, is_exempt, user_host, first_ban, matched_xline,
}

-- A line for ever, or one whose end is still to come.
pub Lasts : ℕ → XLine → Type 0
Lasts now x = (x.expires ≡ 0) ⊎ (now < x.expires)

is_active-Lasts : (now : ℕ) (x : XLine) → (is_active now x ≡ true) ↔ Lasts now x
unfolding Lasts
is_active-Lasts now x = (
  λ h. elim (Bool-cases (x.expires == 0)) [
    | inl e ↦ inl ((==_iff x.expires 0).0 e)
    | inr e ↦ inr (ground (arith, h, e))
  ],
  λ l. elim l [ inl e ↦ ground (arith, e) | inr e ↦ ground (arith, e) ],
)

kind_eq_iff : (j k : XKind) → (kind_eq j k ≡ true) ↔ (j ≡ k)
kind_eq_iff j k = (
  λ h.
      ap (λ o. get_or o j)
        (sym (from_tag-tag j) ∙ ap from_tag (text_eq→eq (tag j) (tag k) h) ∙ from_tag-tag k),
  λ e. rw (e) (text_eq_refl (tag k)),
)

any_sound :
    (p : XLine → Bool) (xs : List XLine)
    → any p xs ≡ true
    → (x : XLine) × (Memᴰ x xs × (p x ≡ true))
any_sound p [] h = absurd (false≢true h)
any_sound p (y ∷ ys) h = elim (Bool-cases (p y)) [
  | inl e ↦ (y, (Memᴰ.head refl, e))
  | inr e ↦ let (x, (m, there)) = any_sound p ys (rw (e) at h) in (x, (Memᴰ.tail m, there))
]

any_complete :
    (p : XLine → Bool) (xs : List XLine) (x : XLine) → Memᴰ x xs → p x ≡ true → any p xs ≡ true
any_complete p [] x m h = elim m [ ]
any_complete p (y ∷ ys) x (Memᴰ.head e) h =
    let q : p y ≡ true = sym (ap p e) ∙ h in ground (arith, q)
any_complete p (y ∷ ys) x (Memᴰ.tail m) h = ground (arith, any_complete p ys x m h)

-- A line exempts by `user@host`.
pub Exempts : (Text → Text) → ℕ → Text → XLine → Type 0
Exempts to_lowercase now uh e =
    (e.kind ≡ XKind.eline) × (Lasts now e × (glob_match to_lowercase e.mask uh ≡ true))

module _ (to_lowercase : Text → Text) (now : ℕ) (uh ip : Text) where
  -- A K- or G-line bans by `user@host`, a Z-line by the address.
  pub Bans : XLine → Type 0
  Bans x =
      Lasts now x
      × ((((x.kind ≡ XKind.kline) ⊎ (x.kind ≡ XKind.gline))
            × (glob_match to_lowercase x.mask uh ≡ true))
          ⊎ ((x.kind ≡ XKind.zline) × (glob_match to_lowercase x.mask ip ≡ true)))

  applies_iff :
      (kind : XKind) (x : XLine)
      → (applies to_lowercase kind uh ip now x ≡ true)
        ↔ ((x.kind ≡ kind) × (Lasts now x × (hits to_lowercase kind uh ip x ≡ true)))
  applies_iff kind x = (
    λ h. (
      (kind_eq_iff x.kind kind).0 (and_left _ _ h),
      (
        (is_active-Lasts now x).0 (and_left _ _ (and_right (kind_eq x.kind kind) _ h)),
        and_right _ _ (and_right (kind_eq x.kind kind) _ h),
      ),
    ),
    λ (k, (l, m)). rw ((kind_eq_iff x.kind kind).1 k, (is_active-Lasts now x).1 l, m) refl,
  )

  hit : List XLine → XKind → Bool
  hit xs kind = any (applies to_lowercase kind uh ip now) xs

  hit_iff :
      (xs : List XLine) (kind : XKind)
      → (hit xs kind ≡ true) ↔ (
          (x : XLine) × (Memᴰ x xs
            × ((x.kind ≡ kind) × (Lasts now x × (hits to_lowercase kind uh ip x ≡ true)))))
  unfolding hit
  hit_iff xs kind = (
    λ h.
        let (x, (m, a)) = any_sound (applies to_lowercase kind uh ip now) xs h in
        (x, (m, (applies_iff kind x).0 a)),
    λ (x, (m, a)).
        any_complete (applies to_lowercase kind uh ip now) xs x m ((applies_iff kind x).1 a),
  )

  banned_iff :
      (xs : List XLine)
      → ((hit xs XKind.kline || (hit xs XKind.gline || hit xs XKind.zline)) ≡ true)
        ↔ ((x : XLine) × (Memᴰ x xs × Bans x))
  unfolding Bans
  banned_iff xs = (
    λ h. elim (Bool-cases (hit xs XKind.kline)) [
      | inl k ↦
          let (x, (m, (e, (l, g)))) = (hit_iff xs XKind.kline).0 k in (x, (m, (l, inl (inl e, g))))
      | inr k ↦ elim (Bool-cases (hit xs XKind.gline)) [
        | inl j ↦
            let (x, (m, (e, (l, g)))) = (hit_iff xs XKind.gline).0 j in
            (x, (m, (l, inl (inr e, g))))
        | inr j ↦
            let (x, (m, (e, (l, g)))) = (hit_iff xs XKind.zline).0 (ground (arith, h, k, j)) in
            (x, (m, (l, inr (e, g))))
      ]
    ],
    λ (x, (m, (l, b))). elim b [
      | inl (k, g) ↦ elim k [
        | inl e ↦ let q = (hit_iff xs XKind.kline).1 (x, (m, (e, (l, g)))) in ground (arith, q)
        | inr e ↦ let q = (hit_iff xs XKind.gline).1 (x, (m, (e, (l, g)))) in ground (arith, q)
      ]
      | inr (e, g) ↦ let q = (hit_iff xs XKind.zline).1 (x, (m, (e, (l, g)))) in ground (arith, q)
    ],
  )

  exempt_iff :
      (xs : List XLine)
      → (hit xs XKind.eline ≡ false) ↔ ((e : XLine) → Memᴰ e xs → ¬ Exempts to_lowercase now uh e)
  unfolding Exempts
  exempt_iff xs = (
    λ h e m x. false≢true (sym h ∙ (hit_iff xs XKind.eline).1 (e, (m, x))),
    λ none_does. elim (Bool-cases (hit xs XKind.eline)) [
      | inl h ↦ let (e, (m, x)) = (hit_iff xs XKind.eline).0 h in absurd (none_does e m x)
      | inr h ↦ h
    ],
  )

module _ (to_lowercase : Text → Text) (s : Server) (ident host ip : Text) where
  -- A user is refused exactly if no E-line in force matches its `user@host`, and some K- or
  -- G-line in force matches its `user@host` or some Z-line in force its address.
  pub matched_xline_iff : (is_some (matched_xline to_lowercase s ident host ip) ≡ true) ↔ (
      ((e : XLine) → Memᴰ e s.xlines → ¬ Exempts to_lowercase s.clock (user_host ident host) e)
      × ((x : XLine) × (Memᴰ x s.xlines × Bans to_lowercase s.clock (user_host ident host) ip x)))
  unfolding matched_xline is_exempt first_ban xmatch hit
  matched_xline_iff =
      let uh = user_host ident host in
      let free = exempt_iff to_lowercase s.clock uh ip s.xlines in
      let banned = banned_iff to_lowercase s.clock uh ip s.xlines in
      (
        λ h. (free.0 (ground (arith, h)), banned.0 (ground (arith, h))),
        λ (e, b). let f = free.1 e in let g = banned.1 b in ground (arith, f, g),
      )
