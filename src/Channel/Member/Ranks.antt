-- ===== src/Channel/Member/Ranks.antt =====
-- Ranks: the rank of a member is the highest of the prefixes that it holds, the short cuts of
-- `prefix_char` and `all_prefixes` agree with the sorted list, and what a change of prefix does.
use echoi_rcd.Prelude.{
  ℕ, ◌≤◌, max, Bool, true, false, List, [], ◌∷◌, Text, ◌≡◌, refl, sym, ◌∙◌, ap, arith, inl, inr,
  Option-cases,
}
use echoi_rcd.Channel.Prefixes.{PrefixCfg, def_for_letter}
use echoi_rcd.Channel.Member.{
  Member, builtin_rank, raise_rank, rank, held, builtin_held, custom_held, when_held, sort_ranks,
  put_sorted, prefix_char, all_prefixes, first_sigil, sigils, oprefix, owner, admin, op, halfop,
  voice, rank_oper, rank_owner, rank_admin, rank_op, rank_halfop, rank_voice,
}

-- The highest rank in a list.
abbrev pub top : List (ℕ × Text) → ℕ
top [] = 0
top ((r, s) ∷ l) = max r (top l)

abbrev pub first_rank : List (ℕ × Text) → ℕ
first_rank [] = 0
first_rank ((r, s) ∷ l) = r

-- Falling ranks, all of them at most `n`.
abbrev pub Desc : ℕ → List (ℕ × Text) → Type 0
Desc n [] = Unit
Desc n ((r, s) ∷ l) = (r ≤ n) × Desc r l

Desc-mono : (n k : ℕ) (l : List (ℕ × Text)) → n ≤ k → Desc n l → Desc k l
Desc-mono n k [] h d = tt
Desc-mono n k ((r, s) ∷ l) h d = (omega arith, d.1)

Desc-top : (n : ℕ) (l : List (ℕ × Text)) → Desc n l → top l ≡ first_rank l
Desc-top n [] d = refl
Desc-top n ((r, s) ∷ []) d = omega arith
Desc-top n ((r, s) ∷ (q, t) ∷ l) d = omega (arith, Desc-top r ((q, t) ∷ l) d.1)

module _ (cfg : PrefixCfg) where
  Desc-put_sorted :
      (n r : ℕ) (s : Text) (l : List (ℕ × Text))
      → r ≤ n
      → Desc n l
      → Desc n (put_sorted cfg (r, s) l)
  unfolding put_sorted
  Desc-put_sorted n r s [] h d = omega arith
  Desc-put_sorted n r s ((q, t) ∷ l) h d =
      ground (arith, Desc-put_sorted q r s l, Desc-mono n r ((q, t) ∷ l))

  top-put_sorted : (a : ℕ × Text) (l : List (ℕ × Text)) → top (put_sorted cfg a l) ≡ max a.0 (top l)
  unfolding put_sorted
  top-put_sorted (r, s) [] = refl
  top-put_sorted (r, s) ((q, t) ∷ l) = ground (arith, top-put_sorted (r, s) l)

  top-sort_ranks : (l : List (ℕ × Text)) → top (sort_ranks cfg l) ≡ top l
  unfolding sort_ranks
  top-sort_ranks [] = refl
  top-sort_ranks ((r, s) ∷ l) =
      top-put_sorted (r, s) (sort_ranks cfg l) ∙ ap (max r) (top-sort_ranks l)

  sort_ranks-Desc : (l : List (ℕ × Text)) → Desc (top l) (sort_ranks cfg l)
  unfolding sort_ranks
  sort_ranks-Desc [] = tt
  sort_ranks-Desc ((r, s) ∷ l) =
      Desc-put_sorted (max r (top l)) r s (sort_ranks cfg l) (omega arith)
        (Desc-mono (top l) (max r (top l)) (sort_ranks cfg l) (omega arith) (sort_ranks-Desc l))

  put_sorted_front :
      (r : ℕ) (s : Text) (l : List (ℕ × Text)) → Desc r l → put_sorted cfg (r, s) l ≡ (r, s) ∷ l
  unfolding put_sorted
  put_sorted_front r s [] d = refl
  put_sorted_front r s ((q, t) ∷ l) d = ground arith

  -- A list that falls already is left as it is.
  sort_ranks_id : (n : ℕ) (l : List (ℕ × Text)) → Desc n l → sort_ranks cfg l ≡ l
  unfolding sort_ranks
  sort_ranks_id n [] d = refl
  sort_ranks_id n ((r, s) ∷ l) d = rw (sort_ranks_id r l d.1) (put_sorted_front r s l d.1)

  Desc-when_held :
      (on : Bool) (n r : ℕ) (s : Text) (l : List (ℕ × Text))
      → r ≤ n
      → Desc r l
      → Desc n (when_held cfg on (r, s) l)
  Desc-when_held true n r s l h d = (h, d)
  Desc-when_held false n r s l h d = Desc-mono r n l h d

  builtin_held-Desc : (m : Member) → Desc 60 (builtin_held cfg m [])
  unfolding builtin_held
  builtin_held-Desc m = Desc-when_held (oprefix m) 60 rank_oper cfg.oper.sigil _ (omega arith) (
      Desc-when_held (owner m) 60 rank_owner cfg.founder.sigil _ (omega arith) (
        Desc-when_held (admin m) 50 rank_admin cfg.admin.sigil _ (omega arith) (
          Desc-when_held (op m) 40 rank_op cfg.op.sigil _ (omega arith) (
            Desc-when_held (halfop m) 30 rank_halfop cfg.halfop.sigil _ (omega arith)
              (Desc-when_held (voice m) 20 rank_voice cfg.voice.sigil [] (omega arith) tt)))))

  pub top-builtin_held :
      (m : Member) (l : List (ℕ × Text)) → top (builtin_held cfg m l) ≡ max (builtin_rank m) (top l)
  unfolding builtin_held builtin_rank
  top-builtin_held m l = ground arith

  pub raise_rank-top :
      (r : ℕ) (cs : List ℕ) → raise_rank cfg r cs ≡ max r (top (custom_held cfg cs))
  unfolding raise_rank custom_held
  raise_rank-top r [] = omega arith
  raise_rank-top r (c ∷ cs) = elim (Option-cases (def_for_letter cfg c)) [
    | inl e ↦ rw (e, raise_rank, custom_held) (raise_rank-top r cs)
    | inr (d, e) ↦ rw (e, raise_rank, custom_held) (omega (arith, raise_rank-top (max r d.rank) cs))
  ]

  pub rank-top :
      (m : Member) → rank cfg m ≡ top (builtin_held cfg m (custom_held cfg m.custom_prefixes))
  unfolding rank
  rank-top m =
      raise_rank-top (builtin_rank m) m.custom_prefixes
      ∙ sym (top-builtin_held m (custom_held cfg m.custom_prefixes))

  -- `held` lists ranks that fall, and the first of them is the rank of the member.
  pub held-first :
      (m : Member) → Desc (rank cfg m) (held cfg m) × (rank cfg m ≡ first_rank (held cfg m))
  unfolding held
  held-first m =
      let l = builtin_held cfg m (custom_held cfg m.custom_prefixes) in
      let falls : Desc (rank cfg m) (sort_ranks cfg l) = rw (rank-top m) (sort_ranks-Desc l) in
      (falls, rank-top m ∙ sym (top-sort_ranks l) ∙ Desc-top (rank cfg m) (sort_ranks cfg l) falls)

  held_builtin : (m : Member) → m.custom_prefixes ≡ [] → held cfg m ≡ builtin_held cfg m []
  unfolding held custom_held builtin_held
  held_builtin m h = rw h (sort_ranks_id 60 (builtin_held cfg m []) (builtin_held-Desc m))

  -- The sigil that the short cut for members without custom prefixes shows is the first of the
  -- sorted list, as it is for all others.
  pub prefix_char_lem : (m : Member) → prefix_char cfg m ≡ first_sigil cfg (held cfg m)
  unfolding prefix_char builtin_held
  prefix_char_lem m = by_custom m.custom_prefixes refl
    where
      by_custom :
          (cs : List ℕ) → m.custom_prefixes ≡ cs → prefix_char cfg m ≡ first_sigil cfg (held cfg m)
      by_custom [] h = rw (held_builtin m h) (ground arith)
      by_custom (c ∷ cs) h = rw h

  pub all_prefixes_lem : (m : Member) → all_prefixes cfg m ≡ sigils cfg (held cfg m)
  unfolding all_prefixes builtin_held
  all_prefixes_lem m = by_custom m.custom_prefixes refl
    where
      by_custom :
          (cs : List ℕ) → m.custom_prefixes ≡ cs → all_prefixes cfg m ≡ sigils cfg (held cfg m)
      by_custom [] h = rw (held_builtin m h) (ground arith)
      by_custom (c ∷ cs) h = rw h
