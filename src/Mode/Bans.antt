-- ===== src/Mode/Bans.antt =====
-- The list modes as sets of masks up to case: any sequence of changes is replayed on a predicate.
use echoi_rcd.Prelude.{
  ℕ, Bool, true, false, not, ◌||◌, ◌&&◌, List, [], ◌∷◌, ◌++◌, none, some, Text, to_lower, get,
  modify, get-modify, eq_ignore_case, text_eq_iff, text_eq_refl, is_some, length, leb, codes, ◌≡◌,
  refl, sym, ◌∙◌, ap, fun_ext, arith, Bool-cases, Option-cases, inl, inr, text_key,
}
use echoi_rcd.Channel.Prefixes.{PrefixCfg}
use echoi_rcd.Channel.Record.{Channel, Ban}
use echoi_rcd.Server.State.{Server, conf_num}
use echoi_rcd.Mode.ListModes.{
  ListKind, list, list_mut, has_mask, without_mask, new_entry, stored_mask, list_add, list_remove,
  list_apply, autoop_barred, classban_barred,
}

pub list-list_mut :
    (kind : ListKind) (f : List Ban → List Ban) (c : Channel)
    → list kind (list_mut kind f c) ≡ f (list kind c)
list-list_mut ListKind.ban f c = refl
list-list_mut ListKind.except f c = refl
list-list_mut ListKind.invex f c = refl
list-list_mut ListKind.filter f c = refl
list-list_mut ListKind.exempt_chan_ops f c = refl
list-list_mut ListKind.auto_op f c = refl

module _ (k m : Text) where
  has_mask-push :
      (bs : List Ban) (e : Ban)
      → has_mask m (bs ++ e ∷ []) ≡ (eq_ignore_case e.mask m || has_mask m bs)
  has_mask-push [] e = refl
  has_mask-push (b ∷ bs) e = ground (arith, has_mask-push bs e)

  same_case : eq_ignore_case k m ≡ true → to_lower k ≡ to_lower m
  same_case h = (text_eq_iff (to_lower k) (to_lower m)).0 h

  eq_congr : (b : Text) → eq_ignore_case k m ≡ true → eq_ignore_case b m ≡ eq_ignore_case b k
  eq_congr b h = rw (same_case h) refl

  has_mask-congr : (bs : List Ban) → eq_ignore_case k m ≡ true → has_mask m bs ≡ has_mask k bs
  has_mask-congr [] h = refl
  has_mask-congr (b ∷ bs) h = ground (arith, has_mask-congr bs h, eq_congr b.mask h)

  apart : (b : Text) → eq_ignore_case b k ≡ true → eq_ignore_case b m ≡ eq_ignore_case k m
  apart b h = rw ((text_eq_iff (to_lower b) (to_lower k)).0 h) refl

  has_mask-without_mask :
      (bs : List Ban) → has_mask m (without_mask k bs) ≡ (not (eq_ignore_case k m) && has_mask m bs)
  has_mask-without_mask [] = ground arith
  has_mask-without_mask (b ∷ bs) =
      ground (arith, has_mask-without_mask bs, eq_congr b.mask, apart b.mask)

-- Whether a list of a channel has a mask.
abbrev pub listed : ListKind → Text → Server → Text → Bool
listed kind key s m = elim (get key s.channels) [ none ↦ false | some c ↦ has_mask m (list kind c) ]

-- The specification: a predicate on masks, and what a change does to it.
abbrev pub change : ListKind → Bool × Text → (Text → Bool) → Text → Bool
change kind (true, mask) set m = eq_ignore_case (stored_mask kind mask) m || set m
change kind (false, mask) set m = not (eq_ignore_case (stored_mask kind mask) m) && set m

-- The server has the channel, and acts with its own authority.
abbrev pub Ready : Text → Server → Type 0
Ready key s = (s.mode_sudo ≡ true) × (is_some (get key s.channels) ≡ true)

-- After a step from `s` the list is what the specification makes of it.
Stepped : ListKind → Text → (Text → Bool) → Server → Type 0
Stepped kind key set t = Ready key t × ((m : Text) → listed kind key t m ≡ set m)

module _ (kind : ListKind) (key : Text) (c : Channel) (s : Server)
    (found : get key s.channels ≡ some c) (sudo : s.mode_sudo ≡ true) where
  get-listed :
      (f : List Ban → List Ban)
      → get key (modify key (list_mut kind f) s.channels) ≡ some (list_mut kind f c)
  get-listed f = rw (get-modify key key (list_mut kind f) s.channels, text_eq_refl key, found) refl

  listed_now : (m : Text) → listed kind key s m ≡ has_mask m (list kind c)
  listed_now m = rw (listed, found) refl

  listed-modify :
      (f : List Ban → List Ban) (set : Text → Bool)
      → ((m : Text) → has_mask m (f (list kind c)) ≡ set m)
      → Stepped kind key set (record s { channels = modify key (list_mut kind f) s.channels })
  unfolding Stepped
  listed-modify f set same = (
    (sudo, rw (get-listed f) refl),
    λ m. rw (listed, get-listed f, list-list_mut kind f c) (same m),
  )

  never_full : (top : ℕ) → (not s.mode_sudo && leb top (length (list kind c))) ≡ false
  never_full top = ground arith

  -- A mask that is there already changes nothing.
  again :
      (mask m : Text)
      → has_mask mask (list kind c) ≡ true
      → listed kind key s m ≡ (eq_ignore_case mask m || listed kind key s m)
  again mask m h = rw (listed_now m) (ground (arith, has_mask-congr mask m (list kind c)))

  list_add-Stepped :
      (chan : Text) (uid : ℕ) (mask : Text)
      → Stepped kind key
          (λ m. eq_ignore_case mask m || listed kind key s m)
          (list_add kind chan key uid mask s).1
  unfolding list_add Stepped
  list_add-Stepped chan uid mask = elim (Bool-cases (has_mask mask (list kind c))) [
    | inl h ↦ rw (list_add, found, h) ((sudo, ap is_some found), λ m. again mask m h)
    | inr h ↦
        rw (list_add, found, h, never_full (conf_num s (codes "maxbans") 100))
          (listed-modify (λ bs. bs ++ new_entry mask uid s ∷ [])
            (λ m. eq_ignore_case mask m || listed kind key s m)
            (λ m.
              has_mask-push mask m (list kind c) (new_entry mask uid s)
              ∙ ap (λ b. eq_ignore_case mask m || b) (sym (listed_now m))))
  ]

  list_remove-Stepped :
      (mask : Text)
      → Stepped kind key
          (λ m. not (eq_ignore_case mask m) && listed kind key s m)
          (list_remove kind key mask s).1
  unfolding list_remove Stepped
  list_remove-Stepped mask =
      rw (list_remove, found)
        (listed-modify (without_mask mask) (λ m. not (eq_ignore_case mask m) && listed kind key s m)
          (λ m.
            has_mask-without_mask mask m (list kind c)
            ∙ ap (λ b. not (eq_ignore_case mask m) && b) (sym (listed_now m))))

module _ (cfg : PrefixCfg) (catalog : Text → Text) (ch : ℕ) (kind : ListKind) (chan key : Text)
    (uid : ℕ) where
  -- One change after the other.
  abbrev pub run_changes : List (Bool × Text) → Server → Server
  run_changes [] s = s
  run_changes ((adding, mask) ∷ rest) s =
      run_changes rest (list_apply cfg catalog ch kind chan key uid adding (some mask) s).1

  abbrev pub replay : List (Bool × Text) → (Text → Bool) → Text → Bool
  replay [] set = set
  replay (op ∷ rest) set = replay rest (change kind op set)

  not_barred :
      (adding : Bool) (mask : Text) (s : Server)
      → s.mode_sudo ≡ true
      → (autoop_barred cfg catalog kind key uid adding mask s ≡ false)
        × (classban_barred cfg catalog kind uid adding mask s ≡ false)
  not_barred adding mask s sudo = ground arith

  list_apply-Stepped :
      (op : Bool × Text) (s : Server) (c : Channel)
      → get key s.channels ≡ some c
      → s.mode_sudo ≡ true
      → Stepped kind key
          (change kind op (listed kind key s))
          (list_apply cfg catalog ch kind chan key uid op.0 (some op.1) s).1
  unfolding list_apply
  list_apply-Stepped (true, mask) s c found sudo =
      let free = not_barred true mask s sudo in
      rw (list_apply, free.0, free.1)
        (list_add-Stepped kind key c s found sudo chan uid (stored_mask kind mask))
  list_apply-Stepped (false, mask) s c found sudo =
      let free = not_barred false mask s sudo in
      rw (list_apply, free.0, free.1)
        (list_remove-Stepped kind key c s found sudo (stored_mask kind mask))

  listed-run :
      (ops : List (Bool × Text)) (s : Server) (set : Text → Bool)
      → Ready key s
      → ((m : Text) → listed kind key s m ≡ set m)
      → (m : Text) → listed kind key (run_changes ops s) m ≡ replay ops set m
  unfolding Stepped
  listed-run [] s set ready same m = same m
  listed-run (op ∷ ops) s set ready same m = elim (Option-cases (get key s.channels)) [
    | inl h ↦ let bad : false ≡ true = rw (h) at ready.1 in cc
    | inr (c, found) ↦
        let next = list_apply-Stepped op s c found ready.0 in
        let t = (list_apply cfg catalog ch kind chan key uid op.0 (some op.1) s).1 in
        listed-run ops t (change kind op set) next.0
          (λ k. next.1 k ∙ ap (λ f. change kind op f k) (fun_ext same)) m
  ]

  -- On a server that acts with its own authority, and that has the channel, any sequence of
  -- changes of a list mode leaves a list that has just the masks, up to case, of the predicate to
  -- which the same changes are applied.
  pub run_changes-listed :
      (ops : List (Bool × Text)) (s : Server)
      → Ready key s
      → (m : Text) → listed kind key (run_changes ops s) m ≡ replay ops (listed kind key s) m
  run_changes-listed ops s ready = listed-run ops s (listed kind key s) ready (λ m. refl)
