-- ===== src/Entry/Asked.antt =====
-- What the doors of a channel ask, whatever the order.
use echoi_rcd.Prelude.{
  ℕ, Bool, true, false, not, ◌&&◌, ◌||◌, Option, none, some, Text, if◌then◌else◌, ◌≡◌, refl, arith,
  Bool-cases, inl, inr, nat_key,
}
use echoi_rcd.Channel.Prefixes.{PrefixCfg}
use echoi_rcd.Channel.Record.{Channel}
use echoi_rcd.Server.State.{Server}
use echoi_rcd.Entry.Bans.{redirect_target}
use echoi_rcd.Entry.Denied.{
  Entry, Wish, redirected, ask, demand, entry, entered_by, redirect_to, may_redirect,
}

-- Who gets through some doors: `bad` is what an override passes over, `hard` what it does not.
abbrev Opens : Bool → (Bool → Entry) → Bool → Bool → Type 0
Opens can doors bad hard =
    (o : Bool) → entered_by (doors o) ≡ (if hard || (not can && bad) then none else some (o || bad))

-- Doors that send on only those that were not sent already.
abbrev pub once : Wish → Entry → Bool
once w (redirected t text) = not w.in_redirect
once w other = true

ask-once :
    (w : Wish) (can u : Bool) (answer : Entry) (rest : Bool → Entry)
    → once w answer ≡ true
    → ((o : Bool) → once w (rest o) ≡ true)
    → (o : Bool) → once w (ask can u answer rest o) ≡ true
unfolding ask
ask-once w true true answer rest e h o = h true
ask-once w true false answer rest e h o = h o
ask-once w false true answer rest e h o = e
ask-once w false false answer rest e h o = h o

demand-once :
    (w : Wish) (u : Bool) (answer : Entry) (rest : Bool → Entry)
    → once w answer ≡ true
    → ((o : Bool) → once w (rest o) ≡ true)
    → (o : Bool) → once w (demand u answer rest o) ≡ true
unfolding demand
demand-once w true answer rest e h o = e
demand-once w false answer rest e h o = h o

redirect-once :
    (w : Wish) (key : Text) (target : Option Text) (text : Text) (answer : Entry) (s : Server)
    → once w answer ≡ true
    → once w (redirect_to w key target text answer s) ≡ true
redirect-once w key none text answer s e = e
redirect-once w key (some t) text answer s e = elim (Bool-cases (may_redirect w key t s)) [
  | inl h ↦ simp (h) (ground (arith, h))
  | inr h ↦ simp (h) e
]

module _ (to_lowercase : Text → Text) (cfg : PrefixCfg) (elsewhere : ℕ → Server → ℕ → Text → Bool)
    (w : Wish) (key : Text) (ch : Channel) (s : Server) where
  pub entry-once : once w (entry to_lowercase cfg elsewhere w key ch s) ≡ true
  unfolding entry
  entry-once =
      ask-once w _ _ _ _ refl
        (ask-once w _ _ _ _
          (redirect-once w key (redirect_target to_lowercase s w.uid key) _ _ s refl)
          (ask-once w _ _ _ _ refl (
            ask-once w _ _ _ _ refl (
              ask-once w _ _ _ _ refl (
                demand-once w _ _ _ refl (
                  ask-once w _ _ _ _ refl (
                    ask-once w _ _ _ _ refl (
                      ask-once w _ _ _ _ (redirect-once w key ch.modes.redirect _ _ s refl)
                        (λ o. refl)))))))))
        false
