-- ===== src/Command/Steps.antt =====
-- The members and the lists of the users after the commands.
use echoi_rcd.Prelude.{
  ℕ, Bool, true, false, not, ◌&&◌, List, [], ◌∷◌, Option, Text, if◌then◌else◌, ltb, refl, ◌∙◌,
  to_lower, get, get_or, contains, modify, text_key, nat_key, Option-cases, Bool-cases, inl, inr,
}
use echoi_rcd.Channel.Prefixes.{PrefixCfg}
use echoi_rcd.Channel.Member.{rank_op}
use echoi_rcd.Channel.Record.{Channel, Topic}
use echoi_rcd.Server.State.{Server, Effect, emit}
use echoi_rcd.Server.Left.{member_of-modify}
use echoi_rcd.Mode.Members.{channel_rank}
use echoi_rcd.Membership.{part}
use echoi_rcd.Membership.Joined.{IsJoined, drop_member-IsJoined}
use echoi_rcd.Membership.Kept.{emit-IsJoined, part-IsJoined}
use echoi_rcd.Entry.Arrived.{join-IsJoined}
use echoi_rcd.Command.{
  targets, join_each, handle_join, part_each, handle_part, handle_remove, show_topic, handle_topic,
}
use echoi_rcd.Command.Ranked.{handle_remove-cases}

module _ (to_lowercase : Text → Text) (byte_length : Text → ℕ) (catalog : Text → Text)
    (cfg : PrefixCfg) (elsewhere : ℕ → Server → ℕ → Text → Bool)
    (max_chans : Server → ℕ → Option ℕ) where
  join_each-IsJoined :
      (uid : ℕ) (names keys : List Text) (s : Server)
      → IsJoined s
      → IsJoined
          (join_each to_lowercase byte_length catalog cfg elsewhere max_chans uid names keys s)
  unfolding join_each
  join_each-IsJoined uid [] keys s ok = ok
  join_each-IsJoined uid (n ∷ names) keys s ok =
      join_each-IsJoined uid names _ _
        (join-IsJoined to_lowercase byte_length catalog cfg elsewhere max_chans uid n _ s ok)

  pub handle_join-IsJoined :
      (uid : ℕ) (names : Text) (keys : Option Text) (s : Server)
      → IsJoined s
      → IsJoined
          (handle_join to_lowercase byte_length catalog cfg elsewhere max_chans uid names keys s).1
  unfolding handle_join
  handle_join-IsJoined uid names keys s ok = join_each-IsJoined uid (targets names) _ s ok

parted_told :
    (b : Bool) (e : Effect) (s : Server) → IsJoined s → IsJoined (if b then s else emit e s)
parted_told true e s ok = ok
parted_told false e s ok = emit-IsJoined e s ok

part_each-IsJoined :
    (cfg : PrefixCfg) (uid : ℕ) (list : List Text) (reason : Text) (s : Server)
    → IsJoined s
    → IsJoined (part_each cfg uid list reason s)
unfolding part_each
part_each-IsJoined cfg uid [] reason s ok = ok
part_each-IsJoined cfg uid (t ∷ list) reason s ok =
    part_each-IsJoined cfg uid list reason _
      (parted_told (part cfg uid t reason s).0 _ _ (part-IsJoined cfg uid t reason s ok))

pub handle_part-IsJoined :
    (cfg : PrefixCfg) (uid : ℕ) (list : Text) (reason : Option Text) (s : Server)
    → IsJoined s
    → IsJoined (handle_part cfg uid list reason s).1
unfolding handle_part
handle_part-IsJoined cfg uid list reason s ok =
    part_each-IsJoined cfg uid (targets list) (get_or reason []) s ok

pub handle_remove-IsJoined :
    (cfg : PrefixCfg) (uid : ℕ) (chan victim : Text) (reason : Option Text) (s : Server)
    → IsJoined s
    → IsJoined (handle_remove cfg uid chan victim reason s).1
handle_remove-IsJoined cfg uid chan victim reason s ok =
    handle_remove-cases cfg uid chan victim reason s (λ r. IsJoined r.1)
      (λ num text. emit-IsJoined _ s ok) ok
      (λ tuid by target f r l.
        drop_member-IsJoined tuid (to_lower chan) _ (emit-IsJoined _ _ (emit-IsJoined _ s ok)))

show_topic-IsJoined :
    (cfg : PrefixCfg) (uid : ℕ) (target : Text) (ch : Channel) (s : Server)
    → IsJoined s
    → IsJoined (show_topic cfg uid target ch s)
show_topic-IsJoined cfg uid target ch s ok = elim (Option-cases ch.topic) [
  | inl h ↦ simp (show_topic, h) (emit-IsJoined _ s ok)
  | inr (t, h) ↦ simp (show_topic, h) (emit-IsJoined _ _ (emit-IsJoined _ s ok))
]

put_topic-IsJoined :
    (key : Text) (topic : Option Topic) (s : Server)
    → IsJoined s
    → IsJoined (record s { channels = modify key (λ ch. record ch { topic = topic }) s.channels })
unfolding IsJoined
put_topic-IsJoined key topic s ok k v =
    member_of-modify k v key (λ ch. record ch { topic = topic }) s.channels (λ ch. refl) ∙ ok k v

pub handle_topic-IsJoined :
    (cfg : PrefixCfg) (uid : ℕ) (target : Text) (text : Option Text) (s : Server)
    → IsJoined s
    → IsJoined (handle_topic cfg uid target text s).1
unfolding handle_topic
handle_topic-IsJoined cfg uid target text s ok =
    let key = to_lower target in
    elim (Option-cases (get key s.channels)) [
      | inl h ↦ simp (handle_topic, h) (emit-IsJoined _ s ok)
      | inr (ch, h) ↦ elim (Option-cases text) [
        | inl t ↦ simp (handle_topic, h, t) (show_topic-IsJoined cfg uid target ch s ok)
        | inr (x, t) ↦ elim (Option-cases (get uid s.users)) [
          | inl e ↦ simp (handle_topic, h, t, e) (emit-IsJoined _ s ok)
          | inr (u, e) ↦ elim (Bool-cases (not (contains key u.channels))) [
            | inl c ↦ simp (handle_topic, h, t, e, c) (emit-IsJoined _ s ok)
            | inr c ↦
                elim (Bool-cases (ch.modes.topic_ops && ltb (channel_rank cfg uid key s) rank_op)) [
                  | inl o ↦ simp (handle_topic, h, t, e, c, o) (emit-IsJoined _ s ok)
                  | inr o ↦
                      simp (handle_topic, h, t, e, c, o)
                        (emit-IsJoined _ _
                          (emit-IsJoined _ _ (emit-IsJoined _ _ (put_topic-IsJoined key _ s ok))))
                ]
          ]
        ]
      ]
    ]
