-- ===== src/Link/Collision.antt =====
-- Which of two users with one nick changes it, by the times at which they took it.
use echoi_rcd.Prelude.{ℕ, Bool, true, false, not, ◌&&◌, ◌||◌, if◌then◌else◌, ◌==◌, ltb, ◌≡◌, arith}

-- Whether the local user changes its nick, and whether the remote one does.
unfoldable pub collision_decision : ℕ → ℕ → Bool → Bool × Bool
collision_decision local_ts remote_ts same_person =
    if remote_ts == local_ts
    then (true, true)
    else if (same_person && ltb remote_ts local_ts) || (not same_person && ltb local_ts remote_ts)
    then (false, true)
    else (true, false)

-- Both servers of a link come to one decision about a nick that two users have, since each sees
-- what the other sees with the sides swapped, and at least one of the users changes its nick.
pub collision_decision-swap :
    (ts other : ℕ) (same_person : Bool)
    → (collision_decision other ts same_person ≡ (
      (collision_decision ts other same_person).1,
      (collision_decision ts other same_person).0,
    ))
      × (((collision_decision ts other same_person).0
            || (collision_decision ts other same_person).1)
          ≡ true)
unfolding collision_decision
collision_decision-swap ts other same_person = ground arith
