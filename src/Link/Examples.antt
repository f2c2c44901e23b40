-- ===== src/Link/Examples.antt =====
-- A collision at concrete times.
use echoi_rcd.Prelude.{true, ◌≡◌, ◌||◌}
use echoi_rcd.Link.Collision.{collision_decision, collision_decision-swap}

collision_decision-swap_example :
    (collision_decision 20 10 true
      ≡ ((collision_decision 10 20 true).1, (collision_decision 10 20 true).0))
    × (((collision_decision 10 20 true).0 || (collision_decision 10 20 true).1) ≡ true)
collision_decision-swap_example = collision_decision-swap 10 20 true
