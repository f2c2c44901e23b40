-- ===== src/I18n/Examples.antt =====
-- Templates at concrete arguments.
use echoi_rcd.Prelude.{[], ◌∷◌, ◌++◌, some, codes, ◌≡◌, arith, get_or, show_nat}
use echoi_rcd.I18n.{get_elem?, render}
use echoi_rcd.I18n.Render.{render-placeholder}

render-placeholder_example :
    render (codes "by " ++ b'{' ∷ (show_nat 1 ++ b'}' ∷ codes ".")) (codes "a" ∷ codes "b" ∷ [])
    ≡ some (codes "by " ++ (get_or (get_elem? (codes "a" ∷ codes "b" ∷ []) 1) [] ++ codes "."))
render-placeholder_example =
    render-placeholder (codes "by ") (codes ".") 1 (codes "a" ∷ codes "b" ∷ []) (ground arith)
      (ground arith) (ground arith) (ground arith) (omega arith)
