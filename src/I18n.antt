-- ===== src/I18n.antt =====
-- src/i18n.rs: templates with placeholders. The catalog that translates them is data.
pub mod Render
mod Examples
use echoi_rcd.Prelude.{
  ℕ, zero, suc, ◌-◌, Bool, true, false, not, ◌||◌, ◌&&◌, List, [], ◌∷◌, ◌++◌, Option, none, some,
  Text, if◌then◌else◌, ◌==◌, length, get_or, contains_char, starts_with_char, split_once,
  parse_uint, max_u64, map_option,
}

-- `args.get(idx)`
abbrev pub get_elem? : List Text → ℕ → Option Text
get_elem? [] i = none
get_elem? (a ∷ rest) i = let later = get_elem? rest (i - 1) in if i == 0 then some a else later

-- What stands for `{…}` after the brace, and the rest; none if that is no placeholder.
unfoldable pub placeholder : List Text → Text → Option (Text × Text)
placeholder args r = elim (split_once b'}' r) [
  | none ↦ none
  | some (inner, rest) ↦ elim (parse_uint max_u64 inner) [
    | none ↦ none
    | some idx ↦ some (get_or (get_elem? args idx) [], rest)
  ]
]

abbrev pub drop_one : Text → Text
drop_one [] = []
drop_one (c ∷ r) = r

-- The loop over the template. `none` means that the fuel ran out.
unfoldable pub fill : List Text → ℕ → Text → Option Text
fill args f [] = some []
fill args zero (c ∷ r) = none
fill args (suc f) (c ∷ r) =
    let onward = fill args f r in
    let doubled = fill args f (drop_one r) in
    let filled : Option Text = elim (placeholder args r) [
      | none ↦ map_option (λ t. b'{' ∷ t) onward
      | some (text, rest) ↦ map_option (λ t. text ++ t) (fill args f rest)
    ] in
    if (c == b'{' && starts_with_char b'{' r) || (c == b'}' && starts_with_char b'}' r)
    then map_option (λ t. c ∷ t) doubled
    else if c == b'{'
    then filled
    else map_option (λ t. c ∷ t) onward

unfoldable pub render : Text → List Text → Option Text
render template args =
    if not (contains_char b'{' template)
    then some template
    else fill args (length template) template

-- `trf`: a template of the catalog, filled. The default is never taken, see `render_total`.
abbrev pub trf : (Text → Text) → Text → List Text → Text
trf catalog template args = get_or (render (catalog template) args) (catalog template)
