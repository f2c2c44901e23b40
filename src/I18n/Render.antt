-- ===== src/I18n/Render.antt =====
-- What filling a template gives.
use echoi_rcd.Prelude.{
  ℕ, zero, suc, ◌≤◌, true, false, ◌||◌, ◌&&◌, List, [], ◌∷◌, ◌++◌, some, Text, if◌then◌else◌, ◌==◌,
  ◌≡◌, refl, arith, length, get_or, contains_char, starts_with_char, split_once, split_once-length,
  split_once-append, parse_uint, max_u64, Option-cases, Bool-cases, inl, inr, show_nat, IsDigit,
  All, Lacks, show_nat-IsDigit, parse_uint-show_nat, length-append,
}
use echoi_rcd.I18n.{get_elem?, placeholder, drop_one, fill, render}

-- Each brace twice, as templates write it.
abbrev pub escape : Text → Text
escape [] = []
escape (c ∷ s) = if c == b'{' || c == b'}' then c ∷ c ∷ escape s else c ∷ escape s

digits-Lacks : (s : Text) → All IsDigit s → Lacks b'}' s
digits-Lacks [] h = tt
digits-Lacks (c ∷ s) h = ground (arith, digits-Lacks s h.1)

placeholder-length :
    (args : List Text) (r text rest : Text)
    → placeholder args r ≡ some (text, rest)
    → length rest ≤ length r
unfolding placeholder
placeholder-length args r text rest e = elim (Option-cases (split_once b'}' r)) [
  | inl h ↦ ground arith
  | inr ((inner, after), h) ↦ elim (Option-cases (parse_uint max_u64 inner)) [
    | inl k ↦ ground arith
    | inr (idx, k) ↦ ground (arith, split_once-length b'}' r {a = inner} {b = after} h)
  ]
]

length-drop_one : (r : Text) → length (drop_one r) ≤ length r
length-drop_one [] = omega arith
length-drop_one (c ∷ r) = omega arith

-- With as much fuel as the template has characters, the loop ends.
fill_total :
    (args : List Text) (f : ℕ) (s : Text) → length s ≤ f → (t : Text) × (fill args f s ≡ some t)
unfolding fill
fill_total args f [] h = ([], refl)
fill_total args zero (c ∷ r) h = absurd (omega arith)
fill_total args (suc f) (c ∷ r) h =
    let onward = fill_total args f r (omega arith) in
    let doubled = fill_total args f (drop_one r) (ground (arith, length-drop_one r)) in
    elim (Bool-cases
      ((c == b'{' && starts_with_char b'{' r) || (c == b'}' && starts_with_char b'}' r))) [
        | inl d ↦ (c ∷ doubled.0, rw (d, doubled.1) refl)
        | inr d ↦ elim (Bool-cases (c == b'{')) [
          | inr b ↦ (c ∷ onward.0, rw (d, b, onward.1) refl)
          | inl b ↦ elim (Option-cases (placeholder args r)) [
            | inl k ↦ (b'{' ∷ onward.0, rw (d, b, k, onward.1) refl)
            | inr ((text, rest), k) ↦
                let filled =
                  fill_total args f rest (omega (arith, placeholder-length args r text rest k)) in
                (text ++ filled.0, rw (d, b, k, filled.1) refl)
          ]
        ]
      ]

-- Filling a template gives a text for every template and all arguments.
pub render_total : (t : Text) (args : List Text) → (u : Text) × (render t args ≡ some u)
unfolding render
render_total t args = elim (Bool-cases (contains_char b'{' t)) [
  | inl h ↦ rw h (fill_total args (length t) t (omega arith))
  | inr h ↦ (t, rw h refl)
]

fill-escape :
    (args : List Text) (f : ℕ) (s : Text) → length (escape s) ≤ f → fill args f (escape s) ≡ some s
unfolding fill
fill-escape args f [] h = refl
fill-escape args zero (c ∷ s) h = ground arith
fill-escape args (suc f) (c ∷ s) h = ground (arith, fill-escape args f s)

contains_char-escape : (s : Text) → contains_char b'{' (escape s) ≡ contains_char b'{' s
contains_char-escape [] = refl
contains_char-escape (c ∷ s) = ground (arith, contains_char-escape s)

-- A text with a brace that opens, each of its braces written twice, is shown as it is.
pub render-escape :
    (s : Text) (args : List Text) → contains_char b'{' s ≡ true → render (escape s) args ≡ some s
unfolding render
render-escape s args h =
    rw (contains_char-escape s, h) (fill-escape args (length (escape s)) s (omega arith))

-- A text without braces is copied.
fill_plain :
    (args : List Text) (f : ℕ) (p r u : Text)
    → Lacks b'{' p
    → Lacks b'}' p
    → ((g : ℕ) → length r ≤ g → fill args g r ≡ some u)
    → length (p ++ r) ≤ f
    → fill args f (p ++ r) ≡ some (p ++ u)
unfolding fill
fill_plain args f [] r u o c tail h = tail f h
fill_plain args zero (d ∷ p) r u o c tail h = absurd (omega arith)
fill_plain args (suc f) (d ∷ p) r u o c tail h =
    let rest = fill_plain args f p r u o.1 c.1 tail (omega arith) in ground (arith, rest, o.0, c.0)

placeholder-show_nat :
    (args : List Text) (i : ℕ) (q : Text)
    → i ≤ max_u64
    → placeholder args (show_nat i ++ b'}' ∷ q) ≡ some (get_or (get_elem? args i) [], q)
unfolding placeholder
placeholder-show_nat args i q h = rw (
  placeholder,
  split_once-append b'}' (show_nat i) q (digits-Lacks (show_nat i) (show_nat-IsDigit i)),
  parse_uint-show_nat max_u64 i h,
)

starts_with_digit : (s q : Text) → All IsDigit s → starts_with_char b'{' (s ++ b'}' ∷ q) ≡ false
starts_with_digit [] q h = refl
starts_with_digit (c ∷ s) q h = ground arith

fill_placeholder :
    (args : List Text) (f i : ℕ) (q u : Text)
    → i ≤ max_u64
    → ((g : ℕ) → length q ≤ g → fill args g q ≡ some u)
    → length (b'{' ∷ (show_nat i ++ b'}' ∷ q)) ≤ f
    → fill args f (b'{' ∷ (show_nat i ++ b'}' ∷ q)) ≡ some (get_or (get_elem? args i) [] ++ u)
unfolding fill
fill_placeholder args zero i q u h tail le = absurd (omega arith)
fill_placeholder args (suc f) i q u h tail le =
    let short : length q ≤ f = omega (arith, length-append (show_nat i) (b'}' ∷ q)) in
    rw
      (
        starts_with_digit (show_nat i) q (show_nat-IsDigit i),
        placeholder-show_nat args i q h,
        tail f short,
      )
      refl

fill_copy :
    (args : List Text) (f : ℕ) (q : Text)
    → Lacks b'{' q
    → Lacks b'}' q
    → length q ≤ f
    → fill args f q ≡ some q
unfolding fill
fill_copy args f [] o c h = refl
fill_copy args zero (d ∷ q) o c h = absurd (omega arith)
fill_copy args (suc f) (d ∷ q) o c h =
    let rest = fill_copy args f q o.1 c.1 (omega arith) in ground (arith, rest, o.0, c.0)

contains_char-middle : (p r : Text) → contains_char b'{' (p ++ b'{' ∷ r) ≡ true
contains_char-middle [] r = refl
contains_char-middle (c ∷ p) r = ground (arith, contains_char-middle p r)

-- A placeholder of 64 bits between texts without braces is filled by its argument, and by nothing
-- if there are too few arguments.
pub render-placeholder :
    (p q : Text) (i : ℕ) (args : List Text)
    → Lacks b'{' p
    → Lacks b'}' p
    → Lacks b'{' q
    → Lacks b'}' q
    → i ≤ max_u64
    → render (p ++ b'{' ∷ (show_nat i ++ b'}' ∷ q)) args
      ≡ some (p ++ (get_or (get_elem? args i) [] ++ q))
unfolding render
render-placeholder p q i args po pc qo qc h = rw (contains_char-middle p (show_nat i ++ b'}' ∷ q)) (
    fill_plain args _ p _ _ po pc
      (λ g le. fill_placeholder args g i q q h (λ k short. fill_copy args k q qo qc short) le)
      (omega arith))
