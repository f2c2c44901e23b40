-- ===== src/Message/Params.antt =====
-- The parameters of a line: the loop of `parse` ends, and undoes the loop of `to_wire`.
use mathlib.Core.List.{cons-ne-nil}
use echoi_rcd.Prelude.{
  ℕ, zero, suc, ◌≡◌, ◌≢◌, refl, sym, ap, ◌∙◌, List, [], ◌∷◌, ◌++◌, append_assoc, append-nil, some,
  Text, if◌then◌else◌, ◌==◌, ◌≤◌, ◌<◌, arith, inl, inr, Option-cases, Bool-cases, length, Lacks,
  StartsOther, split_once, trim_start, length-trim_start, trim_start_id, trim_start-StartsOther,
  split_once-length, split_once_sound, split_once-append, split_once-none, contains_char-Lacks,
  length-append,
}
use echoi_rcd.Message.{write_params, read_params, needs_colon}

-- What a parameter other than the last one has to be.
abbrev pub IsMiddle : Text → Type 0
IsMiddle p = (p ≢ []) × Lacks b' ' p × StartsOther b':' p

abbrev pub AreParams : List Text → Type 0
AreParams [] = Unit
AreParams (p ∷ []) = Unit
AreParams (p ∷ q ∷ ps) = IsMiddle p × AreParams (q ∷ ps)

pub read_params_total :
    (f : ℕ) (r : Text) (acc : List Text)
    → length r ≤ f
    → (ps : List Text) × (read_params f r acc ≡ some ps)
unfolding read_params
read_params_total f [] acc h = (acc, refl)
read_params_total zero (c ∷ r) acc h = absurd (omega arith)
read_params_total (suc f) (c ∷ r) acc h = elim (Bool-cases (c == b':')) [
  | inl e ↦ (acc ++ r ∷ [], rw (e, read_params))
  | inr e ↦ elim (Option-cases (split_once b' ' (c ∷ r))) [
    | inl n ↦ (acc ++ (c ∷ r) ∷ [], rw (e, n, read_params))
    | inr ((p, t), n) ↦
        rw (e, n, read_params)
          (read_params_total f (trim_start b' ' t) (acc ++ p ∷ [])
            (omega (arith, length-trim_start b' ' t, split_once-length b' ' (c ∷ r) n)))
  ]
]

-- The text of the parameters without the space before the first one.
unfoldable pub wire_rest : List Text → Text
wire_rest [] = []
wire_rest (p ∷ []) = if needs_colon p then b':' ∷ p else p
wire_rest (p ∷ q ∷ ps) = p ++ b' ' ∷ wire_rest (q ∷ ps)

abbrev pub spaced : List Text → Text
spaced [] = []
spaced (p ∷ ps) = b' ' ∷ wire_rest (p ∷ ps)

pub write_params-spaced : (ps : List Text) (out : Text) → write_params ps out ≡ out ++ spaced ps
unfolding write_params wire_rest
write_params-spaced [] out = sym (append-nil out)
write_params-spaced (p ∷ []) out = ground arith
write_params-spaced (p ∷ q ∷ ps) out =
    rw (write_params-spaced (q ∷ ps) (out ++ b' ' ∷ p))
      (append_assoc out (b' ' ∷ p) (b' ' ∷ wire_rest (q ∷ ps)))

-- A parameter that ends the line, written with a colon where it needs one.
read_params-last :
    (p : Text) (f : ℕ) (acc : List Text)
    → length (wire_rest (p ∷ [])) ≤ f
    → read_params f (wire_rest (p ∷ [])) acc ≡ some (acc ++ p ∷ [])
unfolding read_params wire_rest
read_params-last [] zero acc le = absurd (omega arith)
read_params-last [] (suc f) acc le = refl
read_params-last (c ∷ p) zero acc le = ground arith
read_params-last (c ∷ p) (suc f) acc le = elim (Bool-cases (needs_colon (c ∷ p))) [
  | inl e ↦ rw e
  | inr e ↦
      let lacks : Lacks b' ' (c ∷ p) = contains_char-Lacks b' ' (c ∷ p) (ground arith) in
      ground (arith, split_once-none b' ' (c ∷ p) lacks)
]

read_params-middle :
    (p r : Text) (f : ℕ) (acc : List Text)
    → IsMiddle p
    → StartsOther b' ' r
    → read_params (suc f) (p ++ b' ' ∷ r) acc ≡ read_params f r (acc ++ p ∷ [])
unfolding read_params
read_params-middle [] r f acc (h, _, _) s = absurd (h refl)
read_params-middle (c ∷ p) r f acc (_, lacks, other) s =
    ground (arith, split_once-append b' ' (c ∷ p) r lacks, trim_start_id b' ' r s)

pub wire_rest-StartsOther : (ps : List Text) → AreParams ps → StartsOther b' ' (wire_rest ps)
unfolding wire_rest
wire_rest-StartsOther [] h = tt
wire_rest-StartsOther ([] ∷ []) h = omega arith
wire_rest-StartsOther ((c ∷ p) ∷ []) h = ground arith
wire_rest-StartsOther ([] ∷ q ∷ ps) h = absurd (h.0.0 refl)
wire_rest-StartsOther ((c ∷ p) ∷ q ∷ ps) h = h.0.1.0

length-wire_rest :
    (p q : Text) (ps : List Text) → length (wire_rest (q ∷ ps)) < length (wire_rest (p ∷ q ∷ ps))
unfolding wire_rest
length-wire_rest p q ps = omega (arith, length-append p (b' ' ∷ wire_rest (q ∷ ps)))

read_params_step :
    (p q : Text) (ps : List Text) (f : ℕ) (acc : List Text)
    → AreParams (p ∷ q ∷ ps)
    → read_params (suc f) (wire_rest (p ∷ q ∷ ps)) acc
      ≡ read_params f (wire_rest (q ∷ ps)) (acc ++ p ∷ [])
unfolding wire_rest
read_params_step p q ps f acc h =
    read_params-middle p (wire_rest (q ∷ ps)) f acc h.0 (wire_rest-StartsOther (q ∷ ps) h.1)

-- Reading the written parameters gives them back.
pub read_params-wire_rest :
    (ps : List Text) (f : ℕ) (acc : List Text)
    → AreParams ps
    → length (wire_rest ps) ≤ f
    → read_params f (wire_rest ps) acc ≡ some (acc ++ ps)
read_params-wire_rest [] f acc h le = unfold read_params wire_rest in rw append-nil
read_params-wire_rest (p ∷ []) f acc h le = read_params-last p f acc le
read_params-wire_rest (p ∷ q ∷ ps) zero acc h le = absurd (omega (arith, length-wire_rest p q ps))
read_params-wire_rest (p ∷ q ∷ ps) (suc f) acc h le =
    read_params_step p q ps f acc h
    ∙ read_params-wire_rest (q ∷ ps) f (acc ++ p ∷ []) h.1 (omega (arith, length-wire_rest p q ps))
    ∙ ap some (append_assoc acc (p ∷ []) (q ∷ ps))

-- What a cut at the first space leaves is a middle parameter.
IsMiddle-of_cut :
    (p t r : Text) (c : ℕ)
    → c ≢ b' '
    → c ≢ b':'
    → split_once b' ' (c ∷ r) ≡ some (p, t)
    → IsMiddle p
IsMiddle-of_cut [] t r c hs hc h = ground (arith, split_once_sound b' ' (c ∷ r) [] t)
IsMiddle-of_cut (d ∷ p) t r c hs hc h =
    let (lacks, e) = split_once_sound b' ' (c ∷ r) (d ∷ p) t h in
    (cons-ne-nil d p, lacks, ground arith)

AreParams-cons : (p : Text) (qs : List Text) → IsMiddle p → AreParams qs → AreParams (p ∷ qs)
AreParams-cons p [] m h = tt
AreParams-cons p (q ∷ qs) m h = (m, h)

-- What the loop reads can be written: every parameter but the last is a middle one.
pub read_params-AreParams :
    (f : ℕ) (r : Text) (acc : List Text) {ps : List Text}
    → StartsOther b' ' r
    → read_params f r acc ≡ some ps
    → (qs : List Text) × (ps ≡ acc ++ qs) × AreParams qs
unfolding read_params
read_params-AreParams f [] acc s h = ([], ground (arith, append-nil acc), tt)
read_params-AreParams zero (c ∷ r) acc s h = cc
read_params-AreParams (suc f) (c ∷ r) acc {ps} s h = elim (Bool-cases (c == b':')) [
  | inl e ↦ (r ∷ [], ground arith, tt)
  | inr e ↦ elim (Option-cases (split_once b' ' (c ∷ r))) [
    | inl n ↦ ((c ∷ r) ∷ [], ground arith, tt)
    | inr ((p, t), n) ↦
        let (qs, e1, h1) =
          read_params-AreParams f (trim_start b' ' t) (acc ++ p ∷ []) {ps = ps}
            (trim_start-StartsOther b' ' t) (ground arith) in
        (
          p ∷ qs,
          e1 ∙ append_assoc acc (p ∷ []) qs,
          AreParams-cons p qs (IsMiddle-of_cut p t r c s (ground arith) n) h1,
        )
  ]
]
