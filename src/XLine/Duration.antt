-- ===== src/XLine/Duration.antt =====
-- Durations of bans and of mode parameters: how they are read and shown.
use echoi_rcd.Prelude.{
  ℕ, zero, suc, ◌+◌, ◌*◌, ◌/◌, ◌%◌, ◌-◌, ◌≤◌, min, true, false, ◌||◌, List, [], ◌∷◌, ◌++◌, Option,
  none, some, Text, codes, if◌then◌else◌, ◌==◌, ==_iff, ltb, ◌≡◌, ◌≢◌, refl, ap, sym, ◌∙◌, arith,
  is_nil, is_digit, text_eq, text_eq_iff, join, show_nat, parse_uint, max_u64, ◌>>=◌, All, IsDigit,
  show_nat-IsDigit, show_nat-ne-nil, is_nil-false, parse_uint-show_nat, parse_uint-le, Bool-cases,
  Option-cases, inl, inr, map,
}

-- The last character, and what stands before it.
abbrev pub split_last : Text → Option (Text × ℕ)
split_last [] = none
split_last (c ∷ s) = elim (split_last s) [ none ↦ some ([], c) | some (t, d) ↦ some (c ∷ t, d) ]

unfoldable pub unit_seconds : ℕ → Option ℕ
unit_seconds c =
    if c == b's'
    then some 1
    else if c == b'm'
    then some 60
    else if c == b'h'
    then some 3600
    else if c == b'd'
    then some 86400
    else if c == b'w'
    then some 604800
    else none

-- A number with the unit `last`. A product that overflows is the greatest value of the type.
unfoldable pub read_unit : Text → ℕ → Option ℕ
read_unit digits last = do
  n ← parse_uint max_u64 digits
  mul ← unit_seconds last
  some (min (n * mul) max_u64)

unfoldable pub parse_duration : Text → Option ℕ
parse_duration s = if is_nil s || text_eq s (codes "0") then some 0 else elim (split_last s) [
  | none ↦ none
  | some (digits, last) ↦ if is_digit last then parse_uint max_u64 s else read_unit digits last
]

abbrev pub units : List (ℕ × ℕ)
units = (604800, b'w') ∷ (86400, b'd') ∷ (3600, b'h') ∷ (60, b'm') ∷ []

-- The loop over the units: the first that divides the seconds is taken.
unfoldable pub in_units : List (ℕ × ℕ) → ℕ → Text
in_units [] secs = show_nat secs
in_units ((size, unit) ∷ us) secs =
    if secs % size == 0 then show_nat (secs / size) ++ unit ∷ [] else in_units us secs

unfoldable pub short_duration : ℕ → Text
short_duration secs = if secs == 0 then codes "0" else in_units units secs

abbrev pub labels : List (ℕ × Text)
labels =
    (604800, codes "week")
    ∷ (86400, codes "day")
    ∷ (3600, codes "hour")
    ∷ (60, codes "minute")
    ∷ (1, codes "second")
    ∷ []

-- How often each unit fits in what the larger ones left, where it fits at all.
unfoldable pub split_units : List (ℕ × Text) → ℕ → List (ℕ × (ℕ × Text))
split_units [] secs = []
split_units ((size, label) ∷ us) secs =
    let rest = split_units us (secs - secs / size * size) in
    let skipped = split_units us secs in
    if ltb 0 (secs / size) then (secs / size, (size, label)) ∷ rest else skipped

abbrev phrase : ℕ × (ℕ × Text) → Text
phrase (n, (size, label)) = show_nat n ++ b' ' ∷ label ++ (if n == 1 then [] else codes "s")

unfoldable pub human_duration : ℕ → Text
human_duration secs =
    if secs == 0 then codes "0 seconds" else join b' ' (map phrase (split_units labels secs))

split_last-append : (s : Text) (d : ℕ) → split_last (s ++ d ∷ []) ≡ some (s, d)
split_last-append [] d = refl
split_last-append (c ∷ s) d = rw (split_last-append s d)

split_last-All :
    (s : Text) {t : Text} {d : ℕ} → split_last s ≡ some (t, d) → All IsDigit s → IsDigit d
split_last-All [] e h = cc
split_last-All (c ∷ s) {t} {d} e h = elim (Option-cases (split_last s)) [
  | inl n ↦ ground (arith, split_last-All s)
  | inr ((u, v), n) ↦ ground (arith, split_last-All s n h.1)
]

-- A numeral that is not empty has a last digit.
last_digit :
    (s : Text)
    → s ≢ []
    → All IsDigit s
    → (t : Text) × (d : ℕ) × (split_last s ≡ some (t, d)) × (is_digit d ≡ true)
last_digit [] ne h = absurd (ne refl)
last_digit (c ∷ s) ne h = elim (Option-cases (split_last s)) [
  | inl n ↦ ([], c, ground arith, ground arith)
  | inr ((u, v), n) ↦ (c ∷ u, v, ground arith, ground (arith, split_last-All s n h.1))
]

not_digit : (u m : ℕ) → unit_seconds u ≡ some m → is_digit u ≡ false
unfolding unit_seconds
not_digit u m e = ground arith

is_nil-append : (s : Text) (u : ℕ) → is_nil (s ++ u ∷ []) ≡ false
is_nil-append [] u = refl
is_nil-append (c ∷ s) u = refl

abbrev IsUnit : ℕ × ℕ → Type 0
IsUnit (size, unit) = unit_seconds unit ≡ some size

zero_numeral : (n : ℕ) → n ≤ max_u64 → show_nat n ≡ codes "0" → n ≡ 0
unfolding parse_uint
zero_numeral n h e = ground (arith, parse_uint-show_nat max_u64 n h, ap (parse_uint max_u64) e)

parse_duration-show_nat : (n : ℕ) → n ≤ max_u64 → parse_duration (show_nat n) ≡ some n
unfolding parse_duration
parse_duration-show_nat n h =
    let (t, d, e, g) = last_digit (show_nat n) (show_nat-ne-nil n) (show_nat-IsDigit n) in
    elim (Bool-cases (text_eq (show_nat n) (codes "0"))) [
      | inl zero_text ↦
          rw (is_nil-false (show_nat n) (show_nat-ne-nil n), zero_text)
            (ap some (sym (zero_numeral n h ((text_eq_iff (show_nat n) (codes "0")).0 zero_text))))
      | inr other ↦
          rw (is_nil-false (show_nat n) (show_nat-ne-nil n), other, e, g)
            (parse_uint-show_nat max_u64 n h)
    ]

-- A text of two parts, the first of them not empty, is not the text of one digit.
longer_text : (s : Text) (u : ℕ) → s ≢ [] → text_eq (s ++ u ∷ []) (codes "0") ≡ false
unfolding text_eq
longer_text [] u ne = absurd (ne refl)
longer_text (c ∷ []) u ne = ground arith
longer_text (c ∷ d ∷ s) u ne = ground arith

-- A number of 64 bits with a unit is read as so many seconds, at most the greatest value of the
-- type.
pub parse_duration_unit :
    (n u m : ℕ)
    → n ≤ max_u64
    → unit_seconds u ≡ some m
    → parse_duration (show_nat n ++ u ∷ []) ≡ some (min (n * m) max_u64)
unfolding parse_duration read_unit
parse_duration_unit n u m h e =
    let no_digit : is_digit u ≡ false = not_digit u m e in
    rw (
      is_nil-append (show_nat n) u,
      longer_text (show_nat n) u (show_nat-ne-nil n),
      split_last-append (show_nat n) u,
      no_digit,
      parse_uint-show_nat max_u64 n h,
      e,
    )

unit_division :
    (n u m : ℕ) → unit_seconds u ≡ some m → (n % m == 0) ≡ true → (n / m * m ≡ n) × (n / m ≤ n)
unfolding unit_seconds
unit_division n u m e d = ground arith

in_units-parse :
    (us : List (ℕ × ℕ)) (n : ℕ)
    → n ≤ max_u64
    → All IsUnit us
    → parse_duration (in_units us n) ≡ some n
unfolding in_units
in_units-parse [] n h good = parse_duration-show_nat n h
in_units-parse ((size, unit) ∷ us) n h good = elim (Bool-cases (n % size == 0)) [
  | inl d ↦
      let (whole, le) = unit_division n unit size good.0 d in
      rw (d, parse_duration_unit (n / size) unit size (omega arith) good.0, whole)
        (ap some (omega arith))
  | inr d ↦ rw d (in_units-parse us n h good.1)
]

zero_read : parse_duration (codes "0") ≡ some 0
unfolding parse_duration text_eq
zero_read = refl

-- What `short_duration` shows for a duration of 64 bits is read back as that duration.
pub parse_duration-short_duration :
    (n : ℕ) → n ≤ max_u64 → parse_duration (short_duration n) ≡ some n
unfolding short_duration unit_seconds
parse_duration-short_duration n h = elim (Bool-cases (n == 0)) [
  | inl e ↦ rw e (zero_read ∙ ap some (sym ((==_iff n 0).0 e)))
  | inr e ↦ rw e (in_units-parse units n h (refl, (refl, (refl, (refl, tt)))))
]

read_unit-le : (s : Text) (u : ℕ) {n : ℕ} → read_unit s u ≡ some n → n ≤ max_u64
unfolding read_unit
read_unit-le s u {n} e = elim (Option-cases (parse_uint max_u64 s)) [
  | inl h ↦ ground arith
  | inr (k, h) ↦ elim (Option-cases (unit_seconds u)) [
    | inl j ↦ ground arith
    | inr (m, j) ↦ ground arith
  ]
]

-- No text is read as a duration above the greatest value of the type.
pub parse_duration-le : (s : Text) {n : ℕ} → parse_duration s ≡ some n → n ≤ max_u64
unfolding parse_duration
parse_duration-le s {n} e = elim (Option-cases (split_last s)) [
  | inl h ↦ ground arith
  | inr ((t, u), h) ↦ ground (arith, parse_uint-le max_u64 s {r = n}, read_unit-le t u {n = n})
]

abbrev pub total : List (ℕ × (ℕ × Text)) → ℕ
total [] = 0
total ((n, (size, label)) ∷ ps) = n * size + total ps

total-step :
    (size : ℕ) (label : Text) (us : List (ℕ × Text)) (secs : ℕ)
    → total (split_units ((size, label) ∷ us) secs)
      ≡ secs / size * size + total (split_units us (secs - secs / size * size))
unfolding split_units
total-step size label us secs = by_count (secs / size)
  where
    by_count :
        (n : ℕ)
        → total (
            if ltb 0 n
            then (n, (size, label)) ∷ split_units us (secs - n * size)
            else split_units us secs)
          ≡ n * size + total (split_units us (secs - n * size))
    by_count zero =
        let same_rest : secs ≡ secs - 0 * size = omega arith in
        omega (arith, ap (λ x. total (split_units us x)) same_rest)
    by_count (suc n) = ground arith

-- The units that a duration is shown in make up the duration.
pub total-split_units : (secs : ℕ) → total (split_units labels secs) ≡ secs
unfolding split_units
total-split_units secs =
    let s1 = secs - secs / 604800 * 604800 in
    let s2 = s1 - s1 / 86400 * 86400 in
    let s3 = s2 - s2 / 3600 * 3600 in
    let s4 = s3 - s3 / 60 * 60 in
    omega (
      arith,
      total-step 604800 (codes "week")
          ((86400, codes "day")
            ∷ (3600, codes "hour")
            ∷ (60, codes "minute")
            ∷ (1, codes "second")
            ∷ [])
          secs,
      total-step 86400 (codes "day")
          ((3600, codes "hour") ∷ (60, codes "minute") ∷ (1, codes "second") ∷ []) s1,
      total-step 3600 (codes "hour") ((60, codes "minute") ∷ (1, codes "second") ∷ []) s2,
      total-step 60 (codes "minute") ((1, codes "second") ∷ []) s3,
      total-step 1 (codes "second") [] s4,
    )
