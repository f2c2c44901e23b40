-- ===== src/Prelude/Decimal.antt =====
-- Decimal numbers: `to_string` and `parse` of Rust's unsigned integers.
use Prim.Native.Nat.{ℕ, zero, suc, ◌+◌, ◌-◌, ◌*◌, ◌/◌, ◌%◌, ◌^◌, ◌≤◌, ◌<◌}
use mathlib.Core.Path.{◌≡◌, refl, ◌∙◌}
use mathlib.Core.Bool.{false}
use mathlib.Core.Logic.{◌≢◌}
use mathlib.Core.List.{[], ◌∷◌, cons-ne-nil}
use mathlib.Core.Option.{Option, none, some}
use native.Mathlib.Omega.{arith}
use echoi_rcd.Prelude.Tests.{leb, ◌==◌, if◌then◌else◌}
use echoi_rcd.Prelude.Lists.{All}
use echoi_rcd.Prelude.Strings.{Text, is_digit, Lacks}

abbrev pub max_u64 : ℕ
max_u64 = 2 ^ 64 - 1

abbrev pub max_u32 : ℕ
max_u32 = 2 ^ 32 - 1

-- The digits of a number, the last one first; every round takes one unit of fuel.
digits_fuel : ℕ → ℕ → Text → Text
digits_fuel zero n out = out
digits_fuel (suc f) n out =
    let rest = digits_fuel f (n / 10) ((b'0' + n % 10) ∷ out) in
    if n / 10 == 0 then (b'0' + n % 10) ∷ out else rest

unfoldable pub show_nat : ℕ → Text
unfolding digits_fuel
show_nat n = digits_fuel (suc n) n []

-- The digit loop of `parse`, with its overflow check against the type's maximum.
scan : ℕ → Text → ℕ → Option ℕ
scan top [] n = some n
scan top (c ∷ s) n =
    if is_digit c
    then if leb (n * 10 + (c - b'0')) top then scan top s (n * 10 + (c - b'0')) else none
    else none

scan_some : ℕ → Text → Option ℕ
scan_some top [] = none
scan_some top (c ∷ s) = scan top (c ∷ s) 0

-- `parse::<u64>` and its like accept a leading `+`, want a digit and refuse an overflow.
unfoldable pub parse_uint : ℕ → Text → Option ℕ
unfolding scan scan_some
parse_uint top [] = none
parse_uint top (c ∷ s) = if c == b'+' then scan_some top s else scan_some top (c ∷ s)

abbrev pub IsDigit : ℕ → Type 0
IsDigit c = (b'0' ≤ c) × (c ≤ b'9')

digits_fuel-IsDigit : (f n : ℕ) (out : Text) → All IsDigit out → All IsDigit (digits_fuel f n out)
unfolding digits_fuel
digits_fuel-IsDigit zero n out h = h
digits_fuel-IsDigit (suc f) n out h =
    ground (arith, digits_fuel-IsDigit f (n / 10) ((b'0' + n % 10) ∷ out))

-- The decimal text of a number consists of digits.
pub show_nat-IsDigit : (n : ℕ) → All IsDigit (show_nat n)
unfolding show_nat
show_nat-IsDigit n = digits_fuel-IsDigit (suc n) n [] tt

digits_fuel-ne-nil : (f n : ℕ) (out : Text) → out ≢ [] → digits_fuel f n out ≢ []
unfolding digits_fuel
digits_fuel-ne-nil zero n out h = h
digits_fuel-ne-nil (suc f) n out h =
    ground (arith, digits_fuel-ne-nil f (n / 10) ((b'0' + n % 10) ∷ out))

pub show_nat-ne-nil : (n : ℕ) → show_nat n ≢ []
unfolding show_nat
show_nat-ne-nil n = ground (arith, digits_fuel-ne-nil n (n / 10) _ (cons-ne-nil (b'0' + n % 10) []))

scan-digits_fuel :
    (top f n : ℕ) (out : Text) → n < f → n ≤ top → scan top (digits_fuel f n out) 0 ≡ scan top out n
unfolding digits_fuel scan
scan-digits_fuel top zero n out h fits = absurd (omega arith)
scan-digits_fuel top (suc f) n out h fits =
    ground (arith, scan-digits_fuel top f (n / 10) ((b'0' + n % 10) ∷ out))

parse_uint-digits : (top : ℕ) (s : Text) → s ≢ [] → All IsDigit s → parse_uint top s ≡ scan top s 0
unfolding parse_uint
parse_uint-digits top [] h d = absurd (h refl)
parse_uint-digits top (c ∷ s) h d = ground arith

-- A number that fits its type is read back from its decimal text.
pub parse_uint-show_nat : (top n : ℕ) → n ≤ top → parse_uint top (show_nat n) ≡ some n
unfolding show_nat scan
parse_uint-show_nat top n h =
    parse_uint-digits top (show_nat n) (show_nat-ne-nil n) (show_nat-IsDigit n)
    ∙ scan-digits_fuel top (suc n) n [] (omega arith) h

scan-le : (top : ℕ) (s : Text) (n r : ℕ) → n ≤ top → scan top s n ≡ some r → r ≤ top
unfolding scan
scan-le top [] n r h e = ground arith
scan-le top (c ∷ s) n r h e = ground (arith, scan-le top s (n * 10 + (c - b'0')) r)

-- What is read fits its type.
pub parse_uint-le : (top : ℕ) (s : Text) {r : ℕ} → parse_uint top s ≡ some r → r ≤ top
unfolding parse_uint
parse_uint-le top [] e = cc
parse_uint-le top (c ∷ []) {r} e = ground (arith, scan-le top (c ∷ []) 0 r)
parse_uint-le top (c ∷ d ∷ s) {r} e =
    ground (arith, scan-le top (c ∷ d ∷ s) 0 r, scan-le top (d ∷ s) 0 r)

show_test : (show_nat 604800 ≡ 54 ∷ 48 ∷ 52 ∷ 56 ∷ 48 ∷ 48 ∷ []) × (show_nat 0 ≡ 48 ∷ [])
unfolding show_nat
show_test = (refl, refl)

digits-Lacks : (c : ℕ) (s : Text) → is_digit c ≡ false → All IsDigit s → Lacks c s
digits-Lacks c [] other h = tt
digits-Lacks c (d ∷ s) other h = ground (arith, digits-Lacks c s other h.1)

-- A number has no other character than digits.
pub show_nat-Lacks : (c n : ℕ) → is_digit c ≡ false → Lacks c (show_nat n)
show_nat-Lacks c n other = digits-Lacks c (show_nat n) other (show_nat-IsDigit n)
