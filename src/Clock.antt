-- ===== src/Clock.antt =====
-- src/server.rs: dates. Every quantity of `civil` is a natural number, since the seconds count from
-- the epoch, and no difference of it is negative.
use echoi_rcd.Prelude.{
  ℕ, zero, suc, ◌+◌, ◌-◌, ◌*◌, ◌/◌, ◌%◌, List, [], ◌∷◌, ◌++◌, Text, codes, if◌then◌else◌, ◌==◌, ltb,
  leb, show_nat, length,
}

pub record Civil : Type 0 where
  pub year : ℕ
  pub month : ℕ
  pub day : ℕ
  pub hour : ℕ
  pub minute : ℕ
  pub second : ℕ

unfoldable pub civil : ℕ → Civil
civil secs =
    let z = secs / 86400 + 719468 in
    let era = z / 146097 in
    let doe = z - era * 146097 in
    let yoe = (doe - doe / 1460 + doe / 36524 - doe / 146096) / 365 in
    let y = yoe + era * 400 in
    let doy = doe - (365 * yoe + yoe / 4 - yoe / 100) in
    let mp = (5 * doy + 2) / 153 in
    let m = if ltb mp 10 then mp + 3 else mp - 9 in
    record {
      year = if leb m 2 then y + 1 else y;
      month = m;
      day = doy - (153 * mp + 2) / 5 + 1;
      hour = secs % 86400 / 3600;
      minute = secs % 3600 / 60;
      second = secs % 60;
    }

abbrev zeros : ℕ → Text → Text
zeros zero s = s
zeros (suc k) s = b'0' ∷ zeros k s

-- A number in at least so many digits.
unfoldable pub pad : ℕ → ℕ → Text
pad width n = zeros (width - length (show_nat n)) (show_nat n)

abbrev clock_time : Civil → Text
clock_time c = pad 2 c.hour ++ b':' ∷ (pad 2 c.minute ++ b':' ∷ pad 2 c.second)

unfoldable pub iso_time : ℕ → Text
iso_time secs =
    let c = civil secs in
    pad 4 c.year
    ++ b'-' ∷ (pad 2 c.month ++ b'-' ∷ (pad 2 c.day ++ b'T' ∷ (clock_time c ++ codes ".000Z")))

abbrev name_at : List Text → ℕ → Text
name_at [] i = []
name_at (n ∷ ns) i = let later = name_at ns (i - 1) in if i == 0 then n else later

abbrev weekdays : List Text
weekdays =
    codes "Sun"
    ∷ codes "Mon"
    ∷ codes "Tue"
    ∷ codes "Wed"
    ∷ codes "Thu"
    ∷ codes "Fri"
    ∷ codes "Sat"
    ∷ []

abbrev months : List Text
months =
    codes "Jan"
    ∷ codes "Feb"
    ∷ codes "Mar"
    ∷ codes "Apr"
    ∷ codes "May"
    ∷ codes "Jun"
    ∷ codes "Jul"
    ∷ codes "Aug"
    ∷ codes "Sep"
    ∷ codes "Oct"
    ∷ codes "Nov"
    ∷ codes "Dec"
    ∷ []

unfoldable pub long_date : ℕ → Text
long_date secs =
    let c = civil secs in
    name_at weekdays ((secs / 86400 + 4) % 7)
    ++ b' '
      ∷ (pad 2 c.day
          ++ b' ' ∷ (name_at months (c.month - 1) ++ b' ' ∷ (pad 4 c.year ++ b' ' ∷ clock_time c)))
