-- ===== src/Ztp/Time/RoundTrip.antt =====
-- Times printed by `ztp_format_rfc3339` and read by `ztp_parse_rfc3339`.
use microcontroller_devices.Prelude.{ℕ, ◌+◌, ◌*◌, ◌/◌, ◌%◌, ◌≤◌, ◌<◌}
use microcontroller_devices.Prelude.{◌≡◌, ap, ◌∙◌, arith}
use microcontroller_devices.Prelude.{true}
use microcontroller_devices.Prelude.{some, List, [], ◌∷◌, ◌++◌}
use microcontroller_devices.Prelude.{take}
use microcontroller_devices.Prelude.Int.{pos, ◌+ℤ◌, ◌*ℤ◌}
use microcontroller_devices.Ztp.Time.{padded, padded_int, low_digits, parse_uint, scan_digits}
use microcontroller_devices.Ztp.Time.{civil_text, in_range}
use microcontroller_devices.Ztp.Time.{ztp_format_rfc3339, ztp_parse_rfc3339, days_from_civil}
use microcontroller_devices.Ztp.Time.Calendar.{
  yoe_of, yoe_upper, doy_of, doy_le, month_of, day_of, month_range, day_range, leap_add, era_day,
  era_of, era_day_lt, civil_of_pos, days_back, pos_add, pos_mul,
}

abbrev two_digits : ℕ → List ℕ
two_digits n = (48 + n / 10) ∷ (48 + n % 10) ∷ []

abbrev four_digits : ℕ → List ℕ
four_digits n = (48 + n / 1000) ∷ (48 + n / 100 % 10) ∷ (48 + n / 10 % 10) ∷ (48 + n % 10) ∷ []

padded-two : (n : ℕ) → n < 100 → padded 2 n ≡ two_digits n
unfolding padded low_digits
padded-two n h = ground arith

padded-four : (n : ℕ) → n < 10000 → padded_int (pos n) ≡ four_digits n
unfolding padded_int padded low_digits
padded-four n h = ground arith

parse-two : (n : ℕ) → n < 100 → parse_uint (two_digits n) ≡ some n
unfolding parse_uint scan_digits
parse-two n h = ground arith

parse-four : (n : ℕ) → n < 10000 → parse_uint (four_digits n) ≡ some n
unfolding parse_uint scan_digits
parse-four n h = ground arith

last_doy : (doe : ℕ) → doe < 146037 → 399 ≤ yoe_of doe → doy_of doe < 306
last_doy doe h k = omega arith

after_february : (doy : ℕ) → doy < 306 → leap_add (month_of doy) ≡ 0
after_february doy h = ground arith

-- 253402300800 is the first second of the year 10000.
year_lt :
    (n : ℕ)
    → n < 253402300800
    → yoe_of (era_day n) + era_of n * 400 + leap_add (month_of (doy_of (era_day n))) < 10000
year_lt n h =
    within (era_of n) (era_day n) (era_day_lt n) (below n h) (after_february (doy_of (era_day n)))
  where
    leap_le_one : (m : ℕ) → leap_add m ≤ 1
    leap_le_one m = ground arith

    below : (n : ℕ) → n < 253402300800 → era_of n * 146097 + era_day n < 3652365
    below n h = omega arith

    with_leap :
        (era doe y l : ℕ)
        → era * 146097 + doe < 3652365
        → y < 400
        → l ≤ 1
        → (doe < 146037 → 399 ≤ y → l ≡ 0)
        → y + era * 400 + l < 10000
    with_leap era doe y l h k i j = ground arith

    within :
        (era doe : ℕ)
        → doe < 146097
        → era * 146097 + doe < 3652365
        → (doy_of doe < 306 → leap_add (month_of (doy_of doe)) ≡ 0)
        → yoe_of doe + era * 400 + leap_add (month_of (doy_of doe)) < 10000
    within era doe h k i =
        with_leap era doe (yoe_of doe) (leap_add (month_of (doy_of doe))) k (yoe_upper doe h)
          (leap_le_one (month_of (doy_of doe))) (λ a b. i (last_doy doe a b))

-- A date and a time of day in two-digit and four-digit numbers.
abbrev stamp : ℕ → ℕ → ℕ → ℕ → ℕ → ℕ → List ℕ
stamp y mo d h mi se =
    four_digits y
    ++ (45 ∷ two_digits mo)
    ++ (45 ∷ two_digits d)
    ++ (84 ∷ two_digits h)
    ++ (58 ∷ two_digits mi)
    ++ (58 ∷ two_digits se)
    ++ (90 ∷ [])

pub ztp_parse_rfc3339-stamp :
    (y mo d h mi se : ℕ)
    → y < 10000
    → (1 ≤ mo) × (mo ≤ 12)
    → (1 ≤ d) × (d ≤ 31)
    → h < 24
    → mi < 60
    → se < 60
    → ztp_parse_rfc3339 (stamp y mo d h mi se)
      ≡ some (days_from_civil y mo d *ℤ pos 86400 +ℤ pos (h * 3600) +ℤ pos (mi * 60) +ℤ pos se)
unfolding ztp_parse_rfc3339
ztp_parse_rfc3339-stamp y mo d h mi se hy hm hd hh hi hs = rw (
  parse-four y hy,
  parse-two mo (omega arith),
  parse-two d (omega arith),
  parse-two h (omega arith),
  parse-two mi (omega arith),
  parse-two se (omega arith),
  ranges mo d h mi se hm hd hh hi hs,
)
  where
    ranges :
        (mo d h mi se : ℕ)
        → (1 ≤ mo) × (mo ≤ 12)
        → (1 ≤ d) × (d ≤ 31)
        → h < 24
        → mi < 60
        → se < 60
        → in_range mo d h mi se ≡ true
    ranges mo d h mi se hm hd hh hi hs = ground arith

seconds_back :
    (n : ℕ)
    → n / 86400 * 86400 + n % 86400 / 3600 * 3600 + n % 86400 / 60 % 60 * 60 + n % 86400 % 60 ≡ n
seconds_back n = omega arith

format_stamp :
    (y mo d h mi se : ℕ)
    → y < 10000
    → mo < 100
    → d < 100
    → h < 100
    → mi < 100
    → se < 100
    → padded_int (pos y)
        ++ (45 ∷ padded 2 mo)
        ++ (45 ∷ padded 2 d)
        ++ (84 ∷ padded 2 h)
        ++ (58 ∷ padded 2 mi)
        ++ (58 ∷ padded 2 se)
        ++ (90 ∷ [])
      ≡ stamp y mo d h mi se
format_stamp y mo d h mi se hy hm hd hh hi hs = rw (
  padded-four y hy,
  padded-two mo hm,
  padded-two d hd,
  padded-two h hh,
  padded-two mi hi,
  padded-two se hs,
)

pub format_pos :
    (n : ℕ)
    → n < 253402300800
    → ztp_format_rfc3339 (pos n)
      ≡ stamp
          (yoe_of (era_day n) + era_of n * 400 + leap_add (month_of (doy_of (era_day n))))
          (month_of (doy_of (era_day n)))
          (day_of (doy_of (era_day n)))
          (n % 86400 / 3600)
          (n % 86400 / 60 % 60)
          (n % 86400 % 60)
unfolding ztp_format_rfc3339
format_pos n h =
    let doy = doy_of (era_day n) in
    let short = doy_le (era_day n) (era_day_lt n) in
    let months = month_range doy short in
    let days = day_range doy short in
    ap (λ c. take 20 (civil_text c)) (civil_of_pos n)
    ∙ ap (take 20) (
        format_stamp (yoe_of (era_day n) + era_of n * 400 + leap_add (month_of doy)) (month_of doy)
          (day_of doy) (n % 86400 / 3600) (n % 86400 / 60 % 60) (n % 86400 % 60) (year_lt n h)
          (under_hundred (month_of doy) 12 months.1 (omega arith))
          (under_hundred (day_of doy) 31 days.1 (omega arith)) (omega arith) (omega arith)
          (omega arith))
  where
    under_hundred : (a b : ℕ) → a ≤ b → b < 100 → a < 100
    under_hundred a b h k = omega arith

-- A time from 1970 to the end of the year 9999 that `ztp_format_rfc3339` prints is read back by
-- `ztp_parse_rfc3339`.
pub ztp_parse_rfc3339-ztp_format_rfc3339 :
    (n : ℕ) → n < 253402300800 → ztp_parse_rfc3339 (ztp_format_rfc3339 (pos n)) ≡ some (pos n)
ztp_parse_rfc3339-ztp_format_rfc3339 n h =
    let doy = doy_of (era_day n) in
    let short = doy_le (era_day n) (era_day_lt n) in
    ap ztp_parse_rfc3339 (format_pos n h)
    ∙ ztp_parse_rfc3339-stamp (yoe_of (era_day n) + era_of n * 400 + leap_add (month_of doy))
        (month_of doy) (day_of doy) (n % 86400 / 3600) (n % 86400 / 60 % 60) (n % 86400 % 60)
        (year_lt n h) (month_range doy short) (day_range doy short) (omega arith) (omega arith)
        (omega arith)
    ∙ rw (
      days_back n,
      pos_mul (n / 86400) 86400,
      pos_add (n / 86400 * 86400) (n % 86400 / 3600 * 3600),
      pos_add (n / 86400 * 86400 + n % 86400 / 3600 * 3600) (n % 86400 / 60 % 60 * 60),
      pos_add (n / 86400 * 86400 + n % 86400 / 3600 * 3600 + n % 86400 / 60 % 60 * 60)
          (n % 86400 % 60),
      seconds_back n,
    )
