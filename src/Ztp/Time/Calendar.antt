-- ===== src/Ztp/Time/Calendar.antt =====
-- The arithmetic of the calendar functions.
use microcontroller_devices.Prelude.{ℕ, ◌+◌, ◌-◌, ◌*◌, ◌/◌, ◌%◌, ◌≤◌, ◌<◌}
use microcontroller_devices.Prelude.{ltb, leb, if◌then◌else◌}
use microcontroller_devices.Prelude.{◌≡◌, sym, ap, ◌∙◌, arith}
use microcontroller_devices.Prelude.Int.{pos, ◌+ℤ◌, ◌-ℤ◌, ◌*ℤ◌}
use mathlib.Core.Path.{subst}
use microcontroller_devices.Ztp.Time.{days_from_civil, Civil, civil_of}

abbrev pub yoe_of : ℕ → ℕ
yoe_of doe = (doe - doe / 1460 + doe / 36524 - doe / 146096) / 365

pub yoe_upper : (doe : ℕ) → doe < 146097 → yoe_of doe < 400
yoe_upper doe h = omega arith

pub yoe_low : (doe : ℕ) → doe < 146097 → 365 * yoe_of doe + yoe_of doe / 4 ≤ doe + yoe_of doe / 100
yoe_low doe h = omega arith

pub yoe_high :
    (doe : ℕ) → doe < 146097 → doe + yoe_of doe / 100 ≤ 365 * yoe_of doe + yoe_of doe / 4 + 365
yoe_high doe h = omega arith

-- A date on a day of the era: the year from a March, the month and the day of the month.
abbrev pub doy_of : ℕ → ℕ
doy_of doe = doe - (365 * yoe_of doe + yoe_of doe / 4 - yoe_of doe / 100)

pub doy_le : (doe : ℕ) → doe < 146097 → doy_of doe ≤ 365
doy_le doe h = omega (arith, yoe_low doe h, yoe_high doe h)

doy_back :
    (doe : ℕ)
    → doe < 146097
    → yoe_of doe * 365 + yoe_of doe / 4 - yoe_of doe / 100 + doy_of doe ≡ doe
doy_back doe h = omega (arith, yoe_low doe h)

abbrev pub month_of : ℕ → ℕ
month_of doy = let mp = (5 * doy + 2) / 153 in if ltb mp 10 then mp + 3 else mp - 9

abbrev pub day_of : ℕ → ℕ
day_of doy = let mp = (5 * doy + 2) / 153 in doy - (153 * mp + 2) / 5 + 1

pub month_range : (doy : ℕ) → doy ≤ 365 → (1 ≤ month_of doy) × (month_of doy ≤ 12)
month_range doy h = ground arith

pub day_range : (doy : ℕ) → doy ≤ 365 → (1 ≤ day_of doy) × (day_of doy ≤ 31)
day_range doy h = omega arith

month_back :
    (doy : ℕ)
    → doy ≤ 365
    → (153 * (if ltb 2 (month_of doy) then month_of doy - 3 else month_of doy + 9) + 2) / 5
        + day_of doy
        - 1
      ≡ doy
month_back doy h = ground arith

-- The civil date of `z` days since 0000-03-01.
pub record IsCivil (z : ℕ) (c : Civil) : Type 0 where
  pub era : ℕ
  pub doe : ℕ
  pub split : era * 146097 + doe ≡ z
  pub doe_lt : doe < 146097
  pub month_is : c.month ≡ month_of (doy_of doe)
  pub day_is : c.day ≡ day_of (doy_of doe)
  pub year_is : c.year ≡ pos (yoe_of doe + era * 400 + (if leb c.month 2 then 1 else 0))

pub pos_add : (a b : ℕ) → pos a +ℤ pos b ≡ pos (a + b)
unfolding ◌+ℤ◌
pos_add a b = ground arith

pub pos_mul : (a b : ℕ) → pos a *ℤ pos b ≡ pos (a * b)
unfolding ◌*ℤ◌
pos_mul a b = ground arith

pub pos_sub : (a b : ℕ) → b ≤ a → pos a -ℤ pos b ≡ pos (a - b)
unfolding ◌-ℤ◌
pos_sub a b h = ground arith

abbrev pub leap_add : ℕ → ℕ
leap_add m = if leb m 2 then 1 else 0

pub pos_leap : (m : ℕ) → (if leb m 2 then pos 1 else pos 0) ≡ pos (leap_add m)
pos_leap m = ground arith

abbrev pub era_day : ℕ → ℕ
era_day n = (n / 86400 + 719468) % 146097

abbrev pub era_of : ℕ → ℕ
era_of n = (n / 86400 + 719468) / 146097

-- The date in the numbers that do not go below zero.
abbrev nat_civil : ℕ → Civil
nat_civil n =
    let doy = doy_of (era_day n) in
    record {
      year = pos (yoe_of (era_day n) + era_of n * 400 + leap_add (month_of doy));
      month = month_of doy;
      day = day_of doy;
      secs = n % 86400;
    }

pub civil_of_pos : (n : ℕ) → civil_of (pos n) ≡ nat_civil n
unfolding civil_of
civil_of_pos n = simp (pos_add, pos_mul, pos_leap)

-- The day of the year counted from March, as `days_from_civil` has it.
abbrev pub march_day : ℕ → ℕ → ℕ
march_day m d = (153 * (if ltb 2 m then m - 3 else m + 9) + 2) / 5 + d - 1

abbrev pub day_in_era : ℕ → ℕ → ℕ
day_in_era yoe doy = yoe * 365 + yoe / 4 - yoe / 100 + doy

back_era : (era yoe : ℕ) → yoe < 400 → (yoe + era * 400) / 400 ≡ era
back_era era yoe h = omega arith

back_yoe : (era yoe : ℕ) → yoe < 400 → (yoe + era * 400) % 400 ≡ yoe
back_yoe era yoe h = omega arith

back_march : (y l : ℕ) → y + l - l ≡ y
back_march y l = omega arith

leap_le : (y m : ℕ) → leap_add m ≤ y + leap_add m
leap_le y m = omega arith

-- A year that counts from March: `leap_add` is what the code takes off again.
pub days_from_civil_parts :
    (era yoe m d : ℕ)
    → yoe < 400
    → 719468 ≤ era * 146097 + day_in_era yoe (march_day m d)
    → days_from_civil (yoe + era * 400 + leap_add m) m d
      ≡ pos (era * 146097 + day_in_era yoe (march_day m d) - 719468)
unfolding days_from_civil
days_from_civil_parts era yoe m d h k = simp (
  pos_leap,
  pos_sub (yoe + era * 400 + leap_add m) (leap_add m) (leap_le (yoe + era * 400) m),
  back_march (yoe + era * 400) (leap_add m),
  back_era era yoe h,
  back_yoe era yoe h,
  pos_mul,
  pos_add,
  pos_sub (era * 146097 + day_in_era yoe (march_day m d)) 719468 k,
)

day_in_era_back :
    (doe : ℕ)
    → doe < 146097
    → day_in_era (yoe_of doe) (march_day (month_of (doy_of doe)) (day_of (doy_of doe))) ≡ doe
day_in_era_back doe h =
    ap (day_in_era (yoe_of doe)) (month_back (doy_of doe) (doy_le doe h)) ∙ doy_back doe h

-- The date of day `doe` of an era is that day again.
days_of_era :
    (era doe : ℕ)
    → doe < 146097
    → 719468 ≤ era * 146097 + doe
    → days_from_civil
        (yoe_of doe + era * 400 + leap_add (month_of (doy_of doe)))
        (month_of (doy_of doe))
        (day_of (doy_of doe))
      ≡ pos (era * 146097 + doe - 719468)
days_of_era era doe h k =
    let same = day_in_era_back doe h in
    days_from_civil_parts era (yoe_of doe) (month_of (doy_of doe)) (day_of (doy_of doe))
      (yoe_upper doe h) (subst (λ x. 719468 ≤ era * 146097 + x) (sym same) k)
    ∙ ap (λ x. pos (era * 146097 + x - 719468)) same

pub era_day_lt : (n : ℕ) → era_day n < 146097
era_day_lt n = omega arith

era_split : (n : ℕ) → era_of n * 146097 + era_day n ≡ n / 86400 + 719468
era_split n = omega arith

pub days_back :
    (n : ℕ)
    → days_from_civil
        (yoe_of (era_day n) + era_of n * 400 + leap_add (month_of (doy_of (era_day n))))
        (month_of (doy_of (era_day n)))
        (day_of (doy_of (era_day n)))
      ≡ pos (n / 86400)
days_back n =
    days_of_era (era_of n) (era_day n) (era_day_lt n) (era_bound n)
    ∙ ap (λ x. pos (x - 719468)) (era_split n)
    ∙ ap pos (back_march (n / 86400) 719468)
  where
    era_bound : (n : ℕ) → 719468 ≤ era_of n * 146097 + era_day n
    era_bound n = omega arith
