-- ===== src/Ztp/Time/NextDay.antt =====
-- `days_from_civil` against the calendar written out: leap years, the lengths of the months, the next date.
use microcontroller_devices.Prelude.{ℕ, zero, suc, ◌+◌, ◌-◌, ◌*◌, ◌/◌, ◌%◌, ◌≤◌, ◌<◌}
use microcontroller_devices.Prelude.{ltb, ◌==◌, if◌then◌else◌, ltb→lt}
use microcontroller_devices.Prelude.{◌≡◌, refl, sym, ap, ap₂, ◌∙◌, arith, inl, inr}
use microcontroller_devices.Prelude.{Bool, true, false, ◌&&◌, ◌||◌, not, Bool-cases}
use mathlib.Core.Path.{subst}
use microcontroller_devices.Prelude.Int.{ℤ, pos}
use microcontroller_devices.Ztp.Time.{days_from_civil}
use microcontroller_devices.Ztp.Time.Calendar.{
  pos_sub, pos_add, pos_mul, march_day, day_in_era, leap_add, pos_leap,
}

-- The Gregorian calendar.
unfoldable pub is_leap : ℕ → Bool
is_leap y = y % 4 == 0 && (not (y % 100 == 0) || y % 400 == 0)

unfoldable pub days_in_month : ℕ → ℕ → ℕ
days_in_month y m =
    if m == 4 || m == 6 || m == 9 || m == 11
    then 30
    else if m == 2
    then (if is_leap y then 29 else 28)
    else 31

-- The days since the March of the year 0, in numbers that do not go below zero.
abbrev march_days : ℕ → ℕ → ℕ → ℕ
march_days y m d =
    let march = y - leap_add m in march / 400 * 146097 + day_in_era (march % 400) (march_day m d)

within_month : (y m d : ℕ) → 1 ≤ d → march_days y m (d + 1) ≡ march_days y m d + 1
within_month y m d h = omega arith

january_end : (y : ℕ) → 1 ≤ y → march_days y 2 1 ≡ march_days y 1 31 + 1
january_end y k = omega arith

february_leap : (y : ℕ) → 1 ≤ y → is_leap y ≡ true → march_days y 3 1 ≡ march_days y 2 29 + 1
unfolding is_leap
february_leap y k h = ground arith

february_common : (y : ℕ) → 1 ≤ y → is_leap y ≡ false → march_days y 3 1 ≡ march_days y 2 28 + 1
unfolding is_leap
february_common y k h = ground arith

year_end : (y : ℕ) → 1 ≤ y → march_days (y + 1) 1 1 ≡ march_days y 12 31 + 1
year_end y k = omega arith

leap_add_none : (m : ℕ) → 3 ≤ m → leap_add m ≡ 0
leap_add_none m h = ground arith

-- From March on the year is that of the calendar.
march_days_year :
    (y m d : ℕ) → 3 ≤ m → march_days y m d ≡ y / 400 * 146097 + day_in_era (y % 400) (march_day m d)
march_days_year y m d h =
    ap (λ l. (y - l) / 400 * 146097 + day_in_era ((y - l) % 400) (march_day m d))
      (leap_add_none m h)
    ∙ ap (λ x. x / 400 * 146097 + day_in_era (x % 400) (march_day m d)) (omega arith)

march_day_end :
    (y m : ℕ) → 3 ≤ m → m < 12 → march_day (m + 1) 1 ≡ march_day m (days_in_month y m) + 1
unfolding days_in_month
march_day_end y m a b = ground arith

-- Every month but the last.
month_end :
    (y m : ℕ)
    → 1 ≤ y
    → 1 ≤ m
    → m < 12
    → march_days y (m + 1) 1 ≡ march_days y m (days_in_month y m) + 1
unfolding days_in_month
month_end y zero k a b = elim a [ ]
month_end y (suc zero) k a b = january_end y k
month_end y (suc (suc zero)) k a b = elim (Bool-cases (is_leap y)) [
  | inl h ↦ february_leap y k h ∙ rw h
  | inr h ↦ february_common y k h ∙ rw h
]
month_end y (suc (suc (suc m))) k a b =
    let n = suc (suc (suc m)) in
    march_days_year y (n + 1) 1 (omega arith)
    ∙ ap (λ x. y / 400 * 146097 + day_in_era (y % 400) x) (march_day_end y n (omega arith) b)
    ∙ one_more (y / 400 * 146097) (y % 400) (march_day n (days_in_month y n))
    ∙ ap (λ x. x + 1) (sym (march_days_year y n (days_in_month y n) (omega arith)))
  where
    one_more : (e yoe doy : ℕ) → e + day_in_era yoe (doy + 1) ≡ e + day_in_era yoe doy + 1
    one_more e yoe doy = omega arith

pub record CalendarDay : Type 0 where
  pub day : ℕ
  pub month : ℕ
  pub year : ℕ

abbrev on_day : ℕ → ℕ → ℕ → CalendarDay
on_day y m d = record { day = d; month = m; year = y }

-- The date after a date.
unfoldable pub next_date : CalendarDay → CalendarDay
next_date c =
    if ltb c.day (days_in_month c.year c.month)
    then on_day c.year c.month (c.day + 1)
    else if ltb c.month 12
    then on_day c.year (c.month + 1) 1
    else on_day (c.year + 1) 1 1

abbrev pub days_of : CalendarDay → ℤ
days_of c = days_from_civil c.year c.month c.day

-- 1970-01-01 and `n` days.
unfoldable pub date_after : ℕ → CalendarDay
date_after zero = record { year = 1970; month = 1; day = 1 }
date_after (suc n) = next_date (date_after n)

-- The dates reached, and their day.
record IsDay (n : ℕ) (c : CalendarDay) : Type 0 where
  year_le : 1970 ≤ c.year
  month_low : 1 ≤ c.month
  month_high : c.month ≤ 12
  day_low : 1 ≤ c.day
  day_high : c.day ≤ days_in_month c.year c.month
  days_is : march_days c.year c.month c.day ≡ n + 719468

days_in_month_low : (y m : ℕ) → 1 ≤ days_in_month y m
unfolding days_in_month
days_in_month_low y m = ground arith

december : (y : ℕ) → days_in_month y 12 ≡ 31
unfolding days_in_month
december y = refl

same_month :
    (n : ℕ) (c : CalendarDay)
    → IsDay n c
    → c.day < days_in_month c.year c.month
    → IsDay (suc n) (on_day c.year c.month (c.day + 1))
same_month n c h a = record {
  year_le = h.year_le;
  month_low = h.month_low;
  month_high = h.month_high;
  day_low = omega arith;
  day_high = omega arith;
  days_is = omega (arith, within_month c.year c.month c.day h.day_low, h.days_is);
}

same_year :
    (n : ℕ) (c : CalendarDay)
    → IsDay n c
    → c.day ≡ days_in_month c.year c.month
    → c.month < 12
    → IsDay (suc n) (on_day c.year (c.month + 1) 1)
same_year n c h a b = record {
  year_le = h.year_le;
  month_low = omega arith;
  month_high = omega arith;
  day_low = omega arith;
  day_high = days_in_month_low c.year (c.month + 1);
  days_is =
      month_end c.year c.month (omega (arith, h.year_le)) h.month_low b
      ∙ ap (λ d. march_days c.year c.month d + 1) (sym a)
      ∙ omega (arith, h.days_is);
}

new_year :
    (n : ℕ) (c : CalendarDay)
    → IsDay n c
    → c.month ≡ 12
    → c.day ≡ 31
    → IsDay (suc n) (on_day (c.year + 1) 1 1)
new_year n c h a b = record {
  year_le = omega (arith, h.year_le);
  month_low = omega arith;
  month_high = omega arith;
  day_low = omega arith;
  day_high = days_in_month_low (c.year + 1) 1;
  days_is =
      year_end c.year (omega (arith, h.year_le))
      ∙ ap₂ (λ m d. march_days c.year m d + 1) (sym a) (sym b)
      ∙ omega (arith, h.days_is);
}

next_date-IsDay : (n : ℕ) (c : CalendarDay) → IsDay n c → IsDay (suc n) (next_date c)
unfolding next_date
next_date-IsDay n c h =
    elim (Bool-cases (ltb c.day (days_in_month c.year c.month)))
      as (λ _. IsDay (suc n) (next_date c)) [
        | inl a ↦
            subst (IsDay (suc n)) (sym (rw a))
              (same_month n c h (ltb→lt c.day (days_in_month c.year c.month) a))
        | inr a ↦
            let last : c.day ≡ days_in_month c.year c.month =
              last_day c.day (days_in_month c.year c.month) a h.day_high in
            elim (Bool-cases (ltb c.month 12)) as (λ _. IsDay (suc n) (next_date c)) [
              | inl b ↦
                  subst (IsDay (suc n)) (sym (rw (a, b)))
                    (same_year n c h last (ltb→lt c.month 12 b))
              | inr b ↦
                  let twelve : c.month ≡ 12 = last_day c.month 12 b h.month_high in
                  subst (IsDay (suc n)) (sym (rw (a, b))) (
                    new_year n c h twelve
                      (last ∙ ap (days_in_month c.year) twelve ∙ december c.year))
            ]
      ]
  where
    last_day : (a b : ℕ) → ltb a b ≡ false → a ≤ b → a ≡ b
    last_day a b h k = ground arith

date_after-IsDay : (n : ℕ) → IsDay n (date_after n)
unfolding date_after
date_after-IsDay zero = record {
  year_le = omega arith;
  month_low = omega arith;
  month_high = omega arith;
  day_low = omega arith;
  day_high = days_in_month_low 1970 1;
  days_is = refl;
}
date_after-IsDay (suc n) = next_date-IsDay n (date_after n) (date_after-IsDay n)

days_from_civil_le :
    (y m d : ℕ)
    → 1 ≤ y
    → 719468 ≤ march_days y m d
    → days_from_civil y m d ≡ pos (march_days y m d - 719468)
unfolding days_from_civil
days_from_civil_le y m d h k = simp (
  pos_leap,
  pos_sub y (leap_add m) (leap_add_le y m h),
  pos_mul,
  pos_add,
  pos_sub (march_days y m d) 719468 k,
)
  where
    leap_add_le : (y m : ℕ) → 1 ≤ y → leap_add m ≤ y
    leap_add_le y m h = ground arith

-- `days_from_civil` agrees with the calendar of leap years and month lengths: the date that
-- follows 1970-01-01 after `n` steps to the next date is day `n`.
pub days_of-date_after : (n : ℕ) → days_of (date_after n) ≡ pos n
days_of-date_after n =
    let h = date_after-IsDay n in
    days_from_civil_le (date_after n).year (date_after n).month (date_after n).day
      (omega (arith, h.year_le)) (omega (arith, h.days_is))
    ∙ ap (λ x. pos (x - 719468)) h.days_is
    ∙ ap pos (omega arith)
