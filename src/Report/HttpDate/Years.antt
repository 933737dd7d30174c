-- ===== src/Report/HttpDate/Years.antt =====
-- Where the years of an era begin, and what the next day is.
use riperf.Base.{
  true, false, any, [], ◌∷◌, ℕ, ◌+◌, ◌-◌, ◌*◌, ◌/◌, ◌%◌, ◌≤◌, ◌<◌, ◌≡◌, ◌⊎◌, arith, Bool, not, ltb,
  leb, ◌==◌, if◌then◌else◌,
}
use riperf.Report.HttpDate.{CivilDate, year_of_era, year_start, month_from_march}

-- Every fourth year is a leap year, but of the centuries only every fourth.
abbrev pub is_leap : ℕ → Bool
is_leap y = if y % 400 == 0 then true else if y % 100 == 0 then false else y % 4 == 0

-- The months of 30 days, and February.
abbrev pub month_length : ℕ → ℕ → ℕ
month_length year month =
    if any (λ m. m == month) (4 ∷ 6 ∷ 9 ∷ 11 ∷ [])
    then 30
    else if not (month == 2)
    then 31
    else if is_leap year
    then 29
    else 28

unfoldable pub next_day : CivilDate → CivilDate
next_day d =
    if ltb d.day (month_length d.year d.month)
    then record d { day = d.day + 1 }
    else if ltb d.month 12
    then record { year = d.year; month = d.month + 1; day = 1 }
    else record { year = d.year + 1; month = 1; day = 1 }

abbrev pub leap_day : ℕ → ℕ
leap_day y = if is_leap y then 1 else 0

-- A day of an era and the day behind it stand in the same year, or in two that follow each other.
pub year_step :
    (doe : ℕ)
    → doe < 146096
    → let yoe = year_of_era doe in
      (year_start yoe ≤ doe)
      × (((year_of_era (doe + 1) ≡ yoe) × (doe - year_start yoe < 364 + leap_day (yoe + 1)))
          ⊎ ((year_of_era (doe + 1) ≡ yoe + 1)
              × (year_start (yoe + 1) ≡ doe + 1)
              × (doe - year_start yoe ≡ 364 + leap_day (yoe + 1))))
unfolding year_of_era year_start
year_step doe h = ground arith

-- The date of a day of a year from March to February.
unfoldable pub march_date : ℕ → ℕ → CivilDate
march_date y doy =
    let mp = month_from_march doy in
    let month = if ltb mp 10 then mp + 3 else mp - 9 in
    record {
      year = y + (if leb month 2 then 1 else 0);
      month = month;
      day = doy - (153 * mp + 2) / 5 + 1;
    }

pub march_date_step : (y doy : ℕ) → doy < 364 → march_date y (doy + 1) ≡ next_day (march_date y doy)
unfolding march_date next_day month_from_march
march_date_step y doy h = ground arith
