-- ===== src/Report/HttpDate/Calendar.antt =====
-- `civil_from_days` against the calendar, day by day.
use riperf.Base.{
  ℕ, zero, suc, ◌+◌, ◌-◌, ◌*◌, ◌/◌, ◌%◌, ◌<◌, ◌≡◌, ◌∙◌, sym, ap, inl, inr, arith, true, ltb,
  if◌then◌else◌, Bool-cases, refl,
}
use riperf.Report.HttpDate.{
  CivilDate, year_of_era, year_start, month_from_march, civil_from_days, day_of_week, render,
  http_date,
}
use riperf.Report.HttpDate.Years.{
  is_leap, next_day, year_step, march_date, march_date_step, leap_day,
}

march_date_364 :
    (y : ℕ)
    → next_day (march_date y 364)
      ≡ (if is_leap (y + 1) then march_date y 365 else march_date (y + 1) 0)
unfolding march_date next_day month_from_march
march_date_364 y = ground arith

march_date_365 :
    (y : ℕ) → is_leap (y + 1) ≡ true → next_day (march_date y 365) ≡ march_date (y + 1) 0
unfolding march_date next_day month_from_march
march_date_365 y h = ground arith

leap_in_era : (y era : ℕ) → is_leap (y + era * 400) ≡ is_leap y
leap_in_era y era = ground arith

-- A day by its era and its day of the era.
unfoldable era_date : ℕ → ℕ → CivilDate
unfolding march_date
era_date era doe = let yoe = year_of_era doe in march_date (yoe + era * 400) (doe - year_start yoe)

civil_from_days-era_date :
    (era doe : ℕ) (days : ℕ)
    → doe < 146097
    → days + 719468 ≡ era * 146097 + doe
    → civil_from_days days ≡ era_date era doe
unfolding civil_from_days era_date
civil_from_days-era_date era doe days h e =
    let q : (days + 719468) / 146097 ≡ era = omega arith in
    let r : days + 719468 - era * 146097 ≡ doe = omega arith in rw (q, r) refl

-- Within a year, the day after `doy`, as long as the year has one.
same_year :
    (y doy : ℕ)
    → doy < 364 + leap_day (y + 1)
    → next_day (march_date y doy) ≡ march_date y (doy + 1)
same_year y doy h = elim (Bool-cases (ltb doy 364)) [
  | inl early ↦ sym (march_date_step y doy (ground arith))
  | inr late ↦
      let e : doy ≡ 364 = ground arith in
      let leap : is_leap (y + 1) ≡ true = ground arith in rw e (march_date_364 y ∙ rw leap refl)
]

-- The last day of a year.
year_end :
    (y doy : ℕ) → doy ≡ 364 + leap_day (y + 1) → next_day (march_date y doy) ≡ march_date (y + 1) 0
year_end y doy h = elim (Bool-cases (is_leap (y + 1))) [
  | inl leap ↦ let e : doy ≡ 365 = ground arith in rw e (march_date_365 y leap)
  | inr short ↦ let e : doy ≡ 364 = ground arith in rw e (march_date_364 y ∙ rw short refl)
]

leap_next : (yoe era : ℕ) → is_leap (yoe + era * 400 + 1) ≡ is_leap (yoe + 1)
leap_next yoe era =
    let e : yoe + era * 400 + 1 ≡ (yoe + 1) + era * 400 = omega arith in
    rw e (leap_in_era (yoe + 1) era)

era_date_at :
    (era doe y doy : ℕ)
    → year_of_era doe ≡ y
    → doe - year_start y ≡ doy
    → era_date era doe ≡ march_date (y + era * 400) doy
unfolding era_date
era_date_at era doe y doy p q = rw (p, q) refl

era_date_step : (era doe : ℕ) → doe < 146096 → next_day (era_date era doe) ≡ era_date era (doe + 1)
era_date_step era doe h =
    let y = year_of_era doe in
    let doy = doe - year_start y in
    let (low, split) = year_step doe h in
    let here = era_date_at era doe y doy refl refl in
    let leap = ap (λ b. 364 + (if b then 1 else 0)) (leap_next y era) in
    elim split [
      | inl (same, early) ↦
          let there = era_date_at era (doe + 1) y (doy + 1) same (omega arith) in
          ap next_day here ∙ same_year (y + era * 400) doy (rw leap early) ∙ sym there
      | inr (new, start, last) ↦
          let there = era_date_at era (doe + 1) (y + 1) 0 new (omega arith) in
          let swap : y + era * 400 + 1 ≡ y + 1 + era * 400 = omega arith in
          ap next_day here
          ∙ year_end (y + era * 400) doy (last ∙ sym leap)
          ∙ ap (λ k. march_date k 0) swap
          ∙ sym there
    ]

era_date_last : (era : ℕ) → next_day (era_date era 146096) ≡ era_date (suc era) 0
unfolding era_date year_of_era year_start
era_date_last era =
    let leap : is_leap (399 + era * 400 + 1) ≡ true = leap_next 399 era in
    let swap : 399 + era * 400 + 1 ≡ 0 + suc era * 400 = omega arith in
    year_end (399 + era * 400) 365 (rw leap refl) ∙ ap (λ k. march_date k 0) swap

civil_from_days-next : (days : ℕ) → civil_from_days (suc days) ≡ next_day (civil_from_days days)
civil_from_days-next days =
    let era = (days + 719468) / 146097 in
    let doe = (days + 719468) % 146097 in
    let below : doe < 146097 = omega arith in
    let here = civil_from_days-era_date era doe days below (omega arith) in
    elim (Bool-cases (ltb doe 146096)) [
      | inl early ↦
          let there =
            civil_from_days-era_date era (doe + 1) (suc days) (ground arith) (omega arith) in
          there ∙ sym (era_date_step era doe (ground arith)) ∙ sym (ap next_day here)
      | inr late ↦
          let last : doe ≡ 146096 = ground arith in
          let there =
            civil_from_days-era_date (suc era) 0 (suc days) (omega arith) (omega (arith, last)) in
          there ∙ sym (era_date_last era) ∙ sym (ap next_day (here ∙ ap (era_date era) last))
    ]

-- The calendar counted out: the date and the weekday (Sunday is 0) of a day since 1970-01-01, a Thursday.
pub calendar : ℕ → CivilDate
calendar zero = record { year = 1970; month = 1; day = 1 }
calendar (suc n) = next_day (calendar n)

pub weekday : ℕ → ℕ
weekday zero = 4
weekday (suc n) = (weekday n + 1) % 7

civil_from_days-calendar : (days : ℕ) → civil_from_days days ≡ calendar days
unfolding calendar
civil_from_days-calendar zero = unfold civil_from_days in refl
civil_from_days-calendar (suc days) =
    civil_from_days-next days ∙ ap next_day (civil_from_days-calendar days)

day_of_week-weekday : (days : ℕ) → day_of_week days ≡ weekday days
unfolding day_of_week weekday
day_of_week-weekday zero = refl
day_of_week-weekday (suc days) = omega (arith, day_of_week-weekday days)

-- Whatever the time, the text shows the date and the weekday that counting the days of the Gregorian
-- calendar from Thursday, 1970-01-01 gives, with its leap years, and the time of the day.
pub http_date-calendar :
    (epoch_secs : ℕ)
    → http_date epoch_secs
      ≡ render (weekday (epoch_secs / 86400)) (calendar (epoch_secs / 86400)) (epoch_secs % 86400)
unfolding http_date
http_date-calendar epoch_secs =
    let days = epoch_secs / 86400 in
    let tod = epoch_secs % 86400 in
    ap (λ d. render d (civil_from_days days) tod) (day_of_week-weekday days)
    ∙ ap (λ c. render (weekday days) c tod) (civil_from_days-calendar days)
