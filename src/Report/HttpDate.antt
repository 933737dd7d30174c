-- ===== src/Report/HttpDate.antt =====
-- `http_date` of riperf3/src/json_report.rs. The seconds are a u64, so the days are not negative, and
-- the branch of `era` for negative days is not taken.
pub mod Years
pub mod Calendar
use riperf.Base.{
  ℕ, ◌+◌, ◌-◌, ◌*◌, ◌/◌, ◌%◌, List, [], ◌∷◌, ◌++◌, Bytes, codes, replicate, length, get_or,
  if◌then◌else◌, leb, ltb,
}
use riperf.Base.Decimal.{show_ℕ}

pub record CivilDate : Type 0 where
  pub year : ℕ
  pub month : ℕ
  pub day : ℕ

abbrev pub day_names : List Bytes
day_names =
    codes "Sun"
    ∷ codes "Mon"
    ∷ codes "Tue"
    ∷ codes "Wed"
    ∷ codes "Thu"
    ∷ codes "Fri"
    ∷ codes "Sat"
    ∷ []

abbrev pub month_names : List Bytes
month_names =
    codes "Jan"
    ∷ codes "Feb"
    ∷ codes "Mar"
    ∷ codes "Apr"
    ∷ codes "May"
    ∷ codes "Jun"
    ∷ codes "Jul"
    ∷ codes "Aug"
    ∷ codes "Sep"
    ∷ codes "Oct"
    ∷ codes "Nov"
    ∷ codes "Dec"
    ∷ []

-- The index into `DOW` of a day since the epoch.
unfoldable pub day_of_week : ℕ → ℕ
day_of_week days = (days % 7 + 4) % 7

-- The year of an era, counted from March, for a day of the era.
unfoldable pub year_of_era : ℕ → ℕ
year_of_era doe = (doe - doe / 1460 + doe / 36524 - doe / 146096) / 365

-- The day of the era on which such a year begins.
unfoldable pub year_start : ℕ → ℕ
year_start yoe = 365 * yoe + yoe / 4 - yoe / 100

-- The month, counted from March, of a day of such a year.
unfoldable pub month_from_march : ℕ → ℕ
month_from_march doy = (5 * doy + 2) / 153

unfoldable pub civil_from_days : ℕ → CivilDate
unfolding year_of_era year_start month_from_march
civil_from_days days =
    let z = days + 719468 in
    let era = z / 146097 in
    let doe = z - era * 146097 in
    let yoe = year_of_era doe in
    let doy = doe - year_start yoe in
    let mp = month_from_march doy in
    let day = doy - (153 * mp + 2) / 5 + 1 in
    let month = if ltb mp 10 then mp + 3 else mp - 9 in
    record { year = yoe + era * 400 + (if leb month 2 then 1 else 0); month = month; day = day }

-- `{:0w}`
abbrev pub padded : ℕ → ℕ → Bytes
padded w n = let s = show_ℕ n in replicate (w - length s) b'0' ++ s

-- The text of a date and of a time of day.
unfoldable pub render : ℕ → CivilDate → ℕ → Bytes
render dow date tod =
    get_or day_names dow []
    ++ codes ", "
    ++ padded 2 date.day
    ++ codes " "
    ++ get_or month_names (date.month - 1) []
    ++ codes " "
    ++ padded 4 date.year
    ++ codes " "
    ++ padded 2 (tod / 3600)
    ++ codes ":"
    ++ padded 2 (tod % 3600 / 60)
    ++ codes ":"
    ++ padded 2 (tod % 60)
    ++ codes " GMT"

unfoldable pub http_date : ℕ → Bytes
unfolding day_of_week civil_from_days render
http_date epoch_secs =
    let days = epoch_secs / 86400 in
    render (day_of_week days) (civil_from_days days) (epoch_secs % 86400)
