-- ===== src/Js/Date.antt =====
-- `new Date(ms).toISOString()`, for times since 1970 and before the year 10000.
use mach.Base.{ℕ, ◌+◌, ◌-◌, ◌*◌, ◌/◌, ◌%◌, [], ◌∷◌, leb, ltb, if◌then◌else◌}
use mach.Js.Text.{Text, slice_to}

abbrev digit : ℕ → ℕ
digit n = n % 10 + b'0'

abbrev two : ℕ → Text → Text
two n rest = digit (n / 10) ∷ digit n ∷ rest

abbrev three : ℕ → Text → Text
three n rest = digit (n / 100) ∷ two n rest

abbrev four : ℕ → Text → Text
four n rest = digit (n / 1000) ∷ three n rest

-- The proleptic Gregorian date of a day since 1970-01-01, counted in eras of 400 years that
-- begin in March: day of the era, year of the era, day of the year, month from March.
abbrev day_of_era : ℕ → ℕ
day_of_era days = (days + 719468) % 146097

abbrev year_of_era : ℕ → ℕ
year_of_era doe = (doe - doe / 1460 + doe / 36524 - doe / 146096) / 365

abbrev day_of_year : ℕ → ℕ
day_of_year doe = let y = year_of_era doe in doe - (365 * y + y / 4 - y / 100)

abbrev month_from_march : ℕ → ℕ
month_from_march doe = (5 * day_of_year doe + 2) / 153

month : ℕ → ℕ
month days = let m = month_from_march (day_of_era days) in if ltb m 10 then m + 3 else m - 9

year : ℕ → ℕ
unfolding month
year days =
    year_of_era (day_of_era days)
    + (days + 719468) / 146097 * 400
    + (if leb (month days) 2 then 1 else 0)

day : ℕ → ℕ
day days = let doe = day_of_era days in day_of_year doe - (153 * month_from_march doe + 2) / 5 + 1

-- The time of the day.
clock : ℕ → Text
clock ms =
    b'T'
    ∷ two (ms / 3600000 % 24) (
        b':'
        ∷ two (ms / 60000 % 60)
            (b':' ∷ two (ms / 1000 % 60) (b'.' ∷ three (ms % 1000) (b'Z' ∷ []))))

unfoldable pub to_iso_string : ℕ → Text
unfolding year month day clock
to_iso_string ms =
    let days = ms / 86400000 in
    four (year days) (b'-' ∷ two (month days) (b'-' ∷ two (day days) (clock ms)))

-- `new Date(ms).toISOString().slice(0, 10)`
unfoldable pub iso_day : ℕ → Text
unfolding to_iso_string
iso_day ms = slice_to 10 (to_iso_string ms)
