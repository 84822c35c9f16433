-- ===== src/Time/Civil.antt =====
-- The dates of crates/core/src/time.rs are read back as the days that they were made from.
use aurum_presenter.Prelude.{
  ℕ, ◌+◌, ◌-◌, ◌*◌, ◌/◌, ◌≤◌, ◌<◌, ◌≡◌, refl, ap, ◌∙◌, Bool, true, ◌&&◌, some, arith, leb, ◌==◌,
  if◌then◌else◌, all_below, all_below_sound,
}
use aurum_presenter.Prelude.Int.{ℤ, pos, negsuc, ◌+ℤ◌, ◌-ℤ◌, div_euclid, rem_euclid}
use aurum_presenter.Time.{
  times, day_of_year, march_year, days_of, in_range, days_from_civil, year_of, day_in_year,
  month_index, month_of, civil_from_days, midnight, days_between,
}

year_of_lt : (doe : ℕ) → doe < 146_097 → year_of doe < 400
year_of_lt doe h = omega arith

year_start :
    (doe : ℕ) → doe < 146_097 → 365 * year_of doe + year_of doe / 4 - year_of doe / 100 ≤ doe
year_start doe h = omega arith

day_in_year_le : (doe : ℕ) → doe < 146_097 → day_in_year doe ≤ 365
day_in_year_le doe h = omega arith

abbrev date_back : ℕ → Bool
date_back day =
    let index = month_index day in
    let month = month_of index in
    let in_month = day - (153 * index + 2) / 5 + 1 in
    (day_of_year month in_month == day) && leb 1 month && leb month 12 && leb in_month 31

every_date_back : all_below 366 (λ day. date_back day) ≡ true
unfolding all_below
every_date_back = refl

date_facts :
    (x day m d : ℕ)
    → ((x == day) && leb 1 m && leb m 12 && leb d 31) ≡ true
    → (x ≡ day) × (1 ≤ m) × (m ≤ 12) × (d ≤ 31)
date_facts x day m d e = ground arith

day_of_date :
    (day : ℕ)
    → day ≤ 365
    → (day_of_year (month_of (month_index day)) (day - (153 * month_index day + 2) / 5 + 1) ≡ day)
      × (1 ≤ month_of (month_index day))
      × (month_of (month_index day) ≤ 12)
      × (day - (153 * month_index day + 2) / 5 + 1 ≤ 31)
day_of_date day h =
    date_facts _ day _ _
      (all_below_sound 366 (λ day. date_back day) day every_date_back (omega arith))

-- An integer in eras and what is left.
era_lem : (n : ℤ) → times 146_097 (div_euclid n 146_097) +ℤ pos (rem_euclid n 146_097) ≡ n
unfolding div_euclid rem_euclid ◌+ℤ◌
era_lem (pos n) = ground arith
era_lem (negsuc n) = ground arith

rem_lt : (n : ℤ) → rem_euclid n 146_097 < 146_097
unfolding rem_euclid
rem_lt (pos n) = omega arith
rem_lt (negsuc n) = omega arith

years_pos : (n year : ℕ) → pos year +ℤ times 400 (pos n) ≡ pos (year + 400 * n)
unfolding ◌+ℤ◌
years_pos n year = ground arith

years_negsuc :
    (n year : ℕ) → year < 400 → pos year +ℤ times 400 (negsuc n) ≡ negsuc (400 * n + (399 - year))
unfolding ◌+ℤ◌
years_negsuc n year h = ground arith

march_div : (era : ℤ) (year : ℕ) → year < 400 → div_euclid (pos year +ℤ times 400 era) 400 ≡ era
unfolding div_euclid
march_div (pos n) year h = rw (years_pos n year) (ap (λ q. pos q) (omega arith))
march_div (negsuc n) year h = rw (years_negsuc n year h) (ap (λ q. negsuc q) (omega arith))

march_rem : (era : ℤ) (year : ℕ) → year < 400 → rem_euclid (pos year +ℤ times 400 era) 400 ≡ year
unfolding rem_euclid
march_rem (pos n) year h = rw (years_pos n year) (omega arith)
march_rem (negsuc n) year h = rw (years_negsuc n year h) (omega arith)

-- A year that is moved by a month and moved back.
march_year_back :
    (year : ℤ) (month : ℕ) → march_year (if leb month 2 then year +ℤ pos 1 else year) month ≡ year
unfolding ◌+ℤ◌ ◌-ℤ◌
march_year_back (pos n) month = ground arith
march_year_back (negsuc n) month = ground arith

shifted_back : (d : ℤ) → (d +ℤ pos 719_468) -ℤ pos 719_468 ≡ d
unfolding ◌+ℤ◌ ◌-ℤ◌
shifted_back (pos n) = ground arith
shifted_back (negsuc n) = ground arith

-- The day of an era from its year and its day.
day_of_era_back :
    (doe : ℕ)
    → doe < 146_097
    → year_of doe * 365 + year_of doe / 4 - year_of doe / 100 + day_in_year doe ≡ doe
day_of_era_back doe h = omega arith

in_range_pos : (n last : ℕ) → 1 ≤ n → n ≤ last → in_range (pos n) last ≡ true
in_range_pos n last h top = ground arith

-- The days of a date whose March year and day of the year are known.
days_of_lem :
    (era : ℤ) (year day month in_month : ℕ) (calendar : ℤ)
    → year < 400
    → march_year calendar month ≡ pos year +ℤ times 400 era
    → day_of_year month in_month ≡ day
    → days_of calendar month in_month
      ≡ times 146_097 era +ℤ pos (year * 365 + year / 4 - year / 100 + day) -ℤ pos 719_468
unfolding days_of
days_of_lem era year day month in_month calendar h em ed =
    rw (em, ed, march_div era year h, march_rem era year h) refl

-- A month and a day in their ranges are accepted.
days_from_civil-some :
    (year : ℤ) (month day : ℕ)
    → 1 ≤ month
    → month ≤ 12
    → 1 ≤ day
    → day ≤ 31
    → days_from_civil year (pos month) (pos day) ≡ some (days_of year month day)
unfolding days_from_civil
days_from_civil-some year month day h₁ h₂ h₃ h₄ =
    rw (in_range_pos month 12 h₁ h₂, in_range_pos day 31 h₃ h₄) refl

day_back :
    (era : ℤ) (doe : ℕ)
    → doe < 146_097
    → (let year = year_of doe in
        let day = day_in_year doe in
        let month = month_of (month_index day) in
        let calendar = pos year +ℤ times 400 era in
        days_of
          (if leb month 2 then calendar +ℤ pos 1 else calendar)
          month
          (day - (153 * month_index day + 2) / 5 + 1))
      ≡ times 146_097 era +ℤ pos doe -ℤ pos 719_468
day_back era doe h =
    let (eday, _, _, _) = day_of_date (day_in_year doe) (day_in_year_le doe h) in
    days_of_lem era (year_of doe) (day_in_year doe) _ _ _ (year_of_lt doe h)
      (march_year_back (pos (year_of doe) +ℤ times 400 era)
        (month_of (month_index (day_in_year doe))))
      eday
    ∙ ap (λ n. times 146_097 era +ℤ pos n -ℤ pos 719_468) (day_of_era_back doe h)

-- The civil date of every day, before 1970 or after, is a month of 1 … 12 and a day of 1 … 31 that
-- reading the date accepts, and it is read back as the same day.
pub days_from_civil-civil_from_days :
    (days : ℤ)
    → (let (year, (month, day)) = civil_from_days days in
        days_from_civil year (pos month) (pos day))
      ≡ some days
unfolding civil_from_days
days_from_civil-civil_from_days days =
    let shifted = days +ℤ pos 719_468 in
    let doe = rem_euclid shifted 146_097 in
    let h = rem_lt shifted in
    let (_, low, high, top) = day_of_date (day_in_year doe) (day_in_year_le doe h) in
    days_from_civil-some _ _ _ low high (omega arith) top
    ∙ ap (λ d. some d)
        (day_back (div_euclid shifted 146_097) doe h
          ∙ ap (λ n. n -ℤ pos 719_468) (era_lem shifted)
          ∙ shifted_back days)

days_apart : (m n : ℤ) → div_euclid (times 86_400_000 n -ℤ times 86_400_000 m) 86_400_000 ≡ n -ℤ m
unfolding div_euclid ◌-ℤ◌
days_apart (pos m) (pos n) = ground arith
days_apart (pos m) (negsuc n) = ground arith
days_apart (negsuc m) (pos n) = ground arith
days_apart (negsuc m) (negsuc n) = ground arith

-- The days between two instants are the difference of the numbers of their days, whatever the hours.
pub days_between_lem :
    (from_ms to_ms : ℤ)
    → days_between from_ms to_ms ≡ div_euclid to_ms 86_400_000 -ℤ div_euclid from_ms 86_400_000
unfolding days_between midnight ◌-ℤ◌
days_between_lem from_ms to_ms =
    days_apart (div_euclid from_ms 86_400_000) (div_euclid to_ms 86_400_000)
