-- ===== src/Time.antt =====
-- crates/core/src/time.rs: instants in milliseconds, civil dates, and the timestamps that are stored.
-- Years are exact integers. A timestamp that is read is ASCII, so that its bytes are its characters.
pub mod Civil
pub mod Parse
use aurum_presenter.Prelude.{
  ℕ, zero, suc, ◌+◌, ◌-◌, ◌*◌, ◌/◌, ◌%◌, ◌≤◌, ◌<◌, min, max, ◌≡◌, refl, sym, ap, ◌∙◌, subst, ◌≢◌,
  ◌↔◌, ◌⊎◌, inl, inr, Bool, true, false, ◌&&◌, ◌||◌, not, Option, none, some, List, [], ◌∷◌, ◌++◌,
  map, arith, ltb, leb, ◌==◌, if◌then◌else◌, ltb→lt, lt→ltb, ==_iff, Bool-cases, Option-cases,
  unwrap_or, all_below, all_below_sound, length, get_elem?, get_or, take, drop, get_last?, keep,
  find, any, all, position, All, length-append, take-append-drop, length-take, length-drop,
  All-append, All-map,
}
use aurum_presenter.Prelude.Text.{
  Str, codes, str_eq, str_ltb, is_empty, str_eq-true, str_eq_refl, str_eq_iff, str_ltb_irrefl,
  str_ltb_trans, str_ltb_total, is_whitespace, trim_start, trim_end, trim, ascii_upper, ascii_lower,
  lowercase, strip_prefix, repeat, decimal,
}
use aurum_presenter.Prelude.Int.{
  ℤ, pos, negsuc, pos_part, neg_part, sub_ℕ, ◌+ℤ◌, ◌-ℤ◌, ◌≤ℤ◌, ltb_ℤ, leb_ℤ, eqb_ℤ, rem12,
  div_euclid, rem_euclid, +ℤ_parts, -ℤ_parts, eq_of_parts, int_laws, rem12-lt, rem12-add, +ℤ_assoc,
}
use aurum_presenter.Chart.Notes.{◌>>=◌}
use aurum_presenter.Library.Validation.{parse_i64, unsigned, is_digit}

-- A number times an integer.
abbrev pub times : ℕ → ℤ → ℤ
times k n = sub_ℕ (k * pos_part n) (k * neg_part n)

-- The day of a year that begins with March, from 0.
abbrev pub day_of_year : ℕ → ℕ → ℕ
day_of_year month day = (153 * (if ltb 2 month then month - 3 else month + 9) + 2) / 5 + day - 1

abbrev pub march_year : ℤ → ℕ → ℤ
march_year year month = if leb month 2 then year -ℤ pos 1 else year

-- The days since 1970-01-01 of a date whose month and day are in range.
unfoldable pub days_of : ℤ → ℕ → ℕ → ℤ
unfolding ◌+ℤ◌ ◌-ℤ◌ div_euclid rem_euclid
days_of year month day =
    let march = march_year year month in
    let year_of_era = rem_euclid march 400 in
    let day_of_era =
      year_of_era * 365 + year_of_era / 4 - year_of_era / 100 + day_of_year month day in
    times 146_097 (div_euclid march 400) +ℤ pos day_of_era -ℤ pos 719_468

abbrev pub in_range : ℤ → ℕ → Bool
in_range n last = leb_ℤ (pos 1) n && leb_ℤ n (pos last)

unfoldable pub days_from_civil : ℤ → ℤ → ℤ → Option ℤ
unfolding days_of
days_from_civil year month day =
    if not (in_range month 12) || not (in_range day 31)
    then none
    else some (days_of year (pos_part month) (pos_part day))

-- A day of an era as the year, the month and the day, of which the year counts in the era.
abbrev pub year_of : ℕ → ℕ
year_of day_of_era =
    (day_of_era - day_of_era / 1_460 + day_of_era / 36_524 - day_of_era / 146_096) / 365

abbrev pub day_in_year : ℕ → ℕ
day_in_year day_of_era =
    let year = year_of day_of_era in day_of_era - (365 * year + year / 4 - year / 100)

abbrev pub month_index : ℕ → ℕ
month_index day = (5 * day + 2) / 153

abbrev pub month_of : ℕ → ℕ
month_of index = if ltb index 10 then index + 3 else index - 9

unfoldable pub civil_from_days : ℤ → ℤ × (ℕ × ℕ)
unfolding ◌+ℤ◌ div_euclid rem_euclid
civil_from_days days =
    let shifted = days +ℤ pos 719_468 in
    let day_of_era = rem_euclid shifted 146_097 in
    let day = day_in_year day_of_era in
    let index = month_index day in
    let month = month_of index in
    let year = pos (year_of day_of_era) +ℤ times 400 (div_euclid shifted 146_097) in
    ((if leb month 2 then year +ℤ pos 1 else year), (month, day - (153 * index + 2) / 5 + 1))

-- `midnight` and `days_between`.
unfoldable pub midnight : ℤ → ℤ
unfolding div_euclid
midnight epoch_ms = times 86_400_000 (div_euclid epoch_ms 86_400_000)

-- A difference of whole days, divided exactly.
unfoldable pub days_between : ℤ → ℤ → ℤ
unfolding div_euclid midnight ◌-ℤ◌
days_between from_ms to_ms = div_euclid (midnight to_ms -ℤ midnight from_ms) 86_400_000

-- `{:0w}`, in which a sign counts for the width.
unfoldable pub zero_padded : ℕ → ℤ → Str
unfolding decimal
zero_padded width (pos n) = repeat b'0' (width - length (decimal n)) ++ decimal n
zero_padded width (negsuc n) =
    b'-' ∷ repeat b'0' (width - 1 - length (decimal (suc n))) ++ decimal (suc n)

unfoldable pub format : ℤ → Str
unfolding civil_from_days div_euclid rem_euclid zero_padded
format epoch_ms =
    let (year, (month, day)) = civil_from_days (div_euclid epoch_ms 86_400_000) in
    let time = rem_euclid epoch_ms 86_400_000 in
    zero_padded 4 year
    ++ (b'-' ∷ zero_padded 2 (pos month)
        ++ (b'-' ∷ zero_padded 2 (pos day)
            ++ (b'T' ∷ zero_padded 2 (pos (time / 3_600_000))
                ++ (b':' ∷ zero_padded 2 (pos (time / 60_000 % 60))
                    ++ (b':' ∷ zero_padded 2 (pos (time / 1_000 % 60))
                        ++ (b'.' ∷ zero_padded 3 (pos (time % 1_000)) ++ codes "Z"))))))
