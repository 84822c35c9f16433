-- ===== src/Time/Parse.antt =====
-- `parse` of crates/core/src/time.rs. A text is ASCII, so that its bytes are its characters, and a
-- fraction has at most fifteen digits, so that no product overflows.
use aurum_presenter.Prelude.{
  ℕ, zero, suc, ◌-◌, ◌*◌, ◌/◌, ◌&&◌, ◌||◌, not, Option, none, some, ltb, leb, ◌==◌, if◌then◌else◌,
  length, get_or, take, drop, all,
}
use aurum_presenter.Prelude.Text.{Str, is_empty}
use aurum_presenter.Prelude.Int.{ℤ, pos, ◌+ℤ◌, ltb_ℤ}
use aurum_presenter.Chart.Notes.{◌>>=◌}
use aurum_presenter.Library.Validation.{parse_i64, unsigned, is_digit}
use aurum_presenter.Chart.OverLyrics.{take_while, drop_while}
use aurum_presenter.Time.{times, days_from_civil}

abbrev char_at : Str → ℕ → ℕ
char_at text i = get_or text i 0

-- `text.get(from..to)?.parse().ok()`
abbrev number : Str → ℕ → ℕ → Option ℤ
number text from to =
    if leb to (length text) then parse_i64 (take (to - from) (drop from text)) else none

abbrev power_10 : ℕ → ℕ
power_10 zero = 1
power_10 (suc n) = 10 * power_10 n

-- What follows the point: digits, then nothing but `Z`.
abbrev fraction : Str → Option ℕ
fraction text =
    let digits = take_while is_digit text in
    if is_empty digits
    then none
    else unsigned digits >>= λ n.
        (if all (λ c. c == b'Z') (drop_while is_digit text)
          then some (n * 1_000 / power_10 (length digits))
          else none)

abbrev millis_of : Str → Option ℕ
millis_of text =
    if length text == 19
    then some 0
    else if char_at text 19 == b'.'
    then fraction (drop 20 text)
    else if (char_at text 19 == b'Z') && (length text == 20)
    then some 0
    else none

abbrev time_of : Str → ℤ → Option ℤ
time_of text days = number text 11 13 >>= λ hour. number text 14 16 >>= λ minute.
    number text 17 19 >>= λ second.
    (if ltb_ℤ (pos 23) hour || ltb_ℤ (pos 59) minute || ltb_ℤ (pos 60) second
      then none
      else millis_of text >>= λ millis. some (
          times 1_000 (times 86_400 days +ℤ times 3_600 hour +ℤ times 60 minute +ℤ second)
          +ℤ pos millis))

unfoldable pub parse : Str → Option ℤ
unfolding days_from_civil ◌+ℤ◌
parse text =
    if ltb (length text) 10
    then none
    else if not (char_at text 4 == b'-') || not (char_at text 7 == b'-')
    then none
    else (number text 0 4 >>= λ year. number text 5 7 >>= λ month. number text 8 10 >>= λ day.
        days_from_civil year month day >>= λ days.
        (if length text == 10
          then some (times 86_400_000 days)
          else if not (char_at text 10 == b'T') && not (char_at text 10 == b' ')
          then none
          else if ltb (length text) 19
              || not (char_at text 13 == b':')
              || not (char_at text 16 == b':')
          then none
          else time_of text days))
