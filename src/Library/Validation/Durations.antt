-- ===== src/Library/Validation/Durations.antt =====
-- `parse_duration` of crates/core/src/library/validation.rs reads what `format_duration` writes.
use aurum_presenter.Prelude.{
  ℕ, zero, suc, ◌+◌, ◌-◌, ◌*◌, ◌/◌, ◌%◌, ◌≤◌, ◌<◌, ◌≡◌, refl, ap, ◌∙◌, inl, inr, Bool, true, false,
  ◌&&◌, ◌||◌, Option, none, some, [], ◌∷◌, ◌++◌, arith, ltb, leb, ◌==◌, Bool-cases, all_below,
  all_below_sound, length, all,
}
use aurum_presenter.Prelude.Text.{
  Str, is_whitespace, trim_start, trim_end, trim, decimal, decimal_from,
}
use aurum_presenter.Prelude.Int.{pos, ◌+ℤ◌}
use aurum_presenter.Library.Validation.{
  is_digit, split_once, digits_from, unsigned, parse_i64, parse_duration, padded, format_duration,
}

-- What a duration is written with.
abbrev is_shown : ℕ → Bool
is_shown c = is_digit c || (c == b':')

shown_lem : (c : ℕ) → is_shown c ≡ true → is_whitespace c ≡ false
unfolding is_whitespace
shown_lem c h = ground arith

trim_start-shown : (s : Str) → all is_shown s ≡ true → trim_start s ≡ s
unfolding trim_start
trim_start-shown [] h = refl
trim_start-shown (c ∷ s) h = let first : is_shown c ≡ true = ground arith in rw (shown_lem c first)

trim_end-shown : (s : Str) → all is_shown s ≡ true → trim_end s ≡ s
unfolding trim_end
trim_end-shown [] h = refl
trim_end-shown (c ∷ s) h =
    let first : is_shown c ≡ true = ground arith in
    rw (shown_lem c first) (ap (λ r. c ∷ r) (trim_end-shown s (ground arith)))

trim-shown : (s : Str) → all is_shown s ≡ true → trim s ≡ s
unfolding trim
trim-shown s h = rw (trim_start-shown s h) (trim_end-shown s h)

digits_shown :
    (s t : Str)
    → all is_digit s ≡ true
    → all is_digit t ≡ true
    → all is_shown (s ++ b':' ∷ t) ≡ true
digits_shown [] [] h k = refl
digits_shown [] (c ∷ t) h k = let later = digits_shown [] t refl (ground arith) in ground arith
digits_shown (c ∷ s) t h k = let later = digits_shown s t (ground arith) k in ground arith

split_once-digits : (s t : Str) → all is_digit s ≡ true → split_once (s ++ b':' ∷ t) ≡ some (s, t)
unfolding split_once
split_once-digits [] t h = refl
split_once-digits (c ∷ s) t h =
    let other : (c == b':') ≡ false = ground arith in
    rw (other, split_once-digits s t (ground arith))

parse_i64-digits :
    (s : Str) (n : ℕ) → all is_digit s ≡ true → unsigned s ≡ some n → parse_i64 s ≡ some (pos n)
unfolding parse_i64 unsigned
parse_i64-digits [] n h e = cc
parse_i64-digits (c ∷ s) n h e =
    let plus : (c == b'+') ≡ false = ground arith in
    let minus : (c == b'-') ≡ false = ground arith in rw (plus, minus, e)

digit_lem : (d : ℕ) → d < 10 → is_digit (48 + d) ≡ true
digit_lem d h = ground arith

digits_step :
    (k d m : ℕ) (rest : Str)
    → d < 10
    → 10 * k + d ≡ m
    → digits_from k ((48 + d) ∷ rest) ≡ digits_from m rest
unfolding digits_from
digits_step k d m rest h e =
    let value : 10 * k + (48 + d - 48) ≡ m = omega arith in
    rw (digit_lem d h) (ap (λ v. digits_from v rest) value)

digits_from-decimal :
    (fuel n : ℕ) (rest : Str)
    → n ≤ fuel
    → digits_from 0 (decimal_from fuel n rest) ≡ digits_from n rest
unfolding decimal_from
digits_from-decimal zero n rest h = digits_step 0 (n % 10) n rest (omega arith) (omega arith)
digits_from-decimal (suc fuel) n rest h = elim (Bool-cases (n / 10 == 0)) [
  | inl small ↦
      (let few : n < 10 = ground arith in
        rw small (digits_step 0 (n % 10) n rest (omega arith) (omega arith)))
  | inr large ↦ rw large (
      digits_from-decimal fuel (n / 10) ((48 + n % 10) ∷ rest) (omega arith)
      ∙ digits_step (n / 10) (n % 10) n rest (omega arith) (omega arith))
]

decimal_from-digits :
    (fuel n : ℕ) (rest : Str)
    → all is_digit rest ≡ true
    → all is_digit (decimal_from fuel n rest) ≡ true
unfolding decimal_from
decimal_from-digits zero n rest h = rw (digit_lem (n % 10) (omega arith)) h
decimal_from-digits (suc fuel) n rest h =
    let first : all is_digit ((48 + n % 10) ∷ rest) ≡ true =
      rw (digit_lem (n % 10) (omega arith)) h in
    elim (Bool-cases (n / 10 == 0)) [
      | inl small ↦ rw small first
      | inr large ↦ rw large (decimal_from-digits fuel (n / 10) ((48 + n % 10) ∷ rest) first)
    ]

power : ℕ → ℕ
power zero = 1
power (suc k) = 10 * power k

longer : (fuel n : ℕ) (rest : Str) → length rest < length (decimal_from fuel n rest)
unfolding decimal_from
longer zero n rest = omega arith
longer (suc fuel) n rest = elim (Bool-cases (n / 10 == 0)) [
  | inl small ↦ rw small (omega arith)
  | inr large ↦
      (let more = longer fuel (n / 10) ((48 + n % 10) ∷ rest) in rw large (omega (arith, more)))
]

length-decimal_from :
    (k fuel n : ℕ) (rest : Str)
    → n < 10 * power k
    → length (decimal_from fuel n rest) ≤ k + 1 + length rest
unfolding decimal_from power
length-decimal_from k zero n rest h = omega arith
length-decimal_from zero (suc fuel) n rest h =
    let small : (n / 10 == 0) ≡ true = ground arith in rw small (omega arith)
length-decimal_from (suc k) (suc fuel) n rest h = elim (Bool-cases (n / 10 == 0)) [
  | inl small ↦ rw small (omega arith)
  | inr large ↦
      (let less = length-decimal_from k fuel (n / 10) ((48 + n % 10) ∷ rest) (omega arith) in
        rw large (omega (arith, less)))
]

unsigned-decimal : (n : ℕ) → unsigned (decimal n) ≡ some n
unfolding unsigned decimal digits_from
unsigned-decimal n =
    read (decimal_from n n []) (digits_from-decimal n n [] (omega arith)) (longer n n [])
  where
    read : (s : Str) → digits_from 0 s ≡ some n → 0 < length s → unsigned s ≡ some n
    read [] e h = absurd (omega arith)
    read (c ∷ s) e h = e

abbrev is_number : ℕ → Option ℕ → Bool
is_number m none = false
is_number m (some k) = k == m

-- A part of a minute has two digits, which are read back.
abbrev reads_back : ℕ → Str → Bool
reads_back n s = (length s == 2) && (all is_digit s && is_number n (unsigned s))

part_table : all_below 60 (λ s. reads_back s (padded (decimal s))) ≡ true
unfolding all_below decimal unsigned
part_table = refl

abbrev part : ℕ → Str
part s = padded (decimal s)

part_lem :
    (s : ℕ)
    → s < 60
    → (length (part s) ≡ 2) × (all is_digit (part s) ≡ true) × (unsigned (part s) ≡ some s)
part_lem s h =
    from (part s) (all_below_sound 60 (λ n. reads_back n (padded (decimal n))) s part_table h)
  where
    from :
        (t : Str)
        → reads_back s t ≡ true
        → (length t ≡ 2) × (all is_digit t ≡ true) × (unsigned t ≡ some s)
    from t e = pick (length t == 2) (all is_digit t) (unsigned t) (λ two. ground arith) e
      where
        pick :
            (two digits : Bool) (o : Option ℕ)
            → (two ≡ true → length t ≡ 2)
            → two && (digits && is_number s o) ≡ true
            → (length t ≡ 2) × (digits ≡ true) × (o ≡ some s)
        pick true true (some k) l e = (l refl, refl, ap (λ n. some n) (ground arith))
        pick true true none l e = cc
        pick true false o l e = cc
        pick false digits o l e = cc

-- `m:ss`, as it is read.
parse_duration_parts :
    (m s : ℕ) (front back : Str)
    → all is_digit front ≡ true
    → (0 < length front) × (length front ≤ 3)
    → unsigned front ≡ some m
    → all is_digit back ≡ true
    → length back ≡ 2
    → unsigned back ≡ some s
    → s < 60
    → parse_duration (front ++ b':' ∷ back) ≡ some (pos (60 * m + s))
unfolding parse_duration ◌+ℤ◌
parse_duration_parts m s front back df (l, l') uf db lb ub h =
    let low : leb 1 (length front) ≡ true = ground arith in
    let high : leb (length front) 3 ≡ true = ground arith in
    rw
      (
        trim-shown (front ++ b':' ∷ back) (digits_shown front back df db),
        split_once-digits front back df,
        lb,
        parse_i64-digits front m df uf,
        parse_i64-digits back s db ub,
        low,
        high,
      )
      (ground arith)

format_parts : (n : ℕ) → format_duration (some (pos n)) ≡ decimal (n / 60) ++ b':' ∷ part (n % 60)
unfolding format_duration
format_parts n =
    let whole : n + 0 ≡ n = omega arith in
    let positive : ltb n 0 ≡ false = ground arith in rw (whole, positive)

-- Every duration of less than a thousand minutes is read back as it was written.
pub parse_duration-format_duration :
    (seconds : ℕ)
    → seconds < 60_000
    → parse_duration (format_duration (some (pos seconds))) ≡ some (pos seconds)
unfolding decimal power
parse_duration-format_duration seconds h =
    let (two, digits, value) = part_lem (seconds % 60) (omega arith) in
    let size = length-decimal_from 2 (seconds / 60) (seconds / 60) [] (omega arith) in
    let whole : 60 * (seconds / 60) + seconds % 60 ≡ seconds = omega arith in
    rw (format_parts seconds) (
      parse_duration_parts (seconds / 60) (seconds % 60) (decimal (seconds / 60))
        (part (seconds % 60)) (decimal_from-digits (seconds / 60) (seconds / 60) [] refl)
        (longer (seconds / 60) (seconds / 60) [], size) (unsigned-decimal (seconds / 60)) digits two
        value (omega arith)
      ∙ ap (λ n. some (pos n)) whole)
