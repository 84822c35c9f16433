-- ===== src/Library/Validation.antt =====
-- crates/core/src/library/validation.rs: what a song has to look like before it is saved, durations, and
-- folders that are moved. Texts are counted in characters: where bytes are counted in the source, only
-- ASCII digits and signs are accepted after.
pub mod Durations
pub mod Cycles
use aurum_presenter.Prelude.{
  ℕ, zero, suc, ◌+◌, ◌-◌, ◌*◌, ◌/◌, ◌%◌, ◌≤◌, ◌<◌, min, max, ◌≡◌, refl, sym, ap, ◌∙◌, subst, ◌≢◌,
  ◌↔◌, ◌⊎◌, inl, inr, Bool, true, false, ◌&&◌, ◌||◌, not, Option, none, some, List, [], ◌∷◌, ◌++◌,
  map, arith, ltb, leb, ◌==◌, if◌then◌else◌, ltb→lt, lt→ltb, ==_iff, Bool-cases, Option-cases,
  unwrap_or, all_below, all_below_sound, length, get_elem?, get_or, take, drop, get_last?, keep,
  find, any, all, position, All, length-append, take-append-drop, length-take, length-drop,
  All-append, All-map,
}
use aurum_presenter.Prelude.Text.{
  Str, codes, str_eq, str_ltb, is_empty, str_eq-true, str_eq_refl, str_eq_iff, str_ltb_irrefl,
  str_ltb_trans, str_ltb_total, is_whitespace, trim_start, trim_end, trim, ascii_upper, ascii_lower,
  lowercase, strip_prefix, repeat, decimal,
}
use aurum_presenter.Prelude.Int.{
  ℤ, pos, negsuc, pos_part, neg_part, sub_ℕ, ◌+ℤ◌, ◌-ℤ◌, ◌≤ℤ◌, ltb_ℤ, leb_ℤ, eqb_ℤ, rem12,
  div_euclid, rem_euclid, +ℤ_parts, -ℤ_parts, eq_of_parts, int_laws, rem12-lt, rem12-add, +ℤ_assoc,
}
use aurum_presenter.Chart.Notes.{◌>>=◌}

abbrev pub max_title : ℕ
max_title = 200

pub record SongInput : Type 0 where
  pub title : Str
  pub ccli_number : Option Str
  pub tempo : Option ℤ

abbrev pub is_digit : ℕ → Bool
is_digit c = leb b'0' c && leb c b'9'

abbrev pub out_of_tempo_range : Option ℤ → Bool
out_of_tempo_range none = false
out_of_tempo_range (some tempo) = not (leb_ℤ (pos 20) tempo && leb_ℤ tempo (pos 300))

abbrev pub not_digits : Option Str → Bool
not_digits none = false
not_digits (some number) = not (is_empty number) && not (all is_digit number)

abbrev problem : Bool → Str → List Str
problem true sentence = sentence ∷ []
problem false sentence = []

unfoldable pub validate_song : SongInput → List Str
unfolding trim
validate_song input =
    problem (is_empty (trim input.title)) (codes "A title is required.")
    ++ problem (ltb max_title (length (trim input.title)))
        (codes "A title is at most 200 characters.")
    ++ problem (out_of_tempo_range input.tempo) (codes "Tempo is between 20 and 300 bpm.")
    ++ problem (not_digits input.ccli_number) (codes "A CCLI number is digits only.")

-- `split_once(':')`
unfoldable pub split_once : Str → Option (Str × Str)
split_once [] = none
split_once (c ∷ s) =
    let later = split_once s in
    if c == b':' then some ([], s) else later >>= λ parts. some (c ∷ parts.0, parts.1)

-- The number that digits write, after `n`.
unfoldable pub digits_from : ℕ → Str → Option ℕ
digits_from n [] = some n
digits_from n (c ∷ s) =
    let later = digits_from (10 * n + (c - b'0')) s in if is_digit c then later else none

unfoldable pub unsigned : Str → Option ℕ
unfolding digits_from
unsigned [] = none
unsigned (c ∷ s) = digits_from 0 (c ∷ s)

-- `parse::<i64>` of a text of few characters, with a sign or without, so that no number overflows.
unfoldable pub parse_i64 : Str → Option ℤ
unfolding unsigned
parse_i64 [] = none
parse_i64 (c ∷ s) =
    if c == b'+'
    then (unsigned s >>= λ n. some (pos n))
    else if c == b'-'
    then (unsigned s >>= λ n. some (sub_ℕ 0 n))
    else (unsigned (c ∷ s) >>= λ n. some (pos n))

abbrev pub sixty_times : ℤ → ℤ
sixty_times n = sub_ℕ (60 * pos_part n) (60 * neg_part n)

abbrev pub in_minute : ℤ → ℤ → Option ℤ
in_minute minutes seconds =
    if ltb_ℤ seconds (pos 60) then some (sixty_times minutes +ℤ seconds) else none

unfoldable pub parse_duration : Str → Option ℤ
unfolding trim split_once parse_i64 ◌+ℤ◌
parse_duration text = split_once (trim text) >>= λ parts.
    if not (leb 1 (length parts.0) && leb (length parts.0) 3) || not (length parts.1 == 2)
    then none
    else parse_i64 parts.0 >>= λ minutes. parse_i64 parts.1 >>= λ seconds. in_minute minutes seconds

abbrev pub padded : Str → Str
padded [] = []
padded (c ∷ []) = b'0' ∷ c ∷ []
padded (c ∷ d ∷ s) = c ∷ d ∷ s

abbrev pub signed : Bool → ℕ → Str
signed negative n = if negative && not (n == 0) then b'-' ∷ decimal n else decimal n

-- `/` and `%` round towards zero, and a sign counts for the width.
unfoldable pub format_duration : Option ℤ → Str
unfolding decimal
format_duration none = []
format_duration (some seconds) =
    let size = pos_part seconds + neg_part seconds in
    let negative = ltb_ℤ seconds (pos 0) in
    signed negative (size / 60) ++ b':' ∷ padded (signed negative (size % 60))

-- The parent of the folder that is found first, where it has one.
unfoldable pub parent_of : List (Str × Option Str) → Str → Option Str
unfolding str_eq
parent_of folders current =
    find (λ (folder : Str × Option Str). str_eq folder.0 current) folders >>= λ folder. folder.1

-- The `while` loop; `none` where the fuel has run out.
unfoldable pub cycle_loop : List (Str × Option Str) → Str → ℕ → List Str → Option Str → Option Bool
unfolding parent_of str_eq
cycle_loop folders id zero seen walker = none
cycle_loop folders id (suc fuel) seen none = some false
cycle_loop folders id (suc fuel) seen (some current) =
    let further = cycle_loop folders id fuel (seen ++ current ∷ []) (parent_of folders current) in
    if any (str_eq current) seen
    then some false
    else if str_eq current id
    then some true
    else further

-- A walk comes to each folder once at most, and then to one that is not in the list, to none or to one that
-- it has seen.
unfoldable pub would_cycle : List (Str × Option Str) → Str → Option Str → Option Bool
unfolding cycle_loop
would_cycle folders id none = some false
would_cycle folders id (some parent_id) =
    cycle_loop folders id (length folders + 2) [] (some parent_id)
