-- ===== src/Present/Slides.antt =====
-- crates/core/src/present/slides.rs, and the lines of crates/core/src/chart/chordpro.rs: how the
-- lines of a section are split into slides.
pub mod Split
use aurum_presenter.Prelude.{
  ℕ, zero, suc, ◌+◌, ◌-◌, ◌*◌, ◌/◌, ◌%◌, ◌≤◌, ◌<◌, min, max, ◌≡◌, refl, sym, ap, ◌∙◌, subst, ◌≢◌,
  ◌↔◌, ◌⊎◌, inl, inr, Bool, true, false, ◌&&◌, ◌||◌, not, Option, none, some, List, [], ◌∷◌, ◌++◌,
  map, arith, ltb, leb, ◌==◌, if◌then◌else◌, ltb→lt, lt→ltb, ==_iff, Bool-cases, Option-cases,
  unwrap_or, all_below, all_below_sound, length, get_elem?, get_or, take, drop, get_last?, keep,
  find, any, all, position, All, length-append, take-append-drop, length-take, length-drop,
  All-append, All-map,
}
use aurum_presenter.Prelude.Text.{
  Str, codes, str_eq, str_ltb, is_empty, str_eq-true, str_eq_refl, str_eq_iff, str_ltb_irrefl,
  str_ltb_trans, str_ltb_total, is_whitespace, trim_start, trim_end, trim, ascii_upper, ascii_lower,
  lowercase, strip_prefix, repeat,
}
use aurum_presenter.Prelude.Int.{
  ℤ, pos, negsuc, pos_part, neg_part, sub_ℕ, ◌+ℤ◌, ◌-ℤ◌, ◌≤ℤ◌, ltb_ℤ, leb_ℤ, eqb_ℤ, rem12,
  div_euclid, rem_euclid, +ℤ_parts, -ℤ_parts, eq_of_parts, int_laws, rem12-lt, rem12-add, +ℤ_assoc,
}
use aurum_presenter.Chart.Chord.{ChordToken}

pub record Segment : Type 0 where
  pub chord : Option ChordToken
  pub lyric : Str

pub record ChartLine : Type 0 where
  pub segments : List Segment
  pub comment : Option Str

abbrev lyrics_of : List Segment → Str
lyrics_of [] = []
lyrics_of (segment ∷ more) = segment.lyric ++ lyrics_of more

unfoldable pub text_of : ChartLine → Str
text_of line = elim line.comment [ some comment ↦ comment | none ↦ lyrics_of line.segments ]

-- `strip_suffix('"').unwrap_or(trimmed)`
unfoldable pub strip_quote : Str → Str
strip_quote [] = []
strip_quote (c ∷ []) = if c == b'"' then [] else c ∷ []
strip_quote (c ∷ d ∷ s) = c ∷ strip_quote (d ∷ s)

abbrev is_stop : ℕ → Bool
is_stop c = (c == b'.') || ((c == b'!') || (c == b'?'))

unfoldable pub ends_sentence : ChartLine → Bool
unfolding text_of strip_quote trim_end
ends_sentence line = elim (get_last? (strip_quote (trim_end (text_of line)))) [
  | none ↦ false
  | some c ↦ is_stop c
]

-- `for index in (per_slide.div_ceil(2)..window.len()).rev()`, with the indices below `n` to go.
unfoldable pub cut_from : List ChartLine → ℕ → ℕ → ℕ
unfolding ends_sentence
cut_from window low zero = length window
cut_from window low (suc index) =
    let rest = cut_from window low index in
    if ltb index low
    then length window
    else if elim (get_elem? window index) [ none ↦ false | some line ↦ ends_sentence line ]
    then suc index
    else rest

-- Where the next slide ends.
unfoldable pub cut_of : ℕ → List ChartLine → ℕ
unfolding cut_from
cut_of per_slide rest =
    let window = take per_slide rest in cut_from window ((per_slide + 1) / 2) (length window)

abbrev push : List ChartLine → Option (List (List ChartLine)) → Option (List (List ChartLine))
push group none = none
push group (some groups) = some (group ∷ groups)

-- `if !rest.is_empty() { groups.push(rest.to_vec()); }`
abbrev pub last_group : List ChartLine → List (List ChartLine)
last_group [] = []
last_group (line ∷ rest) = (line ∷ rest) ∷ []

-- The `while` loop and the push after it; `none` where the fuel has run out.
unfoldable pub split_loop : ℕ → List ChartLine → ℕ → Option (List (List ChartLine))
unfolding cut_of
split_loop per_slide rest zero = none
split_loop per_slide rest (suc fuel) =
    let cut = cut_of per_slide rest in
    let later = split_loop per_slide (drop cut rest) fuel in
    if ltb per_slide (length rest) then push (take cut rest) later else some (last_group rest)

-- Every round takes a line at least, so one round more than there are lines is enough.
unfoldable pub split_lines : List ChartLine → ℕ → Option (List (List ChartLine))
unfolding split_loop
split_lines lines per_slide =
    if leb (length lines) per_slide
    then some (lines ∷ [])
    else split_loop per_slide lines (length lines + 1)
