-- ===== src/Chart/OverLyrics.antt =====
-- crates/core/src/chart/over_lyrics.rs: chords over lyrics, as they are pasted, turned into ChordPro.
-- A label is measured in characters: where the source counts bytes, it accepts ASCII only.
pub mod Placing
pub mod Columns
pub mod Woven
use aurum_presenter.Prelude.{
  ℕ, zero, suc, ◌+◌, ◌-◌, ◌*◌, ◌/◌, ◌%◌, ◌≤◌, ◌<◌, min, max, ◌≡◌, refl, sym, ap, ◌∙◌, subst, ◌≢◌,
  ◌↔◌, ◌⊎◌, inl, inr, Bool, true, false, ◌&&◌, ◌||◌, not, Option, none, some, List, [], ◌∷◌, ◌++◌,
  map, arith, ltb, leb, ◌==◌, if◌then◌else◌, ltb→lt, lt→ltb, ==_iff, Bool-cases, Option-cases,
  unwrap_or, all_below, all_below_sound, length, get_elem?, get_or, take, drop, get_last?, keep,
  find, any, all, position, All, length-append, take-append-drop, length-take, length-drop,
  All-append, All-map,
}
use aurum_presenter.Prelude.Text.{
  Str, codes, str_eq, str_ltb, is_empty, str_eq-true, str_eq_refl, str_eq_iff, str_ltb_irrefl,
  str_ltb_trans, str_ltb_total, is_whitespace, trim_start, trim_end, trim, ascii_upper, ascii_lower,
  lowercase, strip_prefix, repeat,
}
use aurum_presenter.Prelude.Int.{
  ℤ, pos, negsuc, pos_part, neg_part, sub_ℕ, ◌+ℤ◌, ◌-ℤ◌, ◌≤ℤ◌, ltb_ℤ, leb_ℤ, eqb_ℤ, rem12,
  div_euclid, rem_euclid, +ℤ_parts, -ℤ_parts, eq_of_parts, int_laws, rem12-lt, rem12-add, +ℤ_assoc,
}
use aurum_presenter.Chart.Notes.{◌>>=◌}
use aurum_presenter.Chart.OverLyrics.Placing.{merge, positions_of}
use aurum_presenter.Chart.Chord.{parse}
use aurum_presenter.Chart.ChordPro.{split_where, name_lowercase}
use aurum_presenter.Chart.Render.{pad_to}
use aurum_presenter.Present.Texts.{join_lines}

pub data Notation : Type 0 where
  chord_pro over_lyrics ambiguous : Notation

abbrev headings : List Str
headings =
    codes "interlude"
    ∷ codes "instrumental"
    ∷ codes "prechorus"
    ∷ codes "pre-chorus"
    ∷ codes "chorus"
    ∷ codes "bridge"
    ∷ codes "ending"
    ∷ codes "intro"
    ∷ codes "outro"
    ∷ codes "verse"
    ∷ codes "tag"
    ∷ []

abbrev is_some : {A : Type 0} → Option A → Bool
is_some none = false
is_some (some a) = true

-- `split_whitespace()`
unfoldable pub split_whitespace : Str → List Str
unfolding split_where is_whitespace
split_whitespace s = keep (λ word. not (is_empty word)) (split_where is_whitespace s)

abbrev is_nil : {A : Type 0} → List A → Bool
is_nil [] = true
is_nil (x ∷ xs) = false

unfoldable pub is_chord_line : Str → Bool
unfolding split_whitespace parse
is_chord_line line =
    let tokens = split_whitespace line in
    not (is_nil tokens) && all (λ token. is_some (parse token)) tokens

-- `strip_suffix` of one character.
unfoldable pub strip_last : ℕ → Str → Option Str
strip_last c [] = none
strip_last c (d ∷ []) = if d == c then some [] else none
strip_last c (d ∷ e ∷ s) = strip_last c (e ∷ s) >>= λ r. some (d ∷ r)

abbrev without_colon : Str → Str
without_colon s = trim_end (unwrap_or (strip_last b':' s) s)

abbrev is_letter : ℕ → Bool
is_letter c = (leb b'a' c && leb c b'z') || (leb b'A' c && leb c b'Z')

abbrev is_digit : ℕ → Bool
is_digit c = leb b'0' c && leb c b'9'

-- `if bracketed { … }`, before and after the colon.
abbrev opened : Str → Option (Bool × Str)
opened [] = some (false, [])
opened (c ∷ s) = if c == b'[' then some (true, trim_start s) else some (false, c ∷ s)

abbrev closed : Bool → Str → Option Str
closed false s = some s
closed true s = strip_last b']' s >>= λ rest. some (without_colon (trim_end rest))

abbrev drop_char : ℕ → Str → Str
drop_char c s = keep (λ d. not (d == c)) s

abbrev labelled : Str → Str → Option (Str × Option Str)
labelled name label =
    let numbered = leb 1 (length label) && (leb (length label) 2 && all is_digit label) in
    let lettered = (length label == 1) && all is_letter label in
    if not (is_empty label) && (not numbered && not lettered)
    then none
    else some (drop_char b'-' name, if is_empty label then none else some label)

unfoldable pub section_heading : Str → Option (Str × Option Str)
unfolding trim trim_start trim_end strip_last ascii_lower strip_prefix
section_heading line = opened (trim line) >>= λ start.
    closed start.0 (without_colon start.1) >>= λ rest.
    let lowered = name_lowercase rest in
    find (λ heading. is_some (strip_prefix heading lowered)) headings >>= λ name.
    labelled name (trim (drop (length name) lowered))

-- Some suffix after this character passes.
abbrev after_any : ℕ → (Str → Bool) → Str → Bool
after_any c passes [] = false
after_any c passes (d ∷ s) = ((d == c) && passes s) || after_any c passes s

abbrev pub take_while : (ℕ → Bool) → Str → Str
take_while p [] = []
take_while p (c ∷ s) = if p c then c ∷ take_while p s else []

abbrev pub drop_while : (ℕ → Bool) → Str → Str
drop_while p [] = []
drop_while p (c ∷ s) = if p c then drop_while p s else c ∷ s

abbrev starts_with_any : (ℕ → Bool) → Str → Bool
starts_with_any p [] = false
starts_with_any p (c ∷ s) = p c

abbrev is_directive_start : Str → Bool
is_directive_start rest =
    let name = length (take_while (λ c. is_letter c || (c == b'_')) rest) in
    ltb 0 name
    && starts_with_any (λ c. (c == b':') || (c == b'}'))
        (drop_while (λ c. (c == b' ') || (c == 9)) (drop name rest))

unfoldable pub has_directive : Str → Bool
has_directive text = after_any b'{' is_directive_start text

abbrev is_bracketed_chord : Str → Bool
is_bracketed_chord rest =
    starts_with_any (λ c. is_letter c && leb (ascii_upper c) b'G') rest
    && any (λ c. c == b']') (take_while (λ c. not (c == 10)) (take 13 (drop 1 rest)))

unfoldable pub has_bracketed_chord : Str → Bool
unfolding ascii_upper
has_bracketed_chord text = after_any b'[' is_bracketed_chord text

unfoldable pub lines_of : Str → List Str
unfolding split_where strip_last
lines_of text = map (λ line. unwrap_or (strip_last 13 line) line) (split_where (λ c. c == 10) text)

unfoldable pub detect_notation : Str → Notation
unfolding has_directive has_bracketed_chord lines_of is_chord_line
detect_notation text =
    if has_directive text || has_bracketed_chord text
    then chord_pro
    else if any is_chord_line (lines_of text)
    then over_lyrics
    else ambiguous

unfoldable pub collapse_from : ℕ → Str → Str
collapse_from newlines [] = []
collapse_from newlines (c ∷ s) =
    let count = if c == 10 then newlines + 1 else 0 in
    let rest = collapse_from count s in if (c == 10) && ltb 2 count then rest else c ∷ rest

unfoldable pub collapse_blank_runs : Str → Str
unfolding collapse_from
collapse_blank_runs text = collapse_from 0 text

abbrev is_lyric : Str → Bool
is_lyric next =
    not (is_empty (trim next)) && (not (is_chord_line next) && not (is_some (section_heading next)))

abbrev heading_text : Str → Option Str → Str
heading_text name none = b'{' ∷ name ++ codes "}"
heading_text name (some label) = b'{' ∷ name ++ codes ": " ++ label ++ codes "}"

-- Under a line of chords: the text, and whether the next line was taken with it.
abbrev chords_over : Str → List Str → Str × Bool
chords_over line [] = (merge [] (positions_of line), false)
chords_over line (next ∷ rest) =
    if is_lyric next
    then (merge (trim_end next) (positions_of line), true)
    else (merge [] (positions_of line), false)

abbrev converted : Str → List Str → Option (Str × Option Str) → Str × Bool
converted line rest (some heading) = (heading_text heading.0 heading.1, false)
converted line rest none =
    if not (is_chord_line line) then (trim_end line, false) else chords_over line rest

-- The `while` loop; a line that was taken with the one before is passed over.
unfoldable pub convert_lines : Bool → List Str → List Str
unfolding section_heading is_chord_line merge positions_of trim trim_end
convert_lines taken [] = []
convert_lines taken (line ∷ rest) =
    let (text, takes) = converted line rest (section_heading line) in
    let later = convert_lines (not taken && takes) rest in if taken then later else text ∷ later

unfoldable pub to_chord_pro : Str → Str
unfolding convert_lines lines_of join_lines collapse_blank_runs trim
to_chord_pro text =
    trim (collapse_blank_runs (join_lines (convert_lines false (lines_of text)))) ++ 10 ∷ []
