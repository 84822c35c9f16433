-- ===== src/Library/Importer.antt =====
-- crates/core/src/library/importer.rs: the import of a file that a band already owns.
pub mod Texts
pub mod Outcomes
use aurum_presenter.Prelude.{
  ℕ, zero, suc, ◌+◌, ◌-◌, ◌*◌, ◌/◌, ◌%◌, ◌≤◌, ◌<◌, min, max, ◌≡◌, refl, sym, ap, ◌∙◌, subst, ◌≢◌,
  ◌↔◌, ◌⊎◌, inl, inr, Bool, true, false, ◌&&◌, ◌||◌, not, Option, none, some, List, [], ◌∷◌, ◌++◌,
  map, arith, ltb, leb, ◌==◌, if◌then◌else◌, ltb→lt, lt→ltb, ==_iff, Bool-cases, Option-cases,
  unwrap_or, all_below, all_below_sound, length, get_elem?, get_or, take, drop, get_last?, keep,
  find, any, all, position, All, length-append, take-append-drop, length-take, length-drop,
  All-append, All-map,
}
use aurum_presenter.Prelude.Text.{
  Str, codes, str_eq, str_ltb, is_empty, str_eq-true, str_eq_refl, str_eq_iff, str_ltb_irrefl,
  str_ltb_trans, str_ltb_total, is_whitespace, trim_start, trim_end, trim, ascii_upper, ascii_lower,
  lowercase, strip_prefix, repeat, decimal,
}
use aurum_presenter.Prelude.Int.{
  ℤ, pos, negsuc, pos_part, neg_part, sub_ℕ, ◌+ℤ◌, ◌-ℤ◌, ◌≤ℤ◌, ltb_ℤ, leb_ℤ, eqb_ℤ, rem12,
  div_euclid, rem_euclid, +ℤ_parts, -ℤ_parts, eq_of_parts, int_laws, rem12-lt, rem12-add, +ℤ_assoc,
}
use mathlib.Core.Option
use aurum_presenter.Chart.Notes.{◌>>=◌, show_note}
use aurum_presenter.Chart.Chord.{Chord, ChordToken}
use aurum_presenter.Present.Slides.{Segment, ChartLine}
use aurum_presenter.Present.Repeats.{Section}
use aurum_presenter.Chart.ChordPro.{Chart, ChartError}
use aurum_presenter.Chart.ChordPro.Body.{parse}
use aurum_presenter.Chart.OverLyrics.{
  Notation, chord_pro, over_lyrics, ambiguous, detect_notation, to_chord_pro,
}
use aurum_presenter.Library.Validation.{is_digit, unsigned}

pub record ImportedSong : Type 0 where
  pub title : Str
  pub artist : Option Str
  pub original_key : Option Str
  pub tempo : Option ℤ
  pub time_signature : Option Str
  pub body : Str
  pub source_notation : Notation
  pub source_text : Option Str

pub record ImportResult : Type 0 where
  pub filename : Str
  pub song : Option ImportedSong
  pub error : Option Str

-- `char::is_control`, but for a tab and the ends of lines.
unfoldable pub is_odd_control : ℕ → Bool
is_odd_control c =
    (ltb c 32 || (leb 127 c && ltb c 160)) && not ((c == 9) || ((c == 10) || (c == 13)))

-- `rsplit_once('.')`
unfoldable pub rsplit_dot : Str → Option (Str × Str)
rsplit_dot [] = none
rsplit_dot (c ∷ s) = elim (rsplit_dot s) [
  | some parts ↦ some (c ∷ parts.0, parts.1)
  | none ↦ if c == b'.' then some ([], s) else none
]

abbrev is_alphanumeric : ℕ → Bool
is_alphanumeric c = is_digit c || ((leb b'a' c && leb c b'z') || (leb b'A' c && leb c b'Z'))

abbrev stem_of : Str → Option (Str × Str) → Str
stem_of filename none = filename
stem_of filename (some (stem, extension)) =
    if leb 1 (length extension) && (leb (length extension) 8 && all is_alphanumeric extension)
    then stem
    else filename

abbrev digits_of : Str → Str
digits_of [] = []
digits_of (c ∷ s) = if is_digit c then c ∷ digits_of s else []

abbrev trim_separators : Str → Str
trim_separators [] = []
trim_separators (c ∷ s) =
    if (c == b' ') || ((c == b'.') || ((c == b'_') || (c == b'-')))
    then trim_separators s
    else c ∷ s

unfoldable pub title_from_filename : Str → Str
unfolding rsplit_dot trim
title_from_filename filename =
    let stem = stem_of filename (rsplit_dot filename) in
    let digits = length (digits_of stem) in
    let separated = trim_separators (drop digits stem) in
    let kept =
      if ltb 0 digits && ltb (length separated) (length stem - digits) then separated else stem in
    trim (map (λ c. if c == b'_' then b' ' else c) kept)

abbrev chord_of : Option ChordToken → Option Chord
chord_of none = none
chord_of (some token) = token.chord

abbrev or_else : {A : Type 0} → Option A → Option A → Option A
or_else none b = b
or_else (some a) b = some a

abbrev segments_chord : List Segment → Option Chord
segments_chord [] = none
segments_chord (segment ∷ more) = or_else (chord_of segment.chord) (segments_chord more)

abbrev lines_chord : List ChartLine → Option Chord
lines_chord [] = none
lines_chord (line ∷ more) = or_else (segments_chord line.segments) (lines_chord more)

abbrev sections_chord : List Section → Option Chord
sections_chord [] = none
sections_chord (section ∷ more) = or_else (lines_chord section.lines) (sections_chord more)

abbrev not_lowercase : Str → Bool
not_lowercase [] = true
not_lowercase (c ∷ s) = not (leb b'a' c && leb c b'z')

abbrev passes : Option Str → Bool
passes none = false
passes (some rest) = not_lowercase rest

abbrev is_minor : Str → Bool
is_minor quality =
    passes (or_else (strip_prefix (codes "min") quality) (strip_prefix (codes "m") quality))

unfoldable pub first_chord_key : Chart → Option Str
unfolding show_note strip_prefix
first_chord_key chart = elim (sections_chord chart.sections) [
  | none ↦ none
  | some chord ↦ some (show_note chord.root ++ (if is_minor chord.quality then codes "m" else []))
]

-- `parse::<i64>` of digits
abbrev number_of : Str → Option ℕ
number_of digits = unsigned digits >>= λ n. if leb n 9_223_372_036_854_775_807 then some n else none

abbrev signed_number : Str → Option ℤ
signed_number [] = none
signed_number (c ∷ s) =
    if c == b'-'
    then Option.map (λ n. sub_ℕ 0 n) (number_of (digits_of s))
    else Option.map pos (number_of (digits_of (c ∷ s)))

unfoldable pub leading_number : Str → Option ℤ
unfolding trim_start unsigned
leading_number text = signed_number (trim_start text)

abbrev is_chord_pro : Notation → Bool
is_chord_pro chord_pro = true
is_chord_pro _ = false

-- What is read as the chart.
unfoldable pub body_of : Str → Str
unfolding detect_notation to_chord_pro
body_of text = if is_chord_pro (detect_notation text) then text else to_chord_pro text

abbrev pub failed : Str → Str → ImportResult
failed filename error = record { filename = filename; song = none; error = some error }

abbrev pub song_of : Str → Str → Chart → ImportedSong
song_of text title chart =
    let converted = not (is_chord_pro (detect_notation text)) in
    record {
      title = trim title;
      artist = chart.meta.artist;
      original_key = or_else chart.meta.key (first_chord_key chart);
      tempo = chart.meta.tempo >>= leading_number;
      time_signature = chart.meta.time;
      body = body_of text;
      source_notation = if converted then over_lyrics else chord_pro;
      source_text = if converted then some text else none;
    }

abbrev pub titled : Str → Str → Str → Chart → ImportResult
titled filename text title chart =
    if is_empty (trim title)
    then failed filename (codes "No title in the file, and none could be taken from its name.")
    else record { filename = filename; song = some (song_of text title chart); error = none }

abbrev pub charted : Str → Str → Chart → Option ChartError → ImportResult
charted filename text chart (some error) =
    failed filename (codes "Line " ++ decimal error.line ++ codes ": " ++ error.message)
charted filename text chart none =
    titled filename text (unwrap_or chart.meta.title (title_from_filename filename)) chart

unfoldable pub import_file : Str → Str → ImportResult
unfolding is_odd_control body_of parse title_from_filename trim first_chord_key leading_number
    decimal
import_file filename text =
    if is_empty (trim text)
    then failed filename (codes "The file is empty.")
    else if any is_odd_control (take 2_000 text)
    then failed filename (codes "This is not a text file.")
    else let chart = parse (body_of text) in charted filename text chart chart.error
