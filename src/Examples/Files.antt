-- ===== src/Examples/Files.antt =====
-- A chart that is pasted, imported, shown and rendered, at concrete inputs: crates/core/src/chart,
-- crates/core/src/library and the slides of crates/core/src/present.
use aurum_presenter.Prelude.{
  ◌≡◌, refl, false, Option, none, some, List, [], ◌∷◌, ◌++◌, arith, length, All, true,
}
use aurum_presenter.Prelude.Text.{Str, codes}
use aurum_presenter.Prelude.Int.{pos, negsuc, ◌+ℤ◌, div_euclid, rem_euclid}
use aurum_presenter.Chart.Notes.{Key, letter_c, letter_g}
use aurum_presenter.Chart.ChordPro.Segments.{parse_line}
use aurum_presenter.Chart.ChordPro.Body.{parse, raw_lines}
use aurum_presenter.Chart.ChordPro.Line.{segments_text, parse_line_text}
use aurum_presenter.Chart.ChordPro.Kept.{section_texts, all_said, parse_texts}
use aurum_presenter.Chart.Render.{RenderOptions, RenderedSegment, over, render, rows_from}
use aurum_presenter.Chart.Render.Degrees.{Pairwise, KeptSection, render-Kept}
use aurum_presenter.Chart.Render.Rows.{rows_from_lem}
use aurum_presenter.Chart.OverLyrics.Placing.{merge, positions_of}
use aurum_presenter.Chart.OverLyrics.Woven.{weave}
use aurum_presenter.Chart.OverLyrics.Columns.{Stands, marks_of, unspaced, merge-positions_of}
use aurum_presenter.Present.Snapshot.{Snapshot, slides}
use aurum_presenter.Present.Snapshot.Lines.{Shows, all_sung, slides-Shows}
use aurum_presenter.Time.{civil_from_days, days_from_civil, format}
use aurum_presenter.Time.Civil.{days_from_civil-civil_from_days}
use aurum_presenter.Ids.{is_uuid, uuidv7, minted_at}
use aurum_presenter.Ids.Minted.{minted_at-uuidv7}
use aurum_presenter.Library.Validation.{parse_duration, format_duration, would_cycle}
use aurum_presenter.Library.Validation.Durations.{parse_duration-format_duration}
use aurum_presenter.Library.Validation.Cycles.{Decided, would_cycle-Decided}
use aurum_presenter.Library.Importer.{import_file}
use aurum_presenter.Library.Importer.Outcomes.{Outcome, import_file-Outcome}

abbrev line : Str
line = codes "[G]Amazing [x[grace [D"

parse_line_text_example : segments_text (parse_line line 3 []).0.segments ≡ line
parse_line_text_example = parse_line_text line 3 []

abbrev body : Str
body =
    codes
      "{title: Grace}\n{verse: 1}\n[G]Amazing [C]grace\n# a note\n{c: softly}\n{chorus}\nHow sweet\n"

parse_texts_example : section_texts (parse body).sections ≡ all_said (raw_lines body)
parse_texts_example = parse_texts body

abbrev in_c : Key
in_c = record { tonic = record { letter = letter_c; alter = pos 0 }; minor = false }

abbrev in_g : Key
in_g = record { tonic = record { letter = letter_g; alter = pos 0 }; minor = false }

abbrev over_in_c : RenderOptions
over_in_c = record { source = in_g; target = in_c; capo = pos 0; layout = over }

render-Kept_example :
    Pairwise KeptSection (parse body).sections (render over_in_c (parse body)).sections
render-Kept_example = render-Kept over_in_c (parse body)

abbrev sung : Str → RenderedSegment
sung lyric = record { chord = some (codes "Gsus4"); lyric = lyric }

rows_from_lem_example :
    let found =
      rows_from
        (record { chords = []; lyrics = [] })
        (sung (codes "a") ∷ []
          ++ (record { chord = some (codes "D"); lyric = codes "way" }) ∷ []) in
    (a : Str) × (b : Str) × (u : Str) × (v : Str) × (found.chords ≡ a ++ codes "D" ++ b)
    × (found.lyrics ≡ u ++ codes "way" ++ v)
    × (length a ≡ length u)
rows_from_lem_example =
    rows_from_lem (record { chords = []; lyrics = [] }) (sung (codes "a") ∷ []) [] (codes "D")
      (codes "way")

-- Two chords, of which the first is exactly as wide as its lyric, are drawn without a blank between them.
touching :
    (rows_from (record { chords = []; lyrics = [] }) (sung (codes "Amaze") ∷ sung [] ∷ [])).chords
    ≡ codes "Gsus4Gsus4"
unfolding rows_from
touching = refl

abbrev chords : Str
chords = codes "G   C      D"

merge-positions_of_example :
    All (Stands chords) (positions_of chords)
    × (marks_of (positions_of chords) ≡ unspaced chords)
    × (merge (codes "Amazing") (positions_of chords)
        ≡ weave 0 (codes "Amazing") (positions_of chords))
merge-positions_of_example = merge-positions_of chords (codes "Amazing")

abbrev set : Snapshot
set = record {
  set_id = none;
  set_name = codes "Sunday";
  items =
      (record {
        item_id = codes "1";
        song_id = none;
        title = codes "Grace";
        body = some body;
        written_key = some (codes "G");
        set_key = none;
        capo = pos 0;
        item_type = none;
        content = none;
        note = none;
        sheet_id = none;
        sheet_pages = none;
      })
      ∷ [];
  taken_at = [];
}

slides-Shows_example : Shows 2 (all_sung set.items) (slides 2 set)
slides-Shows_example = slides-Shows 2 set (omega arith)

parse_duration-format_duration_example :
    parse_duration (format_duration (some (pos 245))) ≡ some (pos 245)
parse_duration-format_duration_example = parse_duration-format_duration 245 (omega arith)

-- A sign is read as a part of a number.
signed_duration : parse_duration (codes "4:-5") ≡ some (pos 235)
unfolding parse_duration
signed_duration = refl

-- Two folders, each of which has the other as its parent.
abbrev looped : List (Str × Option Str)
looped = (codes "a", some (codes "b")) ∷ (codes "b", some (codes "a")) ∷ []

would_cycle-Decided_example :
    Decided looped
      (codes "c")
      (some (codes "a"))
      (would_cycle looped (codes "c") (some (codes "a")))
would_cycle-Decided_example = would_cycle-Decided looped (codes "c") (some (codes "a"))

import_file-Outcome_example :
    Outcome (codes "01 - Grace.txt") body (import_file (codes "01 - Grace.txt") body)
import_file-Outcome_example = import_file-Outcome (codes "01 - Grace.txt") body

-- The bytes 1 to 10 are the randomness.
minted_at-uuidv7_example :
    let id = uuidv7 1_757_332_200_123 (1 ∷ 2 ∷ 3 ∷ 4 ∷ 5 ∷ 6 ∷ 7 ∷ 8 ∷ 9 ∷ 10 ∷ []) in
    (is_uuid id ≡ true) × (minted_at id ≡ some 1_757_332_200_123)
minted_at-uuidv7_example = minted_at-uuidv7 1_757_332_200_123 1 2 3 4 5 6 7 8 9 10 (omega arith) (
  omega arith,
  (
    omega arith,
    (
      omega arith,
      (
        omega arith,
        (
          omega arith,
          (omega arith, (omega arith, (omega arith, (omega arith, (omega arith, tt))))),
        ),
      ),
    ),
  ),
)

-- The day before the leap day of the year 0, long before 1970.
days_from_civil-civil_from_days_example :
    (let (year, (month, day)) = civil_from_days (negsuc 719_469) in
      days_from_civil year (pos month) (pos day))
    ≡ some (negsuc 719_469)
days_from_civil-civil_from_days_example = days_from_civil-civil_from_days (negsuc 719_469)

dated : civil_from_days (negsuc 719_469) ≡ (pos 0, (2, 28))
unfolding civil_from_days ◌+ℤ◌ div_euclid rem_euclid
dated = refl

-- `writes_a_fixed_width_utc_timestamp`.
written : format (pos 1_757_332_200_123) ≡ codes "2025-09-08T11:50:00.123Z"
unfolding format
written = refl
