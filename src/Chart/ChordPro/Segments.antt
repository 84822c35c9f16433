-- ===== src/Chart/ChordPro/Segments.antt =====
-- `parse_line` of crates/core/src/chart/chordpro.rs: the segments of a line, and its warnings.
use aurum_presenter.Prelude.{
  ℕ, Bool, ◌&&◌, ◌||◌, not, Option, none, some, List, [], ◌∷◌, ◌++◌, ◌==◌, if◌then◌else◌,
}
use aurum_presenter.Prelude.Text.{Str, is_empty, trim}
use aurum_presenter.Chart.Chord.{ChordToken, read}
use aurum_presenter.Present.Slides.{Segment, ChartLine}
use aurum_presenter.Chart.ChordPro.{ChartWarning, is_nil, is_some}

-- The variables of `parse_line`, and what has been read since an open bracket.
pub record LineState : Type 0 where
  pub segments : List Segment
  pub lyric : Str
  pub pending : Option ChordToken
  pub warnings : List ChartWarning
  pub inside : Option Str

-- `if !lyric.is_empty() || pending.is_some() { segments.push(…) }`
abbrev pub pushed : LineState → List Segment
pushed state =
    if not (is_empty state.lyric) || is_some state.pending
    then state.segments ++ (record { chord = state.pending; lyric = state.lyric }) ∷ []
    else state.segments

-- A token that is not a chord, not a marker and not blank.
unfoldable pub is_unread : ChordToken → Bool
unfolding trim
is_unread token =
    not (is_some token.chord) && (not token.marker && not (is_empty (trim token.text)))

unfoldable pub close_bracket : ℕ → Str → LineState → LineState
unfolding read is_unread
close_bracket number inside state =
    let token = read inside in
    record {
      segments = pushed state;
      lyric = [];
      pending = some token;
      warnings =
          if is_unread token
          then state.warnings ++ (record { line = number; token = token.text }) ∷ []
          else state.warnings;
      inside = none;
    }

unfoldable pub line_step : ℕ → ℕ → LineState → LineState
unfolding close_bracket
line_step number c state = elim state.inside [
  | none ↦
      if c == b'['
      then record state { inside = some [] }
      else record state { lyric = state.lyric ++ c ∷ [] }
  | some inside ↦
      if c == b']'
      then close_bracket number inside state
      else record state { inside = some (inside ++ c ∷ []) }
]

unfoldable pub line_loop : ℕ → Str → LineState → LineState
unfolding line_step
line_loop number [] state = state
line_loop number (c ∷ s) state = line_loop number s (line_step number c state)

-- A bracket that nothing closes is lyric.
abbrev pub unclosed : LineState → LineState
unclosed state = elim state.inside [
  | none ↦ state
  | some inside ↦ record state { lyric = state.lyric ++ b'[' ∷ inside }
]

-- The push after the loop.
abbrev pub last_pushed : LineState → List Segment
last_pushed state =
    if not (is_empty state.lyric) || (is_some state.pending || is_nil state.segments)
    then state.segments ++ (record { chord = state.pending; lyric = state.lyric }) ∷ []
    else state.segments

unfoldable pub parse_line : Str → ℕ → List ChartWarning → ChartLine × List ChartWarning
unfolding line_loop
parse_line text number warnings =
    let state = unclosed (
      line_loop number text (record {
        segments = [];
        lyric = [];
        pending = none;
        warnings = warnings;
        inside = none;
      })) in
    (record { segments = last_pushed state; comment = none }, state.warnings)
