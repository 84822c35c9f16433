-- ===== src/Chart/ChordPro/Body.antt =====
-- `Chart::parse` of crates/core/src/chart/chordpro.rs: the loop over the lines of a body.
use aurum_presenter.Prelude.{
  ℕ, ◌+◌, Bool, false, ◌&&◌, Option, none, some, List, [], ◌∷◌, ◌++◌, ◌==◌, if◌then◌else◌,
  unwrap_or, any,
}
use aurum_presenter.Prelude.Text.{Str, codes, str_eq, trim_end}
use aurum_presenter.Present.Slides.{ChartLine}
use aurum_presenter.Present.Repeats.{plain, Section}
use aurum_presenter.Chart.ChordPro.{
  ChartError, Chart, section_kind, section_ends, meta_field, write_field, flush, directive_body,
  split_directive, split_where, unbalanced, SectionKind, MetaField,
}
use aurum_presenter.Chart.ChordPro.Segments.{parse_line}

abbrev pub starts_with : ℕ → Str → Bool
starts_with c [] = false
starts_with c (d ∷ s) = d == c

-- `replace("\r\n", "\n")`
unfoldable pub replace_crlf : Str → Str
replace_crlf [] = []
replace_crlf (c ∷ s) =
    let rest = replace_crlf s in if (c == 13) && starts_with 10 s then rest else c ∷ rest

-- `replace('\r', "\n")`
abbrev pub replace_cr : Str → Str
replace_cr [] = []
replace_cr (c ∷ s) = (if c == 13 then 10 else c) ∷ replace_cr s

unfoldable pub raw_lines : Str → List Str
unfolding replace_crlf split_where
raw_lines body = split_where (λ c. c == 10) (replace_cr (replace_crlf body))

abbrev pub comment_names : List Str
comment_names = codes "comment" ∷ codes "c" ∷ codes "ci" ∷ []

-- The chart so far, and the section that is being read.
pub record ParseState : Type 0 where
  pub chart : Chart
  pub current : Section

abbrev pub push_line : ChartLine → Section → Section
push_line line section = record section { lines = section.lines ++ line ∷ [] }

abbrev pub empty_section : Section
empty_section = record { kind = plain; label = none; lines = [] }

abbrev pub flushed : Section → ParseState → ParseState
flushed next state = record {
  chart = record state.chart { sections = flush state.chart.sections state.current };
  current = next;
}

abbrev pub comment_line : Str → ChartLine
comment_line text = record { segments = []; comment = some text }

-- A directive that is neither a field nor a comment.
abbrev pub section_step : Option SectionKind → Str → Option Str → ParseState → ParseState
section_step (some kind) name value state =
    flushed (record { kind = kind; label = value; lines = [] }) state
section_step none name value state =
    if any (str_eq name) section_ends then flushed empty_section state else state

abbrev pub field_step : Option MetaField → Str → Option Str → ParseState → ParseState
field_step (some field) name value state = record state {
  chart = record state.chart { meta = write_field field value state.chart.meta };
}
field_step none name value state =
    if any (str_eq name) comment_names
    then record state { current = push_line (comment_line (unwrap_or value [])) state.current }
    else section_step (section_kind name) name value state

unfoldable pub directive_step : Str × Option Str → ParseState → ParseState
unfolding section_kind meta_field flush str_eq
directive_step (name, value) state = field_step (meta_field name) name value state

abbrev pub error_after : ℕ → Str → Option ChartError → Option ChartError
error_after number text (some error) = some error
error_after number text none =
    if unbalanced text
    then some (record { line = number; message = codes "Unclosed [ in chord position." })
    else none

unfoldable pub text_step : ℕ → Str → ParseState → ParseState
unfolding unbalanced parse_line
text_step number text state =
    let (line, warnings) = parse_line text number state.chart.warnings in
    record {
      chart = record state.chart {
        error = error_after number text state.chart.error;
        warnings = warnings;
      };
      current = push_line line state.current;
    }

-- One round of the loop.
abbrev pub line_step : Option Str → ℕ → Str → ParseState → ParseState
line_step (some inner) number text state = directive_step (split_directive inner) state
line_step none number text state =
    if starts_with b'#' text then state else text_step number text state

unfoldable pub parse_step : ℕ → Str → ParseState → ParseState
unfolding directive_body split_directive directive_step text_step trim_end
parse_step number raw state =
    let text = trim_end raw in line_step (directive_body text) number text state

unfoldable pub parse_loop : ℕ → List Str → ParseState → ParseState
unfolding parse_step
parse_loop index [] state = state
parse_loop index (raw ∷ rest) state = parse_loop (index + 1) rest (parse_step (index + 1) raw state)

abbrev pub empty_chart : Chart
empty_chart = record {
  meta = record {
    title = none;
    subtitle = none;
    artist = none;
    key = none;
    tempo = none;
    time = none;
    capo = none;
  };
  sections = [];
  warnings = [];
  error = none;
}

unfoldable pub parse : Str → Chart
unfolding raw_lines parse_loop flush
parse body =
    let state =
      parse_loop 0 (raw_lines body) (record { chart = empty_chart; current = empty_section }) in
    record state.chart { sections = flush state.chart.sections state.current }
