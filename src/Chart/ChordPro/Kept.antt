-- ===== src/Chart/ChordPro/Kept.antt =====
-- Which lines of a body are lines of its chart, after `Chart::parse` of crates/core/src/chart/chordpro.rs.
use aurum_presenter.Prelude.{
  ℕ, ◌+◌, ◌≡◌, refl, sym, ap, ◌∙◌, inl, inr, true, false, not, Option, none, some, List, [], ◌∷◌,
  ◌++◌, map, if◌then◌else◌, Bool-cases, unwrap_or, any,
}
use aurum_presenter.Prelude.Text.{Str, codes, str_eq, str_eq-true, trim_end}
use mathlib.Core.List.{append_assoc}
use aurum_presenter.Present.Slides.{ChartLine}
use aurum_presenter.Present.Repeats.{SectionKind, Section}
use aurum_presenter.Chart.ChordPro.{
  ChartWarning, MetaField, section_kind, section_ends, meta_field, flush, directive_body,
  split_directive, is_plain,
}
use aurum_presenter.Chart.ChordPro.Segments.{parse_line}
use aurum_presenter.Chart.ChordPro.Body.{
  ParseState, raw_lines, comment_names, comment_line, section_step, field_step, line_step,
  directive_step, text_step, parse_step, parse_loop, parse, starts_with, empty_section, empty_chart,
}
use aurum_presenter.Chart.ChordPro.Line.{segments_text, parse_line_text}

-- The comment of a line, and the text that it was read from.
abbrev pub line_text : ChartLine → Option Str × Str
line_text line = (line.comment, segments_text line.segments)

abbrev pub section_texts : List Section → List (Option Str × Str)
section_texts [] = []
section_texts (section ∷ more) = map line_text section.lines ++ section_texts more

-- What a line of the body says: a comment, a text, or nothing that is sung.
abbrev pub said_by : Str → Option Str → List (Option Str × Str)
said_by name value =
    if any (str_eq name) comment_names then (some (unwrap_or value []), []) ∷ [] else []

abbrev said_in : Option Str → Str → List (Option Str × Str)
said_in (some inner) text = said_by (split_directive inner).0 (split_directive inner).1
said_in none text = if starts_with b'#' text then [] else (none, text) ∷ []

abbrev pub said : Str → List (Option Str × Str)
said raw = said_in (directive_body (trim_end raw)) (trim_end raw)

abbrev pub all_said : List Str → List (Option Str × Str)
all_said [] = []
all_said (raw ∷ rest) = said raw ++ all_said rest

module _ {A : Type 0} where
  append_nil : (xs : List A) → xs ++ [] ≡ xs
  append_nil [] = refl
  append_nil (x ∷ xs) = ap (λ r. x ∷ r) (append_nil xs)

section_texts-append :
    (xs ys : List Section) → section_texts (xs ++ ys) ≡ section_texts xs ++ section_texts ys
section_texts-append [] ys = refl
section_texts-append (x ∷ xs) ys = rw (section_texts-append xs ys) (simp append_assoc)

map-append :
    (xs ys : List ChartLine) → map line_text (xs ++ ys) ≡ map line_text xs ++ map line_text ys
map-append [] ys = refl
map-append (x ∷ xs) ys = ap (λ r. line_text x ∷ r) (map-append xs ys)

-- A section that is not kept has no lines.
flush_texts :
    (sections : List Section) (current : Section)
    → section_texts (flush sections current) ≡ section_texts sections ++ map line_text current.lines
unfolding flush
flush_texts sections current = by_lines current.kind current.label current.lines
  where
    by_lines :
        (kind : SectionKind) (label : Option Str) (lines : List ChartLine)
        → section_texts (flush sections (record { kind = kind; label = label; lines = lines }))
          ≡ section_texts sections ++ map line_text lines
    by_lines kind label (line ∷ lines) = rw (section_texts-append, append_nil) refl
    by_lines kind label [] = elim (Bool-cases (not (is_plain kind))) [
      | inl e ↦ rw (e, section_texts-append) (simp append_nil)
      | inr e ↦ rw (e, append_nil) refl
    ]

abbrev state_texts : ParseState → List (Option Str × Str)
state_texts state = section_texts state.chart.sections ++ map line_text state.current.lines

not_field : (name : Str) → any (str_eq name) comment_names ≡ true → meta_field name ≡ none
unfolding meta_field
not_field name h = elim (Bool-cases (str_eq name (codes "comment"))) [
  | inl e ↦ rw (str_eq-true name (codes "comment") e)
  | inr e ↦ elim (Bool-cases (str_eq name (codes "c"))) [
    | inl f ↦ rw (str_eq-true name (codes "c") f)
    | inr f ↦ elim (Bool-cases (str_eq name (codes "ci"))) [
      | inl g ↦ rw (str_eq-true name (codes "ci") g)
      | inr g ↦ (let no : false ≡ true = rw (e, f, g) at h in cc)
    ]
  ]
]

section_step_texts :
    (kind : Option SectionKind) (name : Str) (value : Option Str) (state : ParseState)
    → state_texts (section_step kind name value state) ≡ state_texts state
section_step_texts (some kind) name value state =
    append_nil _ ∙ flush_texts state.chart.sections state.current
section_step_texts none name value state = elim (Bool-cases (any (str_eq name) section_ends)) [
  | inl e ↦ rw e (append_nil _ ∙ flush_texts state.chart.sections state.current)
  | inr e ↦ rw e refl
]

-- A line at the end of the section that is being read.
pushed_texts :
    (sections : List Section) (lines : List ChartLine) (line : ChartLine)
    → section_texts sections ++ map line_text (lines ++ line ∷ [])
      ≡ section_texts sections ++ map line_text lines ++ line_text line ∷ []
pushed_texts sections lines line = rw (map-append lines (line ∷ [])) (simp append_assoc)

field_step_texts :
    (field : Option MetaField) (name : Str) (value : Option Str) (state : ParseState)
    → (any (str_eq name) comment_names ≡ true → field ≡ none)
    → state_texts (field_step field name value state) ≡ state_texts state ++ said_by name value
field_step_texts (some field) name value state h =
    elim (Bool-cases (any (str_eq name) comment_names)) [
      | inl e ↦ (let no : some field ≡ none = h e in cc)
      | inr e ↦ rw e (sym (append_nil _))
    ]
field_step_texts none name value state h = elim (Bool-cases (any (str_eq name) comment_names)) [
  | inl e ↦
      rw e
        (pushed_texts state.chart.sections state.current.lines (comment_line (unwrap_or value [])))
  | inr e ↦ rw e (section_step_texts (section_kind name) name value state ∙ sym (append_nil _))
]

directive_step_texts :
    (name : Str) (value : Option Str) (state : ParseState)
    → state_texts (directive_step (name, value) state) ≡ state_texts state ++ said_by name value
unfolding directive_step
directive_step_texts name value state =
    field_step_texts (meta_field name) name value state (not_field name)

comment_parse_line :
    (text : Str) (number : ℕ) (warnings : List ChartWarning)
    → (parse_line text number warnings).0.comment ≡ none
unfolding parse_line
comment_parse_line text number warnings = refl

text_step_texts :
    (number : ℕ) (text : Str) (state : ParseState)
    → state_texts (text_step number text state) ≡ state_texts state ++ (none, text) ∷ []
unfolding text_step
text_step_texts number text state =
    let line = (parse_line text number state.chart.warnings).0 in
    let whole : line_text line ≡ (none, text) = rw (
      comment_parse_line text number state.chart.warnings,
      parse_line_text text number state.chart.warnings,
    ) in
    pushed_texts state.chart.sections state.current.lines line
    ∙ ap (λ t. state_texts state ++ t ∷ []) whole

line_step_texts :
    (inner : Option Str) (number : ℕ) (text : Str) (state : ParseState)
    → state_texts (line_step inner number text state) ≡ state_texts state ++ said_in inner text
line_step_texts (some inner) number text state =
    directive_step_texts (split_directive inner).0 (split_directive inner).1 state
line_step_texts none number text state = elim (Bool-cases (starts_with b'#' text)) [
  | inl e ↦ rw e (sym (append_nil _))
  | inr e ↦ rw e (text_step_texts number text state)
]

parse_step_texts :
    (number : ℕ) (raw : Str) (state : ParseState)
    → state_texts (parse_step number raw state) ≡ state_texts state ++ said raw
unfolding parse_step
parse_step_texts number raw state =
    line_step_texts (directive_body (trim_end raw)) number (trim_end raw) state

parse_loop_texts :
    (index : ℕ) (lines : List Str) (state : ParseState)
    → state_texts (parse_loop index lines state) ≡ state_texts state ++ all_said lines
unfolding parse_loop
parse_loop_texts index [] state = sym (append_nil (state_texts state))
parse_loop_texts index (raw ∷ rest) state =
    rw
      (
        parse_loop_texts (index + 1) rest (parse_step (index + 1) raw state),
        parse_step_texts (index + 1) raw state,
      )
      (simp append_assoc)

-- The lines of the chart, in the order of its sections, say what the lines of the body say: every line
-- that is not a directive and does not start with `#` is there, with all its text but the blanks at its
-- end, and every comment; no line is added and none moves.
pub parse_texts : (body : Str) → section_texts (parse body).sections ≡ all_said (raw_lines body)
unfolding parse
parse_texts body =
    let start : ParseState = record { chart = empty_chart; current = empty_section } in
    let last = parse_loop 0 (raw_lines body) start in
    flush_texts last.chart.sections last.current ∙ parse_loop_texts 0 (raw_lines body) start
