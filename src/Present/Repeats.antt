-- ===== src/Present/Repeats.antt =====
-- crates/core/src/present/slides.rs and crates/core/src/chart/chordpro.rs: sections, their labels, and
-- the bare sections that repeat an earlier one. The map of what was seen is keyed by a text.
use aurum_presenter.Prelude.{
  ◌≡◌, refl, ap, inl, inr, Bool, true, false, ◌&&◌, not, Option, none, some, List, [], ◌∷◌, ◌++◌,
  map, if◌then◌else◌, Bool-cases, unwrap_or, any, all,
}
use aurum_presenter.Prelude.Text.{Str, codes, is_empty, trim}
use aurum_presenter.Prelude.Dict.{lookup, insert}
use aurum_presenter.Present.Slides.{ChartLine, Segment}

pub data SectionKind : Type 0 where
  verse chorus bridge prechorus tag intro outro plain : SectionKind

pub record Section : Type 0 where
  pub kind : SectionKind
  pub label : Option Str
  pub lines : List ChartLine

unfoldable pub kind_text : SectionKind → Str
kind_text verse = codes "verse"
kind_text chorus = codes "chorus"
kind_text bridge = codes "bridge"
kind_text prechorus = codes "prechorus"
kind_text tag = codes "tag"
kind_text intro = codes "intro"
kind_text outro = codes "outro"
kind_text plain = codes "none"

unfoldable pub label_name : SectionKind → Option Str
label_name verse = some (codes "Verse")
label_name chorus = some (codes "Chorus")
label_name bridge = some (codes "Bridge")
label_name prechorus = some (codes "Pre-chorus")
label_name tag = some (codes "Tag")
label_name intro = some (codes "Intro")
label_name outro = some (codes "Outro")
label_name plain = none

abbrev labelled : Str → Option Str → Str
labelled name none = name
labelled name (some label) = name ++ codes " " ++ label

unfoldable pub label_of : Section → Option Str
unfolding label_name
label_of section = elim (label_name section.kind) [
  | none ↦ none
  | some name ↦ some (labelled name section.label)
]

abbrev is_nothing : {A : Type 0} → Option A → Bool
is_nothing none = true
is_nothing (some a) = false

-- The line carries no lyric text at all.
unfoldable pub is_chord_only : ChartLine → Bool
unfolding trim
is_chord_only line =
    is_nothing line.comment
    && all (λ (segment : Segment). is_empty (trim segment.lyric)) line.segments

unfoldable pub is_blank : ChartLine → Bool
unfolding trim
is_blank line =
    is_nothing line.comment
    && all (λ (segment : Segment). is_nothing segment.chord && is_empty (trim segment.lyric))
        line.segments

unfoldable pub section_key : Section → Str
unfolding kind_text
section_key section = kind_text section.kind ++ codes ":" ++ unwrap_or section.label []

abbrev or_else : {A : Type 0} → Option A → Option A → Option A
or_else none b = b
or_else (some a) b = some a

abbrev Seen : Type 0
Seen = List (Str × List ChartLine)

-- `match earlier`
abbrev with_earlier : Section → Option (List ChartLine) → Section
with_earlier section none = section
with_earlier section (some lines) = record {
  kind = section.kind;
  label = section.label;
  lines = lines;
}

-- The closure of `expand_repeats`: what has been seen, and the section.
unfoldable pub repeat_step : Seen → Section → Seen × Section
unfolding is_blank section_key
repeat_step seen section =
    if any (λ line. not (is_blank line)) section.lines
    then (insert (section_key section) section.lines seen, section)
    else (
      seen,
      with_earlier section (
          or_else (lookup (section_key section) seen)
            (lookup (kind_text section.kind ++ codes ":") seen)),
    )

unfoldable pub expand_from : Seen → List Section → List Section
unfolding repeat_step
expand_from seen [] = []
expand_from seen (section ∷ more) =
    let (seen', expanded) = repeat_step seen section in expanded ∷ expand_from seen' more

unfoldable pub expand_repeats : List Section → List Section
unfolding expand_from
expand_repeats sections = expand_from [] sections

abbrev pub heading : Section → SectionKind × Option Str
heading section = (section.kind, section.label)

with_earlier-heading :
    (section : Section) (o : Option (List ChartLine))
    → heading (with_earlier section o) ≡ heading section
with_earlier-heading section none = refl
with_earlier-heading section (some lines) = refl

expand_from-heading :
    (seen : Seen) (sections : List Section)
    → map heading (expand_from seen sections) ≡ map heading sections
unfolding expand_from
expand_from-heading seen [] = refl
expand_from-heading seen (section ∷ more) =
    elim (Bool-cases (any (λ line. not (is_blank line)) section.lines)) [
      | inl written ↦ rw written (
          ap (λ r. heading section ∷ r)
            (expand_from-heading (insert (section_key section) section.lines seen) more))
      | inr bare ↦
          rw (bare, expand_from-heading seen more)
            (ap (λ h. h ∷ map heading more) (with_earlier-heading section _))
    ]

-- Repeats fill in lines only: the sections are as many, of the same kinds and with the same labels.
pub expand_repeats-heading :
    (sections : List Section) → map heading (expand_repeats sections) ≡ map heading sections
unfolding expand_repeats
expand_repeats-heading sections = expand_from-heading [] sections
