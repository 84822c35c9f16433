-- ===== src/Chart/Render.antt =====
-- crates/core/src/chart/render.rs: the text of a chart in another key, and the rows of a line with its
-- chords over the lyrics.
pub mod Degrees
pub mod Rows
use aurum_presenter.Prelude.{
  ℕ, zero, suc, ◌+◌, ◌-◌, ◌*◌, ◌/◌, ◌%◌, ◌≤◌, ◌<◌, min, max, ◌≡◌, refl, sym, ap, ◌∙◌, subst, ◌≢◌,
  ◌↔◌, ◌⊎◌, inl, inr, Bool, true, false, ◌&&◌, ◌||◌, not, Option, none, some, List, [], ◌∷◌, ◌++◌,
  map, arith, ltb, leb, ◌==◌, if◌then◌else◌, ltb→lt, lt→ltb, ==_iff, Bool-cases, Option-cases,
  unwrap_or, all_below, all_below_sound, length, get_elem?, get_or, take, drop, get_last?, keep,
  find, any, all, position, All, length-append, take-append-drop, length-take, length-drop,
  All-append, All-map,
}
use aurum_presenter.Prelude.Text.{
  Str, codes, str_eq, str_ltb, is_empty, str_eq-true, str_eq_refl, str_eq_iff, str_ltb_irrefl,
  str_ltb_trans, str_ltb_total, is_whitespace, trim_start, trim_end, trim, ascii_upper, ascii_lower,
  lowercase, strip_prefix, repeat,
}
use aurum_presenter.Prelude.Int.{
  ℤ, pos, negsuc, pos_part, neg_part, sub_ℕ, ◌+ℤ◌, ◌-ℤ◌, ◌≤ℤ◌, ltb_ℤ, leb_ℤ, eqb_ℤ, rem12,
  div_euclid, rem_euclid, +ℤ_parts, -ℤ_parts, eq_of_parts, int_laws, rem12-lt, rem12-add, +ℤ_assoc,
}
use aurum_presenter.Chart.Notes.{Key, pitch_class}
use aurum_presenter.Chart.Notes.Moves.{transposed}
use aurum_presenter.Chart.Chord
use aurum_presenter.Chart.Chord.{ChordToken, show_chord, Chord}
use aurum_presenter.Present.Slides.{Segment, ChartLine}
use aurum_presenter.Present.Repeats.{SectionKind, Section}
use aurum_presenter.Chart.ChordPro.{Chart}

pub data Layout : Type 0 where
  inline over nashville : Layout

pub record RenderOptions : Type 0 where
  pub source : Key
  pub target : Key
  pub capo : ℤ
  pub layout : Layout

pub record RenderedSegment : Type 0 where
  pub chord : Option Str
  pub lyric : Str

pub record RenderedLine : Type 0 where
  pub segments : List RenderedSegment
  pub comment : Option Str

pub record RenderedSection : Type 0 where
  pub kind : SectionKind
  pub label : Option Str
  pub lines : List RenderedLine

pub record RenderedChart : Type 0 where
  pub sections : List RenderedSection
  pub shape_key : Key
  pub respelled : Bool

unfoldable pub shape_key_of : Key → ℤ → Key
unfolding transposed ◌-ℤ◌
shape_key_of target capo = if eqb_ℤ capo (pos 0) then target else transposed target (pos 0 -ℤ capo)

unfoldable pub semitones_of : RenderOptions → ℕ
unfolding shape_key_of pitch_class rem12 ◌-ℤ◌
semitones_of options = rem12 (
    pos (pitch_class (shape_key_of options.target options.capo).tonic)
    -ℤ pos (pitch_class options.source.tonic))

abbrev pub is_nashville : Layout → Bool
is_nashville nashville = true
is_nashville _ = false

-- The text of a token, and whether a simpler spelling was used.
abbrev pub render_chord : RenderOptions → ChordToken → Option Chord → Option Str × Bool
render_chord options token none = (some token.text, false)
render_chord options token (some chord) =
    if is_nashville options.layout
    then (some (Chord.nashville chord options.source), false)
    else let moved =
        Chord.transposed chord (pos (semitones_of options))
          (shape_key_of options.target options.capo) in
      (some (show_chord moved.chord), moved.respelled)

-- `render_token`
unfoldable pub render_token : RenderOptions → Option ChordToken → Option Str × Bool
unfolding semitones_of shape_key_of Chord.nashville show_chord Chord.transposed
render_token options none = (none, false)
render_token options (some token) = render_chord options token token.chord

unfoldable pub render_segments : RenderOptions → List Segment → List RenderedSegment × Bool
unfolding render_token
render_segments options [] = ([], false)
render_segments options (segment ∷ more) =
    let (chord, here) = render_token options segment.chord in
    let (later, there) = render_segments options more in
    ((record { chord = chord; lyric = segment.lyric }) ∷ later, here || there)

unfoldable pub render_lines : RenderOptions → List ChartLine → List RenderedLine × Bool
unfolding render_segments
render_lines options [] = ([], false)
render_lines options (line ∷ more) =
    let (segments, here) = render_segments options line.segments in
    let (later, there) = render_lines options more in
    ((record { segments = segments; comment = line.comment }) ∷ later, here || there)

unfoldable pub render_sections : RenderOptions → List Section → List RenderedSection × Bool
unfolding render_lines
render_sections options [] = ([], false)
render_sections options (section ∷ more) =
    let (lines, here) = render_lines options section.lines in
    let (later, there) = render_sections options more in
    ((record { kind = section.kind; label = section.label; lines = lines }) ∷ later, here || there)

unfoldable pub render : RenderOptions → Chart → RenderedChart
unfolding render_sections shape_key_of
render options chart =
    let (sections, respelled) = render_sections options chart.sections in
    record {
      sections = sections;
      shape_key = shape_key_of options.target options.capo;
      respelled = respelled;
    }

-- The two rows.
pub record OverLyricsRows : Type 0 where
  pub chords : Str
  pub lyrics : Str

-- `pad_to(text, columns)`
unfoldable pub pad_to : Str → ℕ → Str
pad_to text columns = text ++ repeat 32 (columns - length text)

abbrev pub lyrics_under : OverLyricsRows → Str
lyrics_under rows =
    if ltb (length rows.lyrics) (length rows.chords)
    then pad_to rows.lyrics (length rows.chords + 1)
    else rows.lyrics

-- The rows after a segment.
unfoldable pub row_step : OverLyricsRows → RenderedSegment → OverLyricsRows
unfolding pad_to
row_step rows segment = elim segment.chord [
  | none ↦ record rows { lyrics = rows.lyrics ++ segment.lyric }
  | some chord ↦
      let under = lyrics_under rows in
      record {
        chords = pad_to rows.chords (length under) ++ chord;
        lyrics = under ++ segment.lyric;
      }
]

unfoldable pub rows_from : OverLyricsRows → List RenderedSegment → OverLyricsRows
unfolding row_step
rows_from rows [] = rows
rows_from rows (segment ∷ more) = rows_from (row_step rows segment) more

unfoldable pub over_lyrics_rows : RenderedLine → OverLyricsRows
unfolding rows_from trim_end
over_lyrics_rows line =
    let rows = rows_from (record { chords = []; lyrics = [] }) line.segments in
    record { chords = trim_end rows.chords; lyrics = rows.lyrics }

unfoldable pub inline_text : List RenderedSegment → Str
inline_text [] = []
inline_text (segment ∷ more) =
    elim segment.chord [ none ↦ [] | some chord ↦ b'[' ∷ chord ++ b']' ∷ [] ]
    ++ segment.lyric
    ++ inline_text more
