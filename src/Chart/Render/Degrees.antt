-- ===== src/Chart/Render/Degrees.antt =====
-- What a rendered chart has of the chart, after `Chart::render` of crates/core/src/chart/render.rs.
use aurum_presenter.Prelude.{◌≡◌, refl, ap, inl, inr, Option, none, some, List, [], ◌∷◌, Bool-cases}
use aurum_presenter.Prelude.Text.{Str}
use aurum_presenter.Chart.Chord.{Chord, ChordToken}
use aurum_presenter.Present.Slides.{Segment, ChartLine}
use aurum_presenter.Present.Repeats.{Section}
use aurum_presenter.Chart.ChordPro.{Chart}
use aurum_presenter.Chart.Render.{
  RenderOptions, RenderedSegment, RenderedLine, RenderedSection, render_chord, is_nashville,
  render_token, render_segments, render_lines, render_sections, render,
}
use aurum_presenter.Chart.Render

-- Two lists of one length, related in each place.
abbrev pub Pairwise : {A B : Type 0} → (A → B → Type 0) → List A → List B → Type 0
Pairwise R [] [] = Unit
Pairwise R [] (y ∷ ys) = ⊥
Pairwise R (x ∷ xs) [] = ⊥
Pairwise R (x ∷ xs) (y ∷ ys) = R x y × Pairwise R xs ys

-- A token that is not a chord is shown as it was written, and a chord is shown as some text.
abbrev ReadAs : ChordToken → Option Chord → Option Str → Type 0
ReadAs token none shown = shown ≡ some token.text
ReadAs token (some chord) shown = (text : Str) × (shown ≡ some text)

abbrev pub ShownAs : Option ChordToken → Option Str → Type 0
ShownAs none shown = shown ≡ none
ShownAs (some token) shown = ReadAs token token.chord shown

abbrev pub KeptSegment : Segment → RenderedSegment → Type 0
KeptSegment segment out = (out.lyric ≡ segment.lyric) × ShownAs segment.chord out.chord

abbrev pub KeptLine : ChartLine → RenderedLine → Type 0
KeptLine line out = (out.comment ≡ line.comment) × Pairwise KeptSegment line.segments out.segments

abbrev pub KeptSection : Section → RenderedSection → Type 0
KeptSection section out =
    (out.kind ≡ section.kind)
    × (out.label ≡ section.label)
    × Pairwise KeptLine section.lines out.lines

module _ (options : RenderOptions) where
  render_token-ShownAs : (token : Option ChordToken) → ShownAs token (render_token options token).0
  unfolding render_token
  render_token-ShownAs none = refl
  render_token-ShownAs (some token) = by_chord token.chord
    where
      by_chord : (chord : Option Chord) → ReadAs token chord (render_chord options token chord).0
      by_chord none = refl
      by_chord (some chord) = elim (Bool-cases (is_nashville options.layout)) [
        | inl e ↦ rw e (_, refl)
        | inr e ↦ rw e (_, refl)
      ]

  render_segments-Kept :
      (segments : List Segment) → Pairwise KeptSegment segments (render_segments options segments).0
  unfolding render_segments
  render_segments-Kept [] = tt
  render_segments-Kept (segment ∷ more) =
      ((refl, render_token-ShownAs segment.chord), render_segments-Kept more)

  render_lines-Kept :
      (lines : List ChartLine) → Pairwise KeptLine lines (render_lines options lines).0
  unfolding render_lines
  render_lines-Kept [] = tt
  render_lines-Kept (line ∷ more) =
      ((refl, render_segments-Kept line.segments), render_lines-Kept more)

  render_sections-Kept :
      (sections : List Section) → Pairwise KeptSection sections (render_sections options sections).0
  unfolding render_sections
  render_sections-Kept [] = tt
  render_sections-Kept (section ∷ more) =
      ((refl, refl, render_lines-Kept section.lines), render_sections-Kept more)

-- In every key, with every capo and layout, a rendered chart has the sections, the lines, the comments
-- and the lyrics of the chart, each in its place, and every token that is not a chord as it was written.
pub render-Kept :
    (options : RenderOptions) (chart : Chart)
    → Pairwise KeptSection chart.sections (render options chart).sections
unfolding render
render-Kept options chart = render_sections-Kept options chart.sections

module _ (options : RenderOptions) (other : RenderOptions) (s : options.source ≡ other.source)
    (l : options.layout ≡ Render.nashville) (m : other.layout ≡ Render.nashville) where
  same_chord :
      (token : ChordToken) (chord : Option Chord)
      → render_chord options token chord ≡ render_chord other token chord
  same_chord token none = refl
  same_chord token (some chord) = rw (l, m, s)

  same_token : (token : Option ChordToken) → render_token options token ≡ render_token other token
  unfolding render_token
  same_token none = refl
  same_token (some token) = same_chord token token.chord

  same_segments :
      (segments : List Segment) → render_segments options segments ≡ render_segments other segments
  unfolding render_segments
  same_segments [] = refl
  same_segments (segment ∷ more) = rw (same_token segment.chord, same_segments more)

  same_lines : (lines : List ChartLine) → render_lines options lines ≡ render_lines other lines
  unfolding render_lines
  same_lines [] = refl
  same_lines (line ∷ more) = rw (same_segments line.segments, same_lines more)

  same_sections :
      (sections : List Section) → render_sections options sections ≡ render_sections other sections
  unfolding render_sections
  same_sections [] = refl
  same_sections (section ∷ more) = rw (same_lines section.lines, same_sections more)

  -- By degrees a chart is the same whatever key is wanted and whatever capo is fitted.
  pub render_degrees :
      (chart : Chart) → (render options chart).sections ≡ (render other chart).sections
  unfolding render
  render_degrees chart = ap (λ r. r.0) (same_sections chart.sections)
