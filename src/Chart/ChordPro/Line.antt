-- ===== src/Chart/ChordPro/Line.antt =====
-- Nothing of a line is lost by `parse_line` of crates/core/src/chart/chordpro.rs.
use aurum_presenter.Prelude.{
  ℕ, ◌≡◌, refl, sym, ap, ◌∙◌, inl, inr, Bool, true, false, ◌||◌, not, Option, none, some, List, [],
  ◌∷◌, ◌++◌, arith, ◌==◌, if◌then◌else◌, Bool-cases,
}
use aurum_presenter.Prelude.Text.{Str, is_empty}
use mathlib.Core.List.{append_assoc}
use aurum_presenter.Chart.Chord.{ChordToken, read}
use aurum_presenter.Present.Slides.{Segment}
use aurum_presenter.Chart.ChordPro.{ChartWarning, is_some, is_nil}
use aurum_presenter.Chart.ChordPro.Segments.{
  LineState, close_bracket, line_step, line_loop, unclosed, last_pushed, parse_line,
}

-- A token in its brackets.
abbrev pub bracketed : Option ChordToken → Str
bracketed none = []
bracketed (some token) = b'[' ∷ token.text ++ b']' ∷ []

-- The text that a line was read from.
abbrev pub segments_text : List Segment → Str
segments_text [] = []
segments_text (segment ∷ more) = bracketed segment.chord ++ segment.lyric ++ segments_text more

segments_text-append :
    (xs ys : List Segment) → segments_text (xs ++ ys) ≡ segments_text xs ++ segments_text ys
segments_text-append [] ys = refl
segments_text-append (x ∷ xs) ys = rw (segments_text-append xs ys) (simp append_assoc)

append_nil : (s : Str) → s ++ [] ≡ s
append_nil [] = refl
append_nil (c ∷ s) = ap (λ r. c ∷ r) (append_nil s)

abbrev open_text : Option Str → Str
open_text none = []
open_text (some inside) = b'[' ∷ inside

-- What has been read so far.
abbrev state_text : LineState → Str
state_text state =
    segments_text state.segments
    ++ (bracketed state.pending ++ (state.lyric ++ open_text state.inside))

-- A push under a test that fails only where there is nothing to push.
push_text :
    (xs : List Segment) (pending : Option ChordToken) (lyric : Str) (test : Bool)
    → (test ≡ false → bracketed pending ++ lyric ≡ [])
    → segments_text (if test then xs ++ (record { chord = pending; lyric = lyric }) ∷ [] else xs)
      ≡ segments_text xs ++ (bracketed pending ++ lyric)
push_text xs pending lyric true h = rw (segments_text-append, append_nil) refl
push_text xs pending lyric false h = rw (h refl, append_nil)

nothing_left :
    (pending : Option ChordToken) (lyric : Str)
    → not (is_empty lyric) || is_some pending ≡ false
    → bracketed pending ++ lyric ≡ []
nothing_left none [] h = refl
nothing_left none (c ∷ s) h = cc
nothing_left (some token) [] h = cc
nothing_left (some token) (c ∷ s) h = cc

nothing_last :
    (pending : Option ChordToken) (lyric : Str) (b : Bool)
    → not (is_empty lyric) || (is_some pending || b) ≡ false
    → bracketed pending ++ lyric ≡ []
nothing_last none [] b h = refl
nothing_last none (c ∷ s) b h = cc
nothing_last (some token) [] b h = cc
nothing_last (some token) (c ∷ s) b h = cc

text-read : (s : Str) → (read s).text ≡ s
unfolding read
text-read s = refl

module _ (number c : ℕ) (segments : List Segment) (pending : Option ChordToken) (lyric : Str)
    (warnings : List ChartWarning) where
  abbrev with_inside : Option Str → LineState
  with_inside inside = record {
    segments = segments;
    lyric = lyric;
    pending = pending;
    warnings = warnings;
    inside = inside;
  }

  line_step_text :
      (inside : Option Str)
      → state_text (line_step number c (with_inside inside))
        ≡ state_text (with_inside inside) ++ c ∷ []
  unfolding line_step close_bracket
  line_step_text none = elim (Bool-cases (c == b'[')) [
    | inl e ↦ (let same : c ≡ b'[' = ground arith in rw (e, same) (simp (append_assoc, append_nil)))
    | inr e ↦ rw e (simp (append_assoc, append_nil))
  ]
  line_step_text (some inside) = elim (Bool-cases (c == b']')) [
    | inl e ↦
        (let same : c ≡ b']' = ground arith in
          rw
            (
              e,
              same,
              text-read inside,
              push_text segments pending lyric _ (nothing_left pending lyric),
            )
            (simp (append_assoc, append_nil)))
    | inr e ↦ rw e (simp append_assoc)
  ]

line_loop_text :
    (number : ℕ) (s : Str) (state : LineState)
    → state_text (line_loop number s state) ≡ state_text state ++ s
unfolding line_loop
line_loop_text number [] state = sym (append_nil (state_text state))
line_loop_text number (c ∷ s) state =
    rw
      (
        line_loop_text number s (line_step number c state),
        line_step_text number c state.segments state.pending state.lyric state.warnings
            state.inside,
      )
      (simp append_assoc)

unclosed_text :
    (segments : List Segment) (pending : Option ChordToken) (lyric : Str)
    (warnings : List ChartWarning) (inside : Option Str)
    → segments_text
        (last_pushed (unclosed (with_inside 0 0 segments pending lyric warnings inside)))
      ≡ state_text (with_inside 0 0 segments pending lyric warnings inside)
unclosed_text segments pending lyric warnings none =
    rw (push_text segments pending lyric _ (nothing_last pending lyric (is_nil segments)))
      (simp append_nil)
unclosed_text segments pending lyric warnings (some inside) =
    rw
      (push_text segments pending (lyric ++ b'[' ∷ inside) _
        (nothing_last pending (lyric ++ b'[' ∷ inside) (is_nil segments)))
      refl

-- Every character of a line is in the line that is parsed, in its place: the tokens in their
-- brackets and the lyrics between them are the text, whatever the brackets in it.
pub parse_line_text :
    (text : Str) (number : ℕ) (warnings : List ChartWarning)
    → segments_text (parse_line text number warnings).0.segments ≡ text
unfolding parse_line
parse_line_text text number warnings =
    let start = with_inside 0 0 [] none [] warnings none in
    let last = line_loop number text start in
    unclosed_text last.segments last.pending last.lyric last.warnings last.inside
    ∙ line_loop_text number text start
