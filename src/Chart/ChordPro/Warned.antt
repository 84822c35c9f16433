-- ===== src/Chart/ChordPro/Warned.antt =====
-- The warnings of `parse_line` of crates/core/src/chart/chordpro.rs.
use aurum_presenter.Prelude.{
  ℕ, ◌≡◌, refl, sym, ap, inl, inr, Bool, true, false, ◌||◌, not, Option, none, some, List, [], ◌∷◌,
  ◌++◌, ◌==◌, if◌then◌else◌, Bool-cases,
}
use aurum_presenter.Prelude.Text.{Str, is_empty}
use mathlib.Core.List.{append_assoc}
use aurum_presenter.Chart.Chord.{ChordToken, read}
use aurum_presenter.Present.Slides.{Segment}
use aurum_presenter.Chart.ChordPro.{ChartWarning, is_some, is_nil}
use aurum_presenter.Chart.ChordPro.Segments.{
  LineState, is_unread, close_bracket, line_step, line_loop, unclosed, parse_line,
}

-- The warning that a token deserves.
abbrev pub unread_token : ℕ → Option ChordToken → List ChartWarning
unread_token number none = []
unread_token number (some token) =
    if is_unread token then (record { line = number; token = token.text }) ∷ [] else []

abbrev pub unread_of : ℕ → List Segment → List ChartWarning
unread_of number [] = []
unread_of number (segment ∷ more) = unread_token number segment.chord ++ unread_of number more

module _ {A : Type 0} where
  append_nil : (xs : List A) → xs ++ [] ≡ xs
  append_nil [] = refl
  append_nil (x ∷ xs) = ap (λ r. x ∷ r) (append_nil xs)

module _ (number : ℕ) where
  unread_of-append :
      (xs ys : List Segment)
      → unread_of number (xs ++ ys) ≡ unread_of number xs ++ unread_of number ys
  unread_of-append [] ys = refl
  unread_of-append (x ∷ xs) ys = rw (unread_of-append xs ys) (simp append_assoc)

  abbrev found : List Segment → Option ChordToken → List ChartWarning
  found segments pending = unread_of number segments ++ unread_token number pending

  push_found :
      (xs : List Segment) (pending : Option ChordToken) (lyric : Str) (test : Bool)
      → (test ≡ false → unread_token number pending ≡ [])
      → unread_of number
          (if test then xs ++ (record { chord = pending; lyric = lyric }) ∷ [] else xs)
        ≡ found xs pending
  push_found xs pending lyric true h = rw (unread_of-append, append_nil) refl
  push_found xs pending lyric false h = rw (h refl, append_nil)

  nothing_left :
      (pending : Option ChordToken) (lyric : Str) (b : Bool)
      → not (is_empty lyric) || (is_some pending || b) ≡ false
      → unread_token number pending ≡ []
  nothing_left none lyric b h = refl
  nothing_left (some token) [] b h = cc
  nothing_left (some token) (c ∷ s) b h = cc

  nothing_pending :
      (pending : Option ChordToken) (lyric : Str)
      → not (is_empty lyric) || is_some pending ≡ false
      → unread_token number pending ≡ []
  nothing_pending none lyric h = refl
  nothing_pending (some token) [] h = cc
  nothing_pending (some token) (c ∷ s) h = cc

  module _ (before : List ChartWarning) where
    abbrev Warned : LineState → Type 0
    Warned state = state.warnings ≡ before ++ found state.segments state.pending

    close_bracket-Warned :
        (inside : Str) (state : LineState)
        → Warned state
        → Warned (close_bracket number inside state)
    unfolding close_bracket
    close_bracket-Warned inside state h =
        rw
          (
            push_found state.segments state.pending state.lyric _
                (nothing_pending state.pending state.lyric),
            h,
          )
          (elim (Bool-cases (is_unread (read inside))) [
            | inl e ↦ rw e (simp append_assoc)
            | inr e ↦ rw e (simp append_nil)
          ])

    line_step-Warned :
        (c : ℕ) (state : LineState) → Warned state → Warned (line_step number c state)
    unfolding line_step
    line_step-Warned c state h = by_inside state.inside
      where
        by_inside :
            (inside : Option Str) → Warned (line_step number c (record state { inside = inside }))
        by_inside none = elim (Bool-cases (c == b'[')) [ inl e ↦ rw e h | inr e ↦ rw e h ]
        by_inside (some inside) = elim (Bool-cases (c == b']')) [
          | inl e ↦ rw e (close_bracket-Warned inside (record state { inside = some inside }) h)
          | inr e ↦ rw e h
        ]

    line_loop-Warned :
        (s : Str) (state : LineState) → Warned state → Warned (line_loop number s state)
    unfolding line_loop
    line_loop-Warned [] state h = h
    line_loop-Warned (c ∷ s) state h =
        line_loop-Warned s (line_step number c state) (line_step-Warned c state h)

    unclosed-Warned : (state : LineState) → Warned state → Warned (unclosed state)
    unclosed-Warned state h = by_inside state.inside
      where
        by_inside : (inside : Option Str) → Warned (unclosed (record state { inside = inside }))
        by_inside none = h
        by_inside (some inside) = h

-- The warnings of a line are the tokens in it that are neither a chord nor a marker, in their order,
-- each with the number of the line.
pub parse_line_warnings :
    (text : Str) (number : ℕ) (warnings : List ChartWarning)
    → (parse_line text number warnings).1
      ≡ warnings ++ unread_of number (parse_line text number warnings).0.segments
unfolding parse_line
parse_line_warnings text number warnings =
    let start : LineState = record {
      segments = [];
      lyric = [];
      pending = none;
      warnings = warnings;
      inside = none;
    } in
    let last = unclosed (line_loop number text start) in
    let h =
      unclosed-Warned number warnings (line_loop number text start)
        (line_loop-Warned number warnings text start (sym (append_nil warnings))) in
    rw
      (push_found number last.segments last.pending last.lyric _
        (nothing_left number last.pending last.lyric (is_nil last.segments)))
      h
