-- ===== src/Chart/Render/Rows.antt =====
-- Where `over_lyrics_rows` of crates/core/src/chart/render.rs draws a chord.
use aurum_presenter.Prelude.{
  ℕ, zero, suc, ◌+◌, ◌-◌, ◌≤◌, ◌≡◌, refl, sym, ap, inl, inr, Option, none, some, List, [], ◌∷◌,
  ◌++◌, arith, ltb, Bool-cases, length, length-append,
}
use aurum_presenter.Prelude.Text.{Str, repeat}
use mathlib.Core.List.{append_assoc}
use aurum_presenter.Chart.Render.{
  RenderedSegment, OverLyricsRows, pad_to, lyrics_under, row_step, rows_from,
}

-- The rows begin with these.
abbrev Grown : OverLyricsRows → OverLyricsRows → Type 0
Grown rows after =
    (b : Str) × (d : Str) × (after.chords ≡ rows.chords ++ b) × (after.lyrics ≡ rows.lyrics ++ d)

append_nil : (s : Str) → s ++ [] ≡ s
append_nil [] = refl
append_nil (c ∷ s) = ap (λ r. c ∷ r) (append_nil s)

length-repeat : (c n : ℕ) → length (repeat c n) ≡ n
length-repeat c zero = refl
length-repeat c (suc n) = ap (λ m. suc m) (length-repeat c n)

length-pad_to : (s : Str) (n : ℕ) → length s ≤ n → length (pad_to s n) ≡ n
unfolding pad_to
length-pad_to s n h = rw (length-append, length-repeat) (omega arith)

length-lyrics_under : (rows : OverLyricsRows) → length rows.chords ≤ length (lyrics_under rows)
length-lyrics_under rows = elim (Bool-cases (ltb (length rows.lyrics) (length rows.chords))) [
  | inl over ↦
      rw (over, length-pad_to rows.lyrics (length rows.chords + 1) (ground arith)) (omega arith)
  | inr fits ↦ rw fits (ground arith)
]

under-Grown : (rows : OverLyricsRows) → (d : Str) × (lyrics_under rows ≡ rows.lyrics ++ d)
unfolding pad_to
under-Grown rows = elim (Bool-cases (ltb (length rows.lyrics) (length rows.chords))) [
  | inl over ↦ rw over (_, refl)
  | inr fits ↦ rw fits ([], sym (append_nil rows.lyrics))
]

step-Grown :
    (rows : OverLyricsRows) (chord : Option Str) (lyric : Str)
    → Grown rows (row_step rows (record { chord = chord; lyric = lyric }))
unfolding row_step pad_to
step-Grown rows none lyric = ([], lyric, sym (append_nil rows.chords), refl)
step-Grown rows (some chord) lyric =
    let (d, e) = under-Grown rows in
    let gap = repeat 32 (length (lyrics_under rows) - length rows.chords) in
    (
      gap ++ chord,
      d ++ lyric,
      append_assoc rows.chords gap chord,
      rw e (append_assoc rows.lyrics d lyric),
    )

rows_from-Grown :
    (rows : OverLyricsRows) (segments : List RenderedSegment) → Grown rows (rows_from rows segments)
unfolding rows_from
rows_from-Grown rows [] = ([], [], sym (append_nil rows.chords), sym (append_nil rows.lyrics))
rows_from-Grown rows (segment ∷ more) =
    let (b, d, e, f) = step-Grown rows segment.chord segment.lyric in
    let (b', d', e', f') = rows_from-Grown (row_step rows segment) more in
    (
      b ++ b',
      d ++ d',
      rw (e', e) (append_assoc rows.chords b b'),
      rw (f', f) (append_assoc rows.lyrics d d'),
    )

rows_from-append :
    (rows : OverLyricsRows) (front back : List RenderedSegment)
    → rows_from rows (front ++ back) ≡ rows_from (rows_from rows front) back
unfolding rows_from
rows_from-append rows [] back = refl
rows_from-append rows (segment ∷ front) back = rows_from-append (row_step rows segment) front back

-- Every chord of a line stands over the first column of its lyric: what is left of it in the row of
-- chords is as wide as what is left of the lyric in the row below, whatever else is in the line.
pub rows_from_lem :
    (rows : OverLyricsRows) (front back : List RenderedSegment) (chord lyric : Str)
    → let found = rows_from rows (front ++ (record { chord = some chord; lyric = lyric }) ∷ back) in
      (a : Str) × (b : Str) × (c : Str) × (d : Str) × (found.chords ≡ a ++ chord ++ b)
      × (found.lyrics ≡ c ++ lyric ++ d)
      × (length a ≡ length c)
unfolding rows_from row_step
rows_from_lem rows front back chord lyric =
    let before = rows_from rows front in
    let under = lyrics_under before in
    let (b, d, e, f) =
      rows_from-Grown (row_step before (record { chord = some chord; lyric = lyric })) back in
    rw (rows_from-append rows front ((record { chord = some chord; lyric = lyric }) ∷ back)) (
      pad_to before.chords (length under),
      b,
      under,
      d,
      e,
      f,
      length-pad_to before.chords (length under) (length-lyrics_under before),
    )
