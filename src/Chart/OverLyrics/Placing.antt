-- ===== src/Chart/OverLyrics/Placing.antt =====
-- crates/core/src/chart/over_lyrics.rs: the columns of the chords of a line, and the lyric that they are put in.
use aurum_presenter.Prelude.{
  ℕ, ◌+◌, Option, none, some, List, [], ◌∷◌, ◌++◌, if◌then◌else◌, take, drop,
}
use aurum_presenter.Prelude.Text.{Str, is_whitespace}
use aurum_presenter.Chart.Render.{pad_to}

pub record Placement : Type 0 where
  pub column : ℕ
  pub chord : Str

abbrev pub onto : Option Placement → List Placement → List Placement
onto none placements = placements
onto (some placement) placements = placement ∷ placements

abbrev pub lengthened : ℕ → ℕ → Option Placement → Placement
lengthened column c none = record { column = column; chord = c ∷ [] }
lengthened column c (some placement) = record placement { chord = placement.chord ++ c ∷ [] }

-- The walk of `positions_of`, from a column on with the placement that is being read.
unfoldable pub positions_from : ℕ → Option Placement → Str → List Placement
unfolding is_whitespace
positions_from column current [] = onto current []
positions_from column current (c ∷ s) =
    let blank = is_whitespace c in
    let later =
      positions_from (column + 1) (if blank then none else some (lengthened column c current)) s in
    if blank then onto current later else later

unfoldable pub positions_of : Str → List Placement
unfolding positions_from
positions_of line = positions_from 0 none line

abbrev pub bracket : Str → Str
bracket chord = b'[' ∷ chord ++ b']' ∷ []

-- `splice` at a column, after the padding.
unfoldable pub put_chord : Placement → Str → Str
unfolding pad_to
put_chord placement result =
    let padded = pad_to result placement.column in
    take placement.column padded ++ bracket placement.chord ++ drop placement.column padded

-- The placements from the right.
unfoldable pub merge : Str → List Placement → Str
unfolding put_chord
merge lyric [] = lyric
merge lyric (placement ∷ more) = put_chord placement (merge lyric more)
