-- ===== src/Chart/OverLyrics/Columns.antt =====
-- The columns that `positions_of` of crates/core/src/chart/over_lyrics.rs reads from a line of chords.
use aurum_presenter.Prelude.{
  ℕ, ◌+◌, ◌≤◌, ◌<◌, ◌≡◌, refl, sym, inl, inr, Bool, true, not, Option, none, some, [], ◌∷◌, ◌++◌,
  arith, Bool-cases, length, all, All, length-append, List, keep, ap, ◌∙◌,
}
use aurum_presenter.Prelude.Text.{Str, is_whitespace}
use mathlib.Core.List.{append_assoc}
use aurum_presenter.Chart.OverLyrics.Placing.{Placement, merge, positions_from, positions_of}
use aurum_presenter.Chart.OverLyrics.Woven.{Ascending, weave, merge-weave}

-- The chord stands in the line at its column, and has no blank in it.
abbrev pub Stands : Str → Placement → Type 0
Stands line p =
    ((before : Str) × (after : Str) × (line ≡ before ++ (p.chord ++ after))
      × (length before ≡ p.column))
    × (0 < length p.chord)
    × (all (λ c. not (is_whitespace c)) p.chord ≡ true)

all-append :
    (p : ℕ → Bool) (xs ys : Str) → all p xs ≡ true → all p ys ≡ true → all p (xs ++ ys) ≡ true
all-append p [] ys h k = k
all-append p (x ∷ xs) ys h k = let rest = all-append p xs ys (ground arith) k in ground arith

-- The placement that is being read, in front of what is left.
abbrev Reading : Str → ℕ → Option Placement → Str → Type 0
Reading line column none s = (before : Str) × (line ≡ before ++ s) × (length before ≡ column)
Reading line column (some p) s =
    ((before : Str) × (line ≡ before ++ (p.chord ++ s)) × (length before ≡ p.column))
    × (0 < length p.chord)
    × (all (λ c. not (is_whitespace c)) p.chord ≡ true)
    × (p.column + length p.chord ≡ column)

one_more : (before : Str) (c : ℕ) (n : ℕ) → length before ≡ n → length (before ++ c ∷ []) ≡ n + 1
one_more before c n e = rw length-append (omega (arith, e))

positions_from-Stands :
    (line : Str) (column : ℕ) (current : Option Placement) (s : Str)
    → Reading line column current s
    → All (Stands line) (positions_from column current s)
unfolding positions_from
positions_from-Stands line column none [] r = tt
positions_from-Stands line column (some p) [] ((before, e, w), l, b, q) =
    (((before, [], e, w), l, b), tt)
positions_from-Stands line column none (c ∷ s) (before, e, w) =
    elim (Bool-cases (is_whitespace c)) [
      | inl blank ↦ rw blank (
          positions_from-Stands line (column + 1) none s (
            before ++ c ∷ [],
            rw e (sym (append_assoc before (c ∷ []) s)),
            one_more before c column w,
          ))
      | inr mark ↦ rw mark (
          positions_from-Stands line (column + 1)
            (some (record { column = column; chord = c ∷ [] })) s
            ((before, e, w), omega arith, rw mark, omega arith))
    ]
positions_from-Stands line column (some p) (c ∷ s) ((before, e, w), l, b, q) =
    elim (Bool-cases (is_whitespace c)) [
      | inl blank ↦ rw blank (
        ((before, c ∷ s, e, w), l, b),
        positions_from-Stands line (column + 1) none s (
          before ++ (p.chord ++ c ∷ []),
          rw e (simp append_assoc),
          rw (length-append, length-append) (omega arith),
        ),
      )
      | inr mark ↦ rw mark (
          positions_from-Stands line (column + 1) (some (record p { chord = p.chord ++ c ∷ [] })) s
            (
              (before, rw e (simp append_assoc), w),
              rw length-append (omega arith),
              all-append (λ d. not (is_whitespace d)) p.chord (c ∷ []) b (rw mark),
              rw length-append (omega arith),
            ))
    ]

abbrev Starts : ℕ → Option Placement → ℕ → Type 0
Starts from none column = from ≤ column
Starts from (some p) column = (from ≤ p.column) × (p.column ≤ column)

positions_from-Ascending :
    (from column : ℕ) (current : Option Placement) (s : Str)
    → Starts from current column
    → Ascending from (positions_from column current s)
unfolding positions_from
positions_from-Ascending from column none [] h = tt
positions_from-Ascending from column (some p) [] (h, k) = (h, tt)
positions_from-Ascending from column none (c ∷ s) h = elim (Bool-cases (is_whitespace c)) [
  | inl blank ↦ rw blank (positions_from-Ascending from (column + 1) none s (omega arith))
  | inr mark ↦ rw mark (
      positions_from-Ascending from (column + 1) (some (record { column = column; chord = c ∷ [] }))
        s (h, omega arith))
]
positions_from-Ascending from column (some p) (c ∷ s) (h, k) = elim (Bool-cases (is_whitespace c)) [
  | inl blank ↦ rw blank (h, positions_from-Ascending p.column (column + 1) none s (omega arith))
  | inr mark ↦ rw mark (
      positions_from-Ascending from (column + 1) (some (record p { chord = p.chord ++ c ∷ [] })) s
        (h, omega arith))
]

positions_of-Stands :
    (line : Str) → All (Stands line) (positions_of line) × Ascending 0 (positions_of line)
unfolding positions_of
positions_of-Stands line = (
  positions_from-Stands line 0 none line ([], refl, refl),
  positions_from-Ascending 0 0 none line (omega arith),
)

-- The marks of the chords, one after the other.
abbrev pub marks_of : List Placement → Str
marks_of [] = []
marks_of (p ∷ more) = p.chord ++ marks_of more

abbrev begun : Option Placement → Str
begun none = []
begun (some p) = p.chord

abbrev pub unspaced : Str → Str
unspaced line = keep (λ c. not (is_whitespace c)) line

positions_from-marks :
    (column : ℕ) (current : Option Placement) (s : Str)
    → marks_of (positions_from column current s) ≡ begun current ++ unspaced s
unfolding positions_from
positions_from-marks column none [] = refl
positions_from-marks column (some p) [] = refl
positions_from-marks column none (c ∷ s) = elim (Bool-cases (is_whitespace c)) [
  | inl blank ↦ rw blank (positions_from-marks (column + 1) none s)
  | inr mark ↦
      rw mark
        (positions_from-marks (column + 1) (some (record { column = column; chord = c ∷ [] })) s)
]
positions_from-marks column (some p) (c ∷ s) = elim (Bool-cases (is_whitespace c)) [
  | inl blank ↦ rw blank (ap (λ r. p.chord ++ r) (positions_from-marks (column + 1) none s))
  | inr mark ↦ rw mark (
      positions_from-marks (column + 1) (some (record p { chord = p.chord ++ c ∷ [] })) s
      ∙ append_assoc p.chord (c ∷ []) (unspaced s))
]

positions_of-marks : (line : Str) → marks_of (positions_of line) ≡ unspaced line
unfolding positions_of
positions_of-marks line = positions_from-marks 0 none line

-- The chords that are read from a line stand in it, each at its column and without a blank in it, and
-- together they have every character of the line but its blanks, in order; and merged with a lyric,
-- whatever it is, each stands after as many columns of the lyric, or of blanks where the lyric has
-- ended, as it stood at in its own line.
pub merge-positions_of :
    (line lyric : Str)
    → All (Stands line) (positions_of line)
      × (marks_of (positions_of line) ≡ unspaced line)
      × (merge lyric (positions_of line) ≡ weave 0 lyric (positions_of line))
merge-positions_of line lyric =
    let (stands, ascending) = positions_of-Stands line in
    (stands, positions_of-marks line, merge-weave lyric (positions_of line) ascending)
