-- ===== src/Present/Slides/Split.antt =====
-- What split_lines of slides.rs keeps: every line, in order, on slides that hold them.
use aurum_presenter.Prelude.{
  ℕ, zero, suc, ◌+◌, ◌/◌, ◌≤◌, ◌<◌, ◌≡◌, refl, ap, inl, inr, Bool, true, false, Option, some, List,
  [], ◌∷◌, ◌++◌, arith, ltb, leb, if◌then◌else◌, ltb→lt, Bool-cases, length, take, drop, All,
  take-append-drop, length-take, length-drop,
}
use aurum_presenter.Present.Slides.{
  last_group, ChartLine, cut_from, cut_of, split_loop, split_lines,
}

abbrev pub joined : List (List ChartLine) → List ChartLine
joined [] = []
joined (group ∷ groups) = group ++ joined groups

-- A slide that shows something and has room for it.
abbrev pub Fits : ℕ → List ChartLine → Type 0
Fits per_slide group = (0 < length group) × (length group ≤ per_slide)

abbrev Within : List ChartLine → ℕ → Type 0
Within window cut = (0 < cut) × (cut ≤ length window)

if_either : (P : ℕ → Type 0) (b : Bool) (x y : ℕ) → P x → P y → P (if b then x else y)
if_either P true x y p q = p
if_either P false x y p q = q

cut_from-Within :
    (window : List ChartLine) (low n : ℕ)
    → 0 < length window
    → n ≤ length window
    → Within window (cut_from window low n)
unfolding cut_from
cut_from-Within window low zero h k = (h, omega arith)
cut_from-Within window low (suc index) h k =
    if_either (Within window) (ltb index low) (length window) _ (h, omega arith)
      (if_either (Within window) _ (suc index) (cut_from window low index) (omega arith, k)
        (cut_from-Within window low index h (omega arith)))

cut_of_lem :
    (per_slide : ℕ) (rest : List ChartLine)
    → 0 < per_slide
    → per_slide < length rest
    → (0 < cut_of per_slide rest) × (cut_of per_slide rest ≤ per_slide)
unfolding cut_of
cut_of_lem per_slide rest p l =
    let e = length-take per_slide rest (omega arith) in
    let (a, b) =
      cut_from-Within (take per_slide rest) ((per_slide + 1) / 2) (length (take per_slide rest))
        (omega arith) (omega arith) in
    (a, omega arith)

-- Some slides with all the lines of `rest` in their order, each of which fits.
abbrev pub Split : ℕ → List ChartLine → Option (List (List ChartLine)) → Type 0
Split per_slide rest answer =
    (groups : List (List ChartLine)) × (answer ≡ some groups)
    × (joined groups ≡ rest)
    × All (Fits per_slide) groups

append_nil : (xs : List ChartLine) → xs ++ [] ≡ xs
append_nil [] = refl
append_nil (y ∷ ys) = ap (λ r. y ∷ r) (append_nil ys)

last_group_lem :
    (per_slide : ℕ) (rest : List ChartLine)
    → length rest ≤ per_slide
    → Split per_slide rest (some (last_group rest))
last_group_lem per_slide [] h = ([], refl, refl, tt)
last_group_lem per_slide (x ∷ rest) h =
    ((x ∷ rest) ∷ [], refl, append_nil (x ∷ rest), ((omega arith, h), tt))

split_loop_lem :
    (per_slide : ℕ) (rest : List ChartLine) (fuel : ℕ)
    → 0 < per_slide
    → length rest < fuel
    → Split per_slide rest (split_loop per_slide rest fuel)
unfolding split_loop
split_loop_lem per_slide rest zero p f = absurd (omega arith)
split_loop_lem per_slide rest (suc fuel) p f = elim (Bool-cases (ltb per_slide (length rest))) [
  | inr few ↦ rw few (last_group_lem per_slide rest (ground arith))
  | inl many ↦
      (let l = ltb→lt per_slide (length rest) many in
        let (a, b) = cut_of_lem per_slide rest p l in
        let d = length-drop (cut_of per_slide rest) rest in
        let (groups, e, q, fits) =
          split_loop_lem per_slide (drop (cut_of per_slide rest) rest) fuel p (omega arith) in
        let t = length-take (cut_of per_slide rest) rest (omega arith) in
        rw (many, e)
          (
            take (cut_of per_slide rest) rest ∷ groups,
            refl,
            rw q (take-append-drop (cut_of per_slide rest) rest),
            ((omega arith, omega arith), fits),
          ))
]

-- Where a slide has room for a line and there are lines, splitting them ends, and gives slides that
-- hold all of them in their order: no slide is empty, and none holds more than it has room for.
pub split_lines_lem :
    (lines : List ChartLine) (per_slide : ℕ)
    → 0 < per_slide
    → 0 < length lines
    → Split per_slide lines (split_lines lines per_slide)
unfolding split_lines
split_lines_lem lines per_slide p l = elim (Bool-cases (leb (length lines) per_slide)) [
  | inl few ↦ rw few (lines ∷ [], refl, append_nil lines, ((l, ground arith), tt))
  | inr many ↦ rw many (split_loop_lem per_slide lines (length lines + 1) p (omega arith))
]
