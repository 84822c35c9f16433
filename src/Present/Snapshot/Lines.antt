-- ===== src/Present/Snapshot/Lines.antt =====
-- What the slides of a set show, after `Snapshot::slides` of crates/core/src/present/slides.rs.
use aurum_presenter.Prelude.{
  ℕ, zero, suc, ◌+◌, ◌≤◌, ◌<◌, ◌≡◌, refl, ap, inl, inr, Bool, true, false, Option, none, some, List,
  [], ◌∷◌, ◌++◌, arith, if◌then◌else◌, Bool-cases, unwrap_or, length, All, All-append,
}
use aurum_presenter.Prelude.Text.{Str, codes, is_empty, trim, decimal}
use mathlib.Core.List.{append_assoc}
use aurum_presenter.Present.Texts.{lyrics, blank}
use aurum_presenter.Present.Slides.{ChartLine}
use aurum_presenter.Present.Slides.Split.{joined, Fits, split_lines_lem}
use aurum_presenter.Present.Repeats.{Section, label_of, expand_repeats}
use aurum_presenter.Chart.ChordPro.Body.{parse}
use aurum_presenter.Present.Snapshot.{
  Slide, SnapshotItem, Snapshot, base_of, id_of, text_slides, content_slides, plain_slides,
  sheet_slides, group_slides, filled, is_word, shown_lines, lines_slides, section_slides, both,
  song_slides, charted, item_slides, slides_from, slides,
}

abbrev pub slide_lines : List Slide → List ChartLine
slide_lines [] = []
slide_lines (slide ∷ more) = slide.lines ++ slide_lines more

abbrev pub section_lines : List Section → List ChartLine
section_lines [] = []
section_lines (section ∷ more) = shown_lines section ++ section_lines more

-- The lines of a set item that are sung: those of its chart that are not blank, with the repeats
-- written out, where it has a chart and no sheet is shown in its place.
abbrev sung_chart : SnapshotItem → Option Str → List ChartLine
sung_chart item (some sheet_id) = []
sung_chart item none = section_lines (expand_repeats (parse (unwrap_or item.body [])).sections)

unfoldable pub sung : SnapshotItem → List ChartLine
unfolding trim
sung item = if is_empty (trim (unwrap_or item.body [])) then [] else sung_chart item item.sheet_id

abbrev pub all_sung : List SnapshotItem → List ChartLine
all_sung [] = []
all_sung (item ∷ more) = sung item ++ all_sung more

slide_lines-append :
    (xs ys : List Slide) → slide_lines (xs ++ ys) ≡ slide_lines xs ++ slide_lines ys
slide_lines-append [] ys = refl
slide_lines-append (x ∷ xs) ys = rw (slide_lines-append xs ys) (simp append_assoc)

-- The slides that an answer has show these lines, and each has room for its own.
abbrev pub Shows : ℕ → List ChartLine → Option (List Slide) → Type 0
Shows per_slide lines answer =
    (found : List Slide) × (answer ≡ some found)
    × (slide_lines found ≡ lines)
    × All (λ (slide : Slide). length slide.lines ≤ per_slide) found

-- Slides without lines.
abbrev Bare : List Slide → Type 0
Bare found = All (λ (slide : Slide). slide.lines ≡ []) found

Bare-Shows : (per_slide : ℕ) (found : List Slide) → Bare found → Shows per_slide [] (some found)
Bare-Shows per_slide found h = (found, refl, no_lines found h, room found h)
  where
    no_lines : (xs : List Slide) → Bare xs → slide_lines xs ≡ []
    no_lines [] a = refl
    no_lines (x ∷ xs) (e, a) = rw (e, no_lines xs a)

    room : (xs : List Slide) → Bare xs → All (λ (slide : Slide). length slide.lines ≤ per_slide) xs
    room [] a = tt
    room (x ∷ xs) (e, a) = (rw e (omega arith), room xs a)

both-Shows :
    (per_slide : ℕ) (xs ys : List ChartLine) (front back : Option (List Slide))
    → Shows per_slide xs front
    → Shows per_slide ys back
    → Shows per_slide (xs ++ ys) (both front back)
both-Shows per_slide xs ys front back (a, e, p, q) (b, f, r, s) =
    rw (e, f) (a ++ b, refl, rw (slide_lines-append a b, p, r), All-append _ a b q s)

group_slides-Shows :
    (per_slide : ℕ) (base : Slide) (prefix : Str) (part : ℕ) (groups : List (List ChartLine))
    → All (Fits per_slide) groups
    → Shows per_slide (joined groups) (some (group_slides base prefix part groups))
group_slides-Shows per_slide base prefix part [] a = ([], refl, refl, tt)
group_slides-Shows per_slide base prefix part (group ∷ more) ((_, fits), a) =
    let (found, e, p, q) = group_slides-Shows per_slide base prefix (part + 1) more a in
    let same : group_slides base prefix (part + 1) more ≡ found = cc in
    (
      (record base { id = prefix ++ decimal part; lines = group }) ∷ found,
      rw same,
      ap (λ r. group ++ r) p,
      (fits, q),
    )

lines_slides-Shows :
    (per_slide : ℕ) (base : Slide) (prefix : Str) (lines : List ChartLine)
    → 0 < per_slide
    → Shows per_slide lines (lines_slides per_slide base prefix lines)
lines_slides-Shows per_slide base prefix [] p = ([], refl, refl, tt)
lines_slides-Shows per_slide base prefix (line ∷ more) p =
    let (groups, f, g, fits) = split_lines_lem (line ∷ more) per_slide p (omega arith) in
    rw (f, ← g) (group_slides-Shows per_slide base prefix 0 groups fits)

section_slides-Shows :
    (per_slide : ℕ) (base : Slide) (index section_index : ℕ) (section : Section)
    → 0 < per_slide
    → Shows per_slide
        (shown_lines section)
        (section_slides per_slide base index section_index section)
unfolding section_slides
section_slides-Shows per_slide base index section_index section p =
    lines_slides-Shows per_slide (record base { kind = lyrics; label = label_of section })
      (id_of index (decimal section_index ++ b'-' ∷ [])) (shown_lines section) p

song_slides-Shows :
    (per_slide : ℕ) (base : Slide) (index section_index : ℕ) (sections : List Section)
    → 0 < per_slide
    → Shows per_slide
        (section_lines sections)
        (song_slides per_slide base index section_index sections)
unfolding song_slides
song_slides-Shows per_slide base index section_index [] p = ([], refl, refl, tt)
song_slides-Shows per_slide base index section_index (section ∷ more) p =
    both-Shows per_slide _ _ _ _ (section_slides-Shows per_slide base index section_index section p)
      (song_slides-Shows per_slide base index (section_index + 1) more p)

text_slides-Bare :
    (base : Slide) (index part : ℕ) (texts : List Str)
    → base.lines ≡ []
    → Bare (text_slides base index part texts)
text_slides-Bare base index part [] e = tt
text_slides-Bare base index part (t ∷ more) e = (e, text_slides-Bare base index (part + 1) more e)

sheet_slides-Bare :
    (base : Slide) (index : ℕ) (sheet_id : Str) (page pages : ℕ)
    → base.lines ≡ []
    → Bare (sheet_slides base index sheet_id page pages)
unfolding sheet_slides
sheet_slides-Bare base index sheet_id page zero e = tt
sheet_slides-Bare base index sheet_id page (suc pages) e =
    (e, sheet_slides-Bare base index sheet_id (page + 1) pages e)

content_slides-Bare :
    (base : Slide) (per_slide index : ℕ) (content : Option Str)
    → base.lines ≡ []
    → Bare (content_slides base per_slide index content)
content_slides-Bare base per_slide index none e = (e, tt)
content_slides-Bare base per_slide index (some content) e = text_slides-Bare base index 0 _ e

plain_slides-Bare :
    (per_slide index : ℕ) (item : SnapshotItem) → Bare (plain_slides per_slide index item)
unfolding plain_slides
plain_slides-Bare per_slide index item = by_test (is_word (codes "blank") item.item_type)
  where
    by_test :
        (b : Bool)
        → Bare (
            if b
            then (record (base_of item) { id = id_of index (codes "blank"); kind = blank }) ∷ []
            else content_slides (base_of item) per_slide index (filled item.content))
    by_test true = (refl, tt)
    by_test false = content_slides-Bare (base_of item) per_slide index (filled item.content) refl

charted-Shows :
    (per_slide index : ℕ) (item : SnapshotItem) (sheet_id : Option Str)
    → 0 < per_slide
    → Shows per_slide (sung_chart item sheet_id) (charted per_slide index item sheet_id)
charted-Shows per_slide index item (some sheet_id) p =
    Bare-Shows per_slide _ (sheet_slides-Bare (base_of item) index sheet_id 1 _ refl)
charted-Shows per_slide index item none p = song_slides-Shows per_slide (base_of item) index 0 _ p

item_slides-Shows :
    (per_slide index : ℕ) (item : SnapshotItem)
    → 0 < per_slide
    → Shows per_slide (sung item) (item_slides per_slide index item)
unfolding item_slides sung
item_slides-Shows per_slide index item p =
    elim (Bool-cases (is_empty (trim (unwrap_or item.body [])))) [
      | inl e ↦ rw e (Bare-Shows per_slide _ (plain_slides-Bare per_slide index item))
      | inr e ↦ rw e (charted-Shows per_slide index item item.sheet_id p)
    ]

slides_from-Shows :
    (per_slide index : ℕ) (items : List SnapshotItem)
    → 0 < per_slide
    → Shows per_slide (all_sung items) (slides_from per_slide index items)
unfolding slides_from
slides_from-Shows per_slide index [] p = ([], refl, refl, tt)
slides_from-Shows per_slide index (item ∷ more) p =
    both-Shows per_slide _ _ _ _ (item_slides-Shows per_slide index item p)
      (slides_from-Shows per_slide (index + 1) more p)

-- Where a slide has room for a line, turning a set into slides ends. The slides together show every
-- line that is not blank of every item that has a chart and no sheet, with the repeats written out and
-- in the order of the set, and no other line: an item that is shown as a sheet, or has no chart, has
-- no line on any slide. No slide has more lines than it has room for.
pub slides-Shows :
    (per_slide : ℕ) (snapshot : Snapshot)
    → 0 < per_slide
    → Shows per_slide (all_sung snapshot.items) (slides per_slide snapshot)
unfolding slides
slides-Shows per_slide snapshot p = slides_from-Shows per_slide 0 snapshot.items p
