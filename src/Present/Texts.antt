-- ===== src/Present/Texts.antt =====
-- crates/core/src/present/slides.rs: the kinds of slide, and the plain text of an announcement split
-- into slides. There is room for a line at least: with none, `chunks` panics.
use aurum_presenter.Prelude.{ℕ, zero, suc, ◌-◌, not, List, [], ◌∷◌, ◌++◌, ◌==◌, if◌then◌else◌, keep}
use aurum_presenter.Prelude.Text.{Str, codes, is_empty, trim}

pub data SlideKind : Type 0 where
  lyrics text blank sheet title : SlideKind

unfoldable pub kind_name : SlideKind → Str
kind_name lyrics = codes "lyrics"
kind_name text = codes "text"
kind_name blank = codes "blank"
kind_name sheet = codes "sheet"
kind_name title = codes "title"

-- `split('\n')`, with what stands before the text in its line.
unfoldable pub lines_from : Str → Str → List Str
lines_from before [] = before ∷ []
lines_from before (c ∷ s) =
    let later = lines_from (if c == 10 then [] else before ++ c ∷ []) s in
    if c == 10 then before ∷ later else later

-- `split(|line| line.trim().is_empty())`, with the lines of the paragraph so far.
unfoldable pub paragraphs_from : List Str → List Str → List (List Str)
unfolding trim
paragraphs_from before [] = before ∷ []
paragraphs_from before (line ∷ lines) =
    let later = paragraphs_from (if is_empty (trim line) then [] else before ++ line ∷ []) lines in
    if is_empty (trim line) then before ∷ later else later

-- `chunks(per_slide)`, with the chunk so far and the lines that it has room for.
unfoldable pub chunks_from : ℕ → ℕ → List Str → List Str → List (List Str)
chunks_from per_slide room [] [] = []
chunks_from per_slide room (line ∷ before) [] = (line ∷ before) ∷ []
chunks_from per_slide zero before (line ∷ lines) =
    before ∷ chunks_from per_slide (per_slide - 1) (line ∷ []) lines
chunks_from per_slide (suc room) before (line ∷ lines) =
    chunks_from per_slide room (before ++ line ∷ []) lines

-- `join("\n")`
unfoldable pub join_lines : List Str → Str
join_lines [] = []
join_lines (line ∷ []) = line
join_lines (line ∷ next ∷ lines) = line ++ 10 ∷ join_lines (next ∷ lines)

abbrev texts_of : List (List Str) → List Str
texts_of [] = []
texts_of (group ∷ groups) = join_lines group ∷ texts_of groups

abbrev chunks_of : ℕ → List (List Str) → List (List Str)
chunks_of per_slide [] = []
chunks_of per_slide (paragraph ∷ more) =
    chunks_from per_slide per_slide [] paragraph ++ chunks_of per_slide more

unfoldable pub split_text : Str → ℕ → List Str
unfolding lines_from paragraphs_from chunks_from join_lines trim
split_text content per_slide =
    keep (λ text. not (is_empty (trim text)))
      (texts_of (chunks_of per_slide (paragraphs_from [] (lines_from [] content))))
