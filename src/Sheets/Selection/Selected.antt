-- ===== src/Sheets/Selection/Selected.antt =====
-- What select_sheet of selection.rs promises of the stored sheets, deleted ones included.
use aurum_presenter.Prelude.{
  ◌≡◌, subst, inl, inr, true, false, not, Option, none, some, List, [], arith, Bool-cases, keep,
}
use mathlib.Core.List.{Memᴰ}
use aurum_presenter.Prelude.Members.{keep_mem, mem_keep, sort_mem, mem_sort}
use aurum_presenter.Chart.Notes.{Key}
use aurum_presenter.Sheets.Selection.{
  Part, SheetChoice, Selection, by_position, choose, usable, select_sheet,
}
use aurum_presenter.Sheets.Selection.Ladder.{Explained, Reason, choose_lem}

usable_mem :
    (sheets : List SheetChoice) (s : SheetChoice)
    → Memᴰ s (usable sheets)
    → Memᴰ s sheets × (s.deleted ≡ false)
unfolding usable
usable_mem sheets s m =
    let (k, e) =
      keep_mem (λ sheet. not sheet.deleted) sheets s
        (sort_mem by_position s (keep (λ sheet. not sheet.deleted) sheets) m) in
    (k, ground arith)

mem_usable :
    (sheets : List SheetChoice) (s : SheetChoice)
    → Memᴰ s sheets
    → s.deleted ≡ false
    → Memᴰ s (usable sheets)
unfolding usable
mem_usable sheets s m e =
    mem_sort by_position s (keep (λ sheet. not sheet.deleted) sheets)
      (mem_keep (λ sheet. not sheet.deleted) sheets s m (ground arith))

-- What is promised of an answer: where there is none, every sheet of the list is deleted.
abbrev pub Selected : Option Key → Option Part → List SheetChoice → Option Selection → Type 0
Selected key part sheets none = (s : SheetChoice) → Memᴰ s sheets → s.deleted ≡ true
Selected key part sheets (some sel) =
    Memᴰ sel.sheet sheets
    × (sel.sheet.deleted ≡ false)
    × Reason key part (usable sheets) sel.fallback sel.sheet

from_usable :
    (key : Option Key) (part : Option Part) (sheets : List SheetChoice) (o : Option Selection)
    → Explained key part (usable sheets) o
    → Selected key part sheets o
from_usable key part sheets none e = only_deleted
  where
    only_deleted : (s : SheetChoice) → Memᴰ s sheets → s.deleted ≡ true
    only_deleted s m = elim (Bool-cases s.deleted) [
      | inl gone ↦ gone
      | inr there ↦
          (let absurd : Memᴰ s [] = subst (λ l. Memᴰ s l) e (mem_usable sheets s m there) in
            elim absurd [ ])
    ]
from_usable key part sheets (some sel) (m, r) =
    let (k, d) = usable_mem sheets sel.sheet m in (k, d, r)

-- `select_sheet` gives nothing only where every sheet of the list is deleted; what it gives is a
-- sheet of the list that is not deleted, and it stands at the step of the ladder that it is marked
-- with for the reason of that step, the earlier steps having found none of the usable sheets.
pub select_sheet_lem :
    (sheets : List SheetChoice) (key : Option Key) (part : Option Part)
    → Selected key part sheets (select_sheet sheets key part)
unfolding select_sheet
select_sheet_lem sheets key part =
    from_usable key part sheets (choose key part (usable sheets))
      (choose_lem key part (usable sheets))
