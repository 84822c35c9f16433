-- ===== src/Sheets/Selection/Ladder.antt =====
-- What each step of the ladder of selection.rs promises of the sheet that it hands back.
use aurum_presenter.Prelude.{
  ◌≡◌, refl, Bool, true, false, ◌&&◌, Option, none, some, List, [], ◌∷◌, find,
}
use mathlib.Core.List.{Memᴰ}
use aurum_presenter.Prelude.Members.{find-some, find-none}
use aurum_presenter.Chart.Notes.{Key}
use aurum_presenter.Sheets.Selection.{
  Part, Fallback, exact, other_part, any_key, nearest_key, first, SheetChoice, Selection, in_key,
  is_part, is_none, nearest_to, choose, found, or_else, head?,
}
use aurum_presenter.Sheets.Selection.Nearest.{nearest_mem}

module _ (key : Option Key) (part : Option Part) (sheets : List SheetChoice) where
  -- No sheet of the list passes a test.
  abbrev pub None : (SheetChoice → Bool) → Type 0
  None p = (s : SheetChoice) → Memᴰ s sheets → p s ≡ false

  abbrev pub for_any_key : SheetChoice → Bool
  for_any_key s = is_none s.sheet_key && is_part part s

  -- Why a sheet was chosen, and what was not there to be chosen before it.
  abbrev pub Reason : Fallback → SheetChoice → Type 0
  Reason exact s = (in_key key s && is_part part s) ≡ true
  Reason other_part s = (in_key key s ≡ true) × None (λ t. in_key key t && is_part part t)
  Reason any_key s = (for_any_key s ≡ true) × None (in_key key)
  Reason nearest_key s =
      (nearest_to key part sheets ≡ some s) × None (in_key key) × None for_any_key
  Reason first s =
      (head? sheets ≡ some s)
      × (nearest_to key part sheets ≡ none)
      × None (in_key key)
      × None for_any_key

  -- A choice, which there is whenever there is a sheet.
  abbrev pub Explained : Option Selection → Type 0
  Explained none = sheets ≡ []
  Explained (some sel) = Memᴰ sel.sheet sheets × Reason sel.fallback sel.sheet

  last_steps :
      (near : Option SheetChoice)
      → nearest_to key part sheets ≡ near
      → None (in_key key)
      → None for_any_key
      → (ss : List SheetChoice) → sheets ≡ ss
      → Explained (or_else (found nearest_key near) (found first (head? ss)))
  last_steps (some s) e n m ss q = (nearest_mem key part sheets s e, (e, n, m))
  last_steps none e n m [] q = q
  last_steps none e n m (s ∷ ss) q = (rw q (Memᴰ.head refl), (rw q, e, n, m))

  pub choose_lem : Explained (choose key part sheets)
  unfolding choose
  choose_lem =
      steps (find (λ s. in_key key s && is_part part s) sheets) refl (find (in_key key) sheets) refl
        (find for_any_key sheets) refl
    where
      steps :
          (a : Option SheetChoice)
          → find (λ s. in_key key s && is_part part s) sheets ≡ a
          → (b : Option SheetChoice) → find (in_key key) sheets ≡ b
          → (c : Option SheetChoice) → find for_any_key sheets ≡ c
          → Explained (
              or_else (found exact a) (
                or_else (found other_part b) (
                  or_else (found any_key c) (
                    or_else
                      (found nearest_key (nearest_to key part sheets))
                      (found first (head? sheets))))))
      steps (some s) e b f c g = find-some (λ s. in_key key s && is_part part s) sheets s e
      steps none e (some s) f c g =
          (let (m, p) = find-some (in_key key) sheets s f in
            (m, (p, λ t. find-none (λ s. in_key key s && is_part part s) sheets t e)))
      steps none e none f (some s) g =
          (let (m, p) = find-some for_any_key sheets s g in
            (m, (p, λ t. find-none (in_key key) sheets t f)))
      steps none e none f none g =
          last_steps (nearest_to key part sheets) refl (λ t. find-none (in_key key) sheets t f)
            (λ t. find-none for_any_key sheets t g) sheets refl
