-- ===== src/Blobs/Policy/Wanted.antt =====
-- What wanted_sheets of policy.rs lets a device download.
use aurum_presenter.Prelude.{
  ◌≡◌, refl, sym, ◌⊎◌, inl, inr, true, false, Option, none, some, List, [], ◌∷◌, ◌++◌, map, arith,
  Bool-cases, keep, any,
}
use aurum_presenter.Prelude.Text.{Str, str_eq-true}
use mathlib.Core.List.{Memᴰ}
use aurum_presenter.Prelude.{if◌then◌else◌}
use aurum_presenter.Prelude.Members.{keep_mem}
use aurum_presenter.Sheets.Selection.{SheetChoice, Selection, Part}
use aurum_presenter.Blobs.Policy.{
  SheetWant, SheetFile, is_for, is_chosen_file, is_in_key_of, is_exact, wanted_of, wanted_for,
  wanted_sheets,
}

-- A file that has been uploaded, of a sheet that is not deleted, for a song that is wanted.
abbrev pub Downloads : List SheetFile → List SheetWant → Str → Type 0
Downloads sheets wants id =
    (file : SheetFile) × Memᴰ file sheets
    × (file.choice.id ≡ id)
    × (file.uploaded ≡ true)
    × (file.choice.deleted ≡ false)
    × (want : SheetWant) × Memᴰ want wants
    × (file.song_id ≡ want.song_id)

mem_append : {A : Type 0} (x : A) (xs ys : List A) → Memᴰ x (xs ++ ys) → Memᴰ x xs ⊎ Memᴰ x ys
mem_append x [] ys m = inr m
mem_append x (y ∷ xs) ys (Memᴰ.head e) = inl (Memᴰ.head e)
mem_append x (y ∷ xs) ys (Memᴰ.tail m) = elim (mem_append x xs ys m) [
  | inl n ↦ inl (Memᴰ.tail n)
  | inr n ↦ inr n
]

-- A file of the list that passes a test which only uploaded files with the id pass.
abbrev File : List SheetFile → Str → Type 0
File files id =
    (file : SheetFile) × Memᴰ file files × (file.choice.id ≡ id) × (file.uploaded ≡ true)

chosen_File :
    (sheet : SheetChoice) (files : List SheetFile)
    → any (is_chosen_file sheet) files ≡ true
    → File files sheet.id
chosen_File sheet [] h = cc
chosen_File sheet (f ∷ files) h = elim (Bool-cases (is_chosen_file sheet f)) [
  | inl here ↦ (let (e, u) = parts here in (f, Memᴰ.head refl, e, u))
  | inr later ↦
      (let (g, m, e, u) = chosen_File sheet files (rw later at h) in (g, Memᴰ.tail m, e, u))
]
  where
    parts : is_chosen_file sheet f ≡ true → (f.choice.id ≡ sheet.id) × (f.uploaded ≡ true)
    parts h = (str_eq-true f.choice.id sheet.id (ground arith), ground arith)

same_key_File :
    (id : Str) (files : List SheetFile) (sheet : SheetChoice)
    → Memᴰ id (map (λ (file : SheetFile). file.choice.id) (keep (is_in_key_of sheet) files))
    → File files id
same_key_File id [] sheet m = elim m [ ]
same_key_File id (f ∷ files) sheet m = elim (Bool-cases (is_in_key_of sheet f)) [
  | inr other ↦ further (same_key_File id files sheet (rw other at m))
  | inl fits ↦ here fits (same_key_File id files sheet) (rw fits at m)
]
  where
    further : File files id → File (f ∷ files) id
    further (g, n, e, u) = (g, Memᴰ.tail n, e, u)

    here :
        is_in_key_of sheet f ≡ true
        → (Memᴰ id (map (λ (file : SheetFile). file.choice.id) (keep (is_in_key_of sheet) files))
            → File files id)
        → Memᴰ id (
            f.choice.id
            ∷ map (λ (file : SheetFile). file.choice.id) (keep (is_in_key_of sheet) files))
        → File (f ∷ files) id
    here fits ih (Memᴰ.head e) = (f, Memᴰ.head refl, sym e, ground arith)
    here fits ih (Memᴰ.tail n) = further (ih n)

wanted_of-File :
    (id : Str) (files : List SheetFile) (o : Option Selection)
    → Memᴰ id (wanted_of files o)
    → File files id
unfolding wanted_of
wanted_of-File id files none m = elim m [ ]
wanted_of-File id files (some s) m =
    elim (mem_append id (if any (is_chosen_file s.sheet) files then s.sheet.id ∷ [] else [])
      (if is_exact s.fallback
        then map (λ (file : SheetFile). file.choice.id) (keep (is_in_key_of s.sheet) files)
        else [])
      m) [
        | inl n ↦ elim (Bool-cases (any (is_chosen_file s.sheet) files)) [
          | inl there ↦ only (chosen_File s.sheet files there) (rw there at n)
          | inr absent ↦ (let no : Memᴰ id [] = rw absent at n in elim no [ ])
        ]
        | inr n ↦ elim (Bool-cases (is_exact s.fallback)) [
          | inl same ↦ same_key_File id files s.sheet (rw same at n)
          | inr other ↦ (let no : Memᴰ id [] = rw other at n in elim no [ ])
        ]
      ]
  where
    only : File files s.sheet.id → Memᴰ id (s.sheet.id ∷ []) → File files id
    only f (Memᴰ.head e) = rw e f
    only f (Memᴰ.tail k) = elim k [ ]

wanted_for-Downloads :
    (id : Str) (sheets : List SheetFile) (want : SheetWant) (part : Option Part)
    → Memᴰ id (wanted_for sheets part want)
    → (file : SheetFile) × Memᴰ file sheets
      × (file.choice.id ≡ id)
      × (file.uploaded ≡ true)
      × (file.choice.deleted ≡ false)
      × (file.song_id ≡ want.song_id)
unfolding wanted_for
wanted_for-Downloads id sheets want part m =
    let (f, k, e, u) = wanted_of-File id (keep (is_for want.song_id) sheets) _ m in
    let (n, p) = keep_mem (is_for want.song_id) sheets f k in
    (f, n, e, u, ground arith, str_eq-true f.song_id want.song_id (ground arith))

-- Every sheet that a device is told to keep has a file that has been uploaded, is not deleted, and is
-- for a song that is wanted.
pub wanted_sheets-Downloads :
    (sheets : List SheetFile) (wants : List SheetWant) (part : Option Part) (id : Str)
    → Memᴰ id (wanted_sheets sheets wants part)
    → Downloads sheets wants id
unfolding wanted_sheets
wanted_sheets-Downloads sheets [] part id m = elim m [ ]
wanted_sheets-Downloads sheets (want ∷ wants) part id m =
    elim (mem_append id (wanted_for sheets part want) (wanted_sheets sheets wants part) m) [
      | inl n ↦
          (let (f, k, e, u, d, s) = wanted_for-Downloads id sheets want part n in
            (f, k, e, u, d, want, Memᴰ.head refl, s))
      | inr n ↦
          (let (f, k, e, u, d, w, l, s) = wanted_sheets-Downloads sheets wants part id n in
            (f, k, e, u, d, w, Memᴰ.tail l, s))
    ]
