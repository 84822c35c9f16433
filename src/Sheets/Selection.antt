-- ===== src/Sheets/Selection.antt =====
-- crates/core/src/sheets/selection.rs: the sheet a musician gets for a key and a part, and how far
-- the choice had to fall back.
pub mod Nearest
pub mod Ladder
pub mod Fifths
pub mod Selected
use aurum_presenter.Prelude.{
  ℕ, zero, suc, ◌+◌, ◌-◌, ◌*◌, ◌/◌, ◌%◌, ◌≤◌, ◌<◌, min, max, ◌≡◌, refl, sym, ap, ◌∙◌, subst, ◌≢◌,
  ◌↔◌, ◌⊎◌, inl, inr, Bool, true, false, ◌&&◌, ◌||◌, not, Option, none, some, List, [], ◌∷◌, ◌++◌,
  map, arith, ltb, leb, ◌==◌, if◌then◌else◌, ltb→lt, lt→ltb, ==_iff, Bool-cases, Option-cases,
  unwrap_or, all_below, all_below_sound, length, get_elem?, get_or, take, drop, get_last?, keep,
  find, any, all, position, All, length-append, take-append-drop, length-take, length-drop,
  All-append, All-map,
}
use aurum_presenter.Prelude.Text.{
  Str, codes, str_eq, str_ltb, is_empty, str_eq-true, str_eq_refl, str_eq_iff, str_ltb_irrefl,
  str_ltb_trans, str_ltb_total, is_whitespace, trim_start, trim_end, trim, ascii_upper, ascii_lower,
  lowercase, strip_prefix, repeat,
}
use aurum_presenter.Prelude.Int.{
  ℤ, pos, negsuc, pos_part, neg_part, sub_ℕ, ◌+ℤ◌, ◌-ℤ◌, ◌≤ℤ◌, ltb_ℤ, leb_ℤ, eqb_ℤ, rem12,
  div_euclid, rem_euclid, +ℤ_parts, -ℤ_parts, eq_of_parts, int_laws, rem12-lt, rem12-add, +ℤ_assoc,
}
use aurum_presenter.Prelude.Members.{insert_sorted, sort}
use aurum_presenter.Chart.Notes.{show_key, Key, key_parse, pitch_class, show_key}

pub data Part : Type 0 where
  lead piano vocal guitar bass lyrics other : Part

unfoldable pub part_text : Part → Str
part_text lead = codes "lead"
part_text piano = codes "piano"
part_text vocal = codes "vocal"
part_text guitar = codes "guitar"
part_text bass = codes "bass"
part_text lyrics = codes "lyrics"
part_text other = codes "other"

abbrev parts : List Part
parts = lead ∷ piano ∷ vocal ∷ guitar ∷ bass ∷ lyrics ∷ other ∷ []

unfoldable pub part_parse : Str → Option Part
unfolding part_text str_eq
part_parse text = find (λ part. str_eq (part_text part) text) parts

pub data Fallback : Type 0 where
  exact other_part any_key nearest_key first : Fallback

pub record SheetChoice : Type 0 where
  pub id : Str
  pub sheet_key : Option Str
  pub part : Option Str
  pub position : ℤ
  pub deleted : Bool

pub record Selection : Type 0 where
  pub sheet : SheetChoice
  pub fallback : Fallback

-- `((b - a) * 7).rem_euclid(12)`: seven times a difference, in the octave.
unfoldable pub fifths_between : ℕ → ℕ → ℕ
unfolding rem12 ◌-ℤ◌
fifths_between a b = let steps = rem12 (pos b -ℤ pos a) * 7 % 12 in min steps (12 - steps)

unfoldable pub fifths_distance : Key → Key → ℕ
unfolding pitch_class fifths_between
fifths_distance a b = fifths_between (pitch_class a.tonic) (pitch_class b.tonic)

abbrev bind {ℓ κ} : {A : Type ℓ} {B : Type κ} → Option A → (A → Option B) → Option B
bind none f = none
bind (some a) f = f a

-- `sheet.sheet_key.and_then(Key::parse)`
unfoldable pub key_of : SheetChoice → Option Key
key_of sheet = bind sheet.sheet_key key_parse

-- `sheet_key.minor == wanted.minor`
abbrev same_mode : Bool → Bool → Bool
same_mode true m = m
same_mode false m = not m

unfoldable pub key_matches : Option Key → Option Key → Bool
unfolding pitch_class
key_matches (some wanted) (some key) =
    (pitch_class key.tonic == pitch_class wanted.tonic) && same_mode key.minor wanted.minor
key_matches _ _ = false

unfoldable pub in_key : Option Key → SheetChoice → Bool
in_key key sheet = key_matches key (key_of sheet)

unfoldable pub is_part : Option Part → SheetChoice → Bool
is_part none sheet = true
is_part (some part) sheet = elim sheet.part [
  | none ↦ false
  | some text ↦ str_eq text (part_text part)
]

abbrev pub is_none : {A : Type 0} → Option A → Bool
is_none none = true
is_none (some a) = false

abbrev pub by_position : SheetChoice → SheetChoice → Bool
by_position a b = leb_ℤ a.position b.position

-- The sheets that are there, in the order the musician arranged.
unfoldable pub usable : List SheetChoice → List SheetChoice
unfolding sort
usable sheets = sort by_position (keep (λ sheet. not sheet.deleted) sheets)

-- `filter(is_part).filter_map(…)`: the sheets for the part that have a key, with that key.
unfoldable pub keyed : Option Part → List SheetChoice → List (SheetChoice × Key)
keyed part [] = []
keyed part (sheet ∷ sheets) =
    let rest = keyed part sheets in
    if is_part part sheet
    then elim (key_of sheet) [ none ↦ rest | some key ↦ (sheet, key) ∷ rest ]
    else rest

-- `min_by_key`: the first of the least, from the best one so far.
unfoldable pub nearest_of : Key → SheetChoice × Key → List (SheetChoice × Key) → SheetChoice × Key
nearest_of wanted best [] = best
nearest_of wanted best (next ∷ more) =
    nearest_of wanted
      (if ltb (fifths_distance wanted next.1) (fifths_distance wanted best.1) then next else best)
      more

unfoldable pub nearest : Key → List (SheetChoice × Key) → Option (SheetChoice × Key)
unfolding nearest_of
nearest wanted [] = none
nearest wanted (next ∷ more) = some (nearest_of wanted next more)

abbrev pub found : Fallback → Option SheetChoice → Option Selection
found fallback none = none
found fallback (some sheet) = some (record { sheet = sheet; fallback = fallback })

-- `if let Some(selection) = … { return Some(selection); }`, and the rest of the ladder.
abbrev pub or_else : Option Selection → Option Selection → Option Selection
or_else (some s) rest = some s
or_else none rest = rest

abbrev pub head? : List SheetChoice → Option SheetChoice
head? [] = none
head? (s ∷ ss) = some s

abbrev pub nearest_to : Option Key → Option Part → List SheetChoice → Option SheetChoice
nearest_to none part sheets = none
nearest_to (some wanted) part sheets =
    bind (nearest wanted (keyed part sheets)) (λ found. some found.0)

-- The ladder of fallbacks over the usable sheets, which returns nothing where there are none.
unfoldable pub choose : Option Key → Option Part → List SheetChoice → Option Selection
choose key part sheets = or_else (found exact (find (λ s. in_key key s && is_part part s) sheets)) (
    or_else (found other_part (find (in_key key) sheets)) (
      or_else (found any_key (find (λ s. is_none s.sheet_key && is_part part s) sheets))
        (or_else (found nearest_key (nearest_to key part sheets)) (found first (head? sheets)))))

unfoldable pub select_sheet : List SheetChoice → Option Key → Option Part → Option Selection
select_sheet sheets key part = choose key part (usable sheets)

-- What the banner says where the sheet is not the one that was asked for.
unfoldable pub explain : Selection → Option Key → Option Part → Option Str
unfolding part_text show_key
explain selection key part =
    let sheet_key = unwrap_or selection.sheet.sheet_key (codes "any key") in
    let sheet_part = unwrap_or selection.sheet.part (codes "available") in
    elim selection.fallback [
      | exact ↦ none
      | other_part ↦ some (
          codes "No "
          ++ elim part [ none ↦ codes "preferred" | some part ↦ part_text part ]
          ++ codes " sheet in this key — showing the "
          ++ sheet_part
          ++ codes " sheet.")
      | any_key ↦ some (codes "This sheet is not tied to a key.")
      | nearest_key ↦ some (
          codes "No sheet in "
          ++ elim key [ none ↦ codes "that key" | some key ↦ show_key key ]
          ++ codes " — showing "
          ++ sheet_key
          ++ codes ", the nearest key available.")
      | first ↦ some (
          codes "Showing the only sheet attached ("
          ++ unwrap_or selection.sheet.part (codes "other")
          ++ codes ", "
          ++ sheet_key
          ++ codes ").")
    ]
