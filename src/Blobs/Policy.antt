-- ===== src/Blobs/Policy.antt =====
-- crates/core/src/blobs/policy.rs: the sheets that a device wants, as the list of what goes into the
-- set, in order and with repetitions.
pub mod Wanted
use aurum_presenter.Prelude.{
  ℕ, zero, suc, ◌+◌, ◌-◌, ◌*◌, ◌/◌, ◌%◌, ◌≤◌, ◌<◌, min, max, ◌≡◌, refl, sym, ap, ◌∙◌, subst, ◌≢◌,
  ◌↔◌, ◌⊎◌, inl, inr, Bool, true, false, ◌&&◌, ◌||◌, not, Option, none, some, List, [], ◌∷◌, ◌++◌,
  map, arith, ltb, leb, ◌==◌, if◌then◌else◌, ltb→lt, lt→ltb, ==_iff, Bool-cases, Option-cases,
  unwrap_or, all_below, all_below_sound, length, get_elem?, get_or, take, drop, get_last?, keep,
  find, any, all, position, All, length-append, take-append-drop, length-take, length-drop,
  All-append, All-map,
}
use aurum_presenter.Prelude.Text.{
  Str, codes, str_eq, str_ltb, is_empty, str_eq-true, str_eq_refl, str_eq_iff, str_ltb_irrefl,
  str_ltb_trans, str_ltb_total, is_whitespace, trim_start, trim_end, trim, ascii_upper, ascii_lower,
  lowercase, strip_prefix, repeat,
}
use aurum_presenter.Prelude.Int.{
  ℤ, pos, negsuc, pos_part, neg_part, sub_ℕ, ◌+ℤ◌, ◌-ℤ◌, ◌≤ℤ◌, ltb_ℤ, leb_ℤ, eqb_ℤ, rem12,
  div_euclid, rem_euclid, +ℤ_parts, -ℤ_parts, eq_of_parts, int_laws, rem12-lt, rem12-add, +ℤ_assoc,
}
use aurum_presenter.Chart.Notes.{Key}
use aurum_presenter.Sheets.Selection.{
  Part, Fallback, exact, other_part, any_key, nearest_key, first, SheetChoice, Selection,
  select_sheet,
}

pub record SheetWant : Type 0 where
  pub song_id : Str
  pub key : Option Key

pub record SheetFile : Type 0 where
  pub choice : SheetChoice
  pub song_id : Str
  pub uploaded : Bool

abbrev pub is_for : Str → SheetFile → Bool
is_for song_id sheet = str_eq sheet.song_id song_id && not sheet.choice.deleted

abbrev pub choice_of : SheetFile → SheetChoice
choice_of sheet = sheet.choice

-- `==` on optional texts.
unfoldable pub same_text : Option Str → Option Str → Bool
same_text none none = true
same_text (some a) (some b) = str_eq a b
same_text _ _ = false

abbrev pub is_some : {A : Type 0} → Option A → Bool
is_some none = false
is_some (some a) = true

abbrev pub is_exact : Fallback → Bool
is_exact exact = true
is_exact _ = false

abbrev pub is_chosen_file : SheetChoice → SheetFile → Bool
is_chosen_file sheet file = str_eq file.choice.id sheet.id && file.uploaded

abbrev pub is_in_key_of : SheetChoice → SheetFile → Bool
is_in_key_of sheet file =
    file.uploaded
    && (is_some file.choice.sheet_key && same_text file.choice.sheet_key sheet.sheet_key)

-- What one selection among the files of a song puts into the set.
unfoldable pub wanted_of : List SheetFile → Option Selection → List Str
unfolding same_text
wanted_of for_song none = []
wanted_of for_song (some selection) =
    (if any (is_chosen_file selection.sheet) for_song then selection.sheet.id ∷ [] else [])
    ++ (if is_exact selection.fallback
        then map (λ (file : SheetFile). file.choice.id)
            (keep (is_in_key_of selection.sheet) for_song)
        else [])

unfoldable pub wanted_for : List SheetFile → Option Part → SheetWant → List Str
unfolding wanted_of select_sheet
wanted_for sheets part want =
    let for_song = keep (is_for want.song_id) sheets in
    wanted_of for_song (select_sheet (map choice_of for_song) want.key part)

unfoldable pub wanted_sheets : List SheetFile → List SheetWant → Option Part → List Str
unfolding wanted_for
wanted_sheets sheets [] part = []
wanted_sheets sheets (want ∷ wants) part =
    wanted_for sheets part want ++ wanted_sheets sheets wants part
