-- ===== src/Examples/Choices.antt =====
-- The choice of a sheet of crates/core/src/sheets/selection.rs at concrete inputs.
use mathlib.Core.List.{Permᴰ}
use aurum_presenter.Library.Validation.{parse_i64}
use aurum_presenter.Time.Parse.{parse}
use aurum_presenter.Blobs.Pins.{is_auto_pinned, HeldPin, PinSources, held_pins, PinnedSet}
use aurum_presenter.Blobs.Pins.Listed.{
  kept_set, kept_song, descending, held_pins_lem, is_auto_pinned-near,
}
use aurum_presenter.Prelude.{
  keep, ◌++◌, ◌≡◌, refl, true, false, some, List, [], ◌∷◌, ◌↔◌, none, map,
}
use aurum_presenter.Prelude.Text.{codes, str_eq}
use aurum_presenter.Prelude.Int.{pos, div_euclid, ◌-ℤ◌, negsuc, ◌≤ℤ◌}
use mathlib.Core.List.{Memᴰ}
use aurum_presenter.Chart.Notes.{Key, letter_e, key_parse, letter_a}
use aurum_presenter.Sheets.Selection.{
  SheetChoice, lead, is_part, key_of, keyed, nearest_to, nearest, fifths_distance, select_sheet,
  part_text, choose, usable, in_key, key_matches,
}
use aurum_presenter.Sheets.Selection.Selected.{Selected, select_sheet_lem}
use aurum_presenter.Blobs.Policy.{SheetFile, SheetWant, wanted_sheets}
use aurum_presenter.Blobs.Policy.Wanted.{Downloads, wanted_sheets-Downloads}

abbrev e_major : Key
e_major = record { tonic = record { letter = letter_e; alter = pos 0 }; minor = false }

abbrev in_g : SheetChoice
in_g = record {
  id = codes "1";
  sheet_key = some (codes "G");
  part = some (codes "lead");
  position = pos 2;
  deleted = false;
}

abbrev in_a : SheetChoice
in_a = record {
  id = codes "2";
  sheet_key = some (codes "A");
  part = some (codes "lead");
  position = pos 1;
  deleted = false;
}

abbrev gone : SheetChoice
gone = record {
  id = codes "3";
  sheet_key = some (codes "E");
  part = some (codes "lead");
  position = pos 0;
  deleted = true;
}

abbrev drawer : List SheetChoice
drawer = in_g ∷ in_a ∷ gone ∷ []

select_sheet_lem_example :
    Selected (some e_major) (some lead) drawer (select_sheet drawer (some e_major) (some lead))
select_sheet_lem_example = select_sheet_lem drawer (some e_major) (some lead)

near : nearest_to (some e_major) (some lead) (in_g ∷ in_a ∷ []) ≡ some in_a
unfolding nearest keyed is_part key_of fifths_distance str_eq part_text key_parse
near = refl

abbrev files : List SheetFile
files =
    (record { choice = in_g; song_id = codes "song-1"; uploaded = true })
    ∷ (record { choice = in_a; song_id = codes "song-1"; uploaded = true })
    ∷ []

abbrev want : SheetWant
want = record {
  song_id = codes "song-1";
  key = some (record { tonic = record { letter = letter_a; alter = pos 0 }; minor = false });
}

wanted_run : wanted_sheets files (want ∷ []) (some lead) ≡ codes "2" ∷ codes "2" ∷ []
unfolding wanted_sheets choose usable str_eq in_key key_matches key_of key_parse is_part part_text
wanted_run = refl

wanted_sheets-Downloads_example : Downloads files (want ∷ []) (codes "2")
wanted_sheets-Downloads_example =
    wanted_sheets-Downloads files (want ∷ []) (some lead) (codes "2")
      (rw wanted_run (Memᴰ.head refl))

-- A service on a Tuesday, and a device that asks two weeks before it, in the last minute of the day.
scheduled : parse (codes "2026-09-08") ≡ some (pos 1_788_825_600_000)
unfolding parse parse_i64
scheduled = refl

is_auto_pinned-near_example :
    (is_auto_pinned false (some (codes "2026-09-08")) (pos 1_787_702_340_000) ≡ true) ↔ (
      let days =
        div_euclid (pos 1_788_825_600_000) 86_400_000
        -ℤ div_euclid (pos 1_787_702_340_000) 86_400_000 in
      (negsuc 0 ≤ℤ days) × (days ≤ℤ pos 14))
is_auto_pinned-near_example =
    is_auto_pinned-near (codes "2026-09-08") (pos 1_787_702_340_000) (pos 1_788_825_600_000)
      scheduled

kept_soon : is_auto_pinned false (some (codes "2026-09-08")) (pos 1_787_702_340_000) ≡ true
unfolding is_auto_pinned parse_i64
kept_soon = refl

abbrev pins : PinSources
pins = record {
  sets =
      (record {
        id = codes "s1";
        name = codes "Sunday";
        pinned = false;
        scheduled_for = some (codes "2026-09-08");
      })
      ∷ (record {
        id = codes "s2";
        name = codes "Old";
        pinned = false;
        scheduled_for = some (codes "2020-01-01");
      })
      ∷ [];
  items =
      (record { set_id = codes "s1"; song_id = some (codes "a") })
      ∷ (record { set_id = codes "s1"; song_id = some (codes "a") })
      ∷ (record { set_id = codes "s1"; song_id = none })
      ∷ [];
  cached =
      (record { song_id = codes "a"; bytes = 30 })
      ∷ (record { song_id = codes "b"; bytes = 70 })
      ∷ (record { song_id = codes "a"; bytes = 20 })
      ∷ [];
  pinned_songs = (record { song_id = codes "b"; title = codes "Grace" }) ∷ [];
}

held_pins_lem_example :
    Permᴰ (held_pins pins (pos 1_787_702_340_000)) (
      map (kept_set pins) (
        keep
          (λ (kept : PinnedSet).
            is_auto_pinned kept.pinned kept.scheduled_for (pos 1_787_702_340_000))
          pins.sets)
      ++ map (kept_song pins) pins.pinned_songs)
    × (descending (held_pins pins (pos 1_787_702_340_000)) ≡ true)
held_pins_lem_example = held_pins_lem pins (pos 1_787_702_340_000)

-- A song twice in a set counts once.
listed : map (λ (pin : HeldPin). pin.bytes) (held_pins pins (pos 1_787_702_340_000)) ≡ 70 ∷ 50 ∷ []
unfolding held_pins parse_i64 str_eq
listed = refl
