-- ===== src/Blobs/Pins.antt =====
-- The pins of crates/core/src/blobs/policy.rs: the sets that a device keeps, and what each pin costs.
-- Sizes are exact numbers.
pub mod Sizes
pub mod Listed
use aurum_presenter.Prelude.{
  ℕ, ◌+◌, Bool, true, false, ◌&&◌, Option, none, some, List, [], ◌∷◌, ◌++◌, map, leb, if◌then◌else◌,
  keep, any,
}
use aurum_presenter.Prelude.Text.{Str, str_eq}
use aurum_presenter.Prelude.Int.{ℤ, pos, negsuc, leb_ℤ}
use aurum_presenter.Chart.Notes.{◌>>=◌}
use aurum_presenter.Time.{days_between}
use aurum_presenter.Time.Parse.{parse}

-- `AUTO_PIN_DAYS`
abbrev pub auto_pin_days : ℕ
auto_pin_days = 14

abbrev near_day : ℤ → Option ℤ → Bool
near_day now_ms none = false
near_day now_ms (some when) =
    let days = days_between now_ms when in leb_ℤ (negsuc 0) days && leb_ℤ days (pos auto_pin_days)

unfoldable pub is_auto_pinned : Bool → Option Str → ℤ → Bool
unfolding parse days_between
is_auto_pinned pinned scheduled_for now_ms =
    if pinned then true else near_day now_ms (scheduled_for >>= λ text. parse text)

pub data PinKind : Type 0 where
  of_set : PinKind
  of_song : PinKind

pub data PinReason : Type 0 where
  pinned_by_hand : PinReason
  coming_up : PinReason

pub record HeldPin : Type 0 where
  pub kind : PinKind
  pub id : Str
  pub name : Str
  pub bytes : ℕ
  pub reason : PinReason

pub record PinnedSet : Type 0 where
  pub id : Str
  pub name : Str
  pub pinned : Bool
  pub scheduled_for : Option Str

pub record SetSong : Type 0 where
  pub set_id : Str
  pub song_id : Option Str

pub record CachedSheet : Type 0 where
  pub song_id : Str
  pub bytes : ℕ

pub record PinnedSong : Type 0 where
  pub song_id : Str
  pub title : Str

pub record PinSources : Type 0 where
  pub sets : List PinnedSet
  pub items : List SetSong
  pub cached : List CachedSheet
  pub pinned_songs : List PinnedSong

-- What `bytes_by_song` has for a song.
abbrev pub bytes_of : List CachedSheet → Str → ℕ
bytes_of [] song = 0
bytes_of (sheet ∷ cached) song =
    (if str_eq sheet.song_id song then sheet.bytes else 0) + bytes_of cached song

abbrev pub added : Option Str → List Str → List Str
added none songs = songs
added (some song) songs = if any (str_eq song) songs then songs else song ∷ songs

-- The songs of the set, each of them once.
abbrev pub songs_of : List SetSong → Str → List Str
songs_of [] set_id = []
songs_of (item ∷ items) set_id =
    let songs = songs_of items set_id in
    if str_eq item.set_id set_id then added item.song_id songs else songs

abbrev pub total : List ℕ → ℕ
total [] = 0
total (n ∷ sizes) = n + total sizes

abbrev pub pin_of_set : PinSources → PinnedSet → HeldPin
pin_of_set sources pinned_set = record {
  kind = of_set;
  id = pinned_set.id;
  name = pinned_set.name;
  bytes = total (map (bytes_of sources.cached) (songs_of sources.items pinned_set.id));
  reason = if pinned_set.pinned then pinned_by_hand else coming_up;
}

abbrev pub pin_of_song : PinSources → PinnedSong → HeldPin
pin_of_song sources pinned_song = record {
  kind = of_song;
  id = pinned_song.song_id;
  name = pinned_song.title;
  bytes = bytes_of sources.cached pinned_song.song_id;
  reason = pinned_by_hand;
}

-- The stable sort, the largest first.
abbrev pub insert_pin : HeldPin → List HeldPin → List HeldPin
insert_pin pin [] = pin ∷ []
insert_pin pin (other ∷ pins) =
    let later = insert_pin pin pins in
    if leb other.bytes pin.bytes then pin ∷ other ∷ pins else other ∷ later

abbrev pub sort_pins : List HeldPin → List HeldPin
sort_pins [] = []
sort_pins (pin ∷ pins) = insert_pin pin (sort_pins pins)

abbrev pub kept_pins : PinSources → ℤ → List HeldPin
unfolding is_auto_pinned
kept_pins sources now_ms =
    map (pin_of_set sources) (
      keep
        (λ (pinned_set : PinnedSet).
          is_auto_pinned pinned_set.pinned pinned_set.scheduled_for now_ms)
        sources.sets)
    ++ map (pin_of_song sources) sources.pinned_songs

unfoldable pub held_pins : PinSources → ℤ → List HeldPin
unfolding is_auto_pinned
held_pins sources now_ms = sort_pins (kept_pins sources now_ms)
