-- ===== src/Blobs/Pins/Listed.antt =====
-- What `held_pins` of crates/core/src/blobs/policy.rs lists, and when a date is near.
use aurum_presenter.Prelude.{
  if◌then◌else◌, subst, ◌++◌, map, keep, ℕ, ◌≤◌, ◌≡◌, refl, ◌↔◌, inl, inr, Bool, true, false, ◌&&◌,
  some, List, [], ◌∷◌, arith, leb, Bool-cases,
}
use aurum_presenter.Prelude.Text.{Str}
use aurum_presenter.Prelude.Int.{ℤ, pos, negsuc, ◌-ℤ◌, ◌≤ℤ◌, leb_ℤ, div_euclid}
use mathlib.Core.List.{Permᴰ}
use aurum_presenter.Time.Civil.{days_between_lem}
use aurum_presenter.Time.Parse.{parse}
use aurum_presenter.Blobs.Pins.Sizes.{cached_bytes, is_in_set, set_bytes_lem, song_bytes_lem}
use aurum_presenter.Blobs.Pins.{
  PinnedSet, PinnedSong, of_set, of_song, pinned_by_hand, coming_up, pin_of_set, pin_of_song,
  is_auto_pinned, HeldPin, PinSources, insert_pin, sort_pins, kept_pins, held_pins, str_eq,
}

-- No pin is larger than the one before it.
abbrev pub at_most : List HeldPin → ℕ → Bool
at_most [] n = true
at_most (pin ∷ pins) n = leb pin.bytes n

abbrev pub descending : List HeldPin → Bool
descending [] = true
descending (pin ∷ pins) = at_most pins pin.bytes && descending pins

insert_pin-at_most :
    (pin : HeldPin) (pins : List HeldPin) (n : ℕ)
    → pin.bytes ≤ n
    → at_most pins n ≡ true
    → at_most (insert_pin pin pins) n ≡ true
insert_pin-at_most pin [] n h e = ground arith
insert_pin-at_most pin (other ∷ pins) n h e = ground arith

insert_pin-descending :
    (pin : HeldPin) (pins : List HeldPin)
    → descending pins ≡ true
    → descending (insert_pin pin pins) ≡ true
insert_pin-descending pin [] h = refl
insert_pin-descending pin (other ∷ pins) h = elim (Bool-cases (leb other.bytes pin.bytes)) [
  | inl e ↦ rw e (ground arith)
  | inr e ↦ rw e (
      ground (
        arith,
        insert_pin-descending pin pins (ground arith),
        insert_pin-at_most pin pins other.bytes (ground arith) (ground arith),
      ))
]

sort_pins-descending : (pins : List HeldPin) → descending (sort_pins pins) ≡ true
sort_pins-descending [] = refl
sort_pins-descending (pin ∷ pins) =
    insert_pin-descending pin (sort_pins pins) (sort_pins-descending pins)

same_pins : (pins : List HeldPin) → Permᴰ pins pins
same_pins [] = Permᴰ.nil
same_pins (pin ∷ pins) = Permᴰ.cons refl (same_pins pins)

insert_pin-Perm : (pin : HeldPin) (pins : List HeldPin) → Permᴰ (insert_pin pin pins) (pin ∷ pins)
insert_pin-Perm pin [] = Permᴰ.cons refl Permᴰ.nil
insert_pin-Perm pin (other ∷ pins) = elim (Bool-cases (leb other.bytes pin.bytes)) [
  | inl e ↦ rw e (same_pins (pin ∷ other ∷ pins))
  | inr e ↦ rw e (Permᴰ.trans (Permᴰ.cons refl (insert_pin-Perm pin pins)) (Permᴰ.swap refl refl))
]

sort_pins-Perm : (pins : List HeldPin) → Permᴰ (sort_pins pins) pins
sort_pins-Perm [] = Permᴰ.nil
sort_pins-Perm (pin ∷ pins) =
    Permᴰ.trans (insert_pin-Perm pin (sort_pins pins)) (Permᴰ.cons refl (sort_pins-Perm pins))

-- The pin of a set that is kept, with the cached sheets of the songs that are in it.
abbrev pub kept_set : PinSources → PinnedSet → HeldPin
kept_set sources kept = record {
  kind = of_set;
  id = kept.id;
  name = kept.name;
  bytes = cached_bytes (λ song. is_in_set sources.items kept.id song) sources.cached;
  reason = if kept.pinned then pinned_by_hand else coming_up;
}

-- The pin of a song, with its cached sheets.
abbrev pub kept_song : PinSources → PinnedSong → HeldPin
kept_song sources kept = record {
  kind = of_song;
  id = kept.song_id;
  name = kept.title;
  bytes = cached_bytes (λ song. str_eq song kept.song_id) sources.cached;
  reason = pinned_by_hand;
}

set_pins :
    (sources : PinSources) (kept : List PinnedSet)
    → map (pin_of_set sources) kept ≡ map (kept_set sources) kept
set_pins sources [] = refl
set_pins sources (one ∷ more) =
    rw (set_bytes_lem sources.items sources.cached one.id, set_pins sources more) refl

song_pins :
    (sources : PinSources) (kept : List PinnedSong)
    → map (pin_of_song sources) kept ≡ map (kept_song sources) kept
song_pins sources [] = refl
song_pins sources (one ∷ more) =
    rw (song_bytes_lem sources.cached one.song_id, song_pins sources more) refl

all_pins :
    (sources : PinSources) (kept : List PinnedSet)
    → map (pin_of_set sources) kept ++ map (pin_of_song sources) sources.pinned_songs
      ≡ map (kept_set sources) kept ++ map (kept_song sources) sources.pinned_songs
all_pins sources kept = rw (set_pins sources kept, song_pins sources sources.pinned_songs) refl

-- The pins listed are one for each set that is kept, by hand or for its date, and one for each song
-- pinned by hand, none of them larger than the one before it. The size of a set is the sum of the
-- cached sheets whose song is in the set, each sheet once however often the set has the song, and the
-- size of a song is the sum of its cached sheets; the reason tells a set pinned by hand from one whose
-- date is close.
pub held_pins_lem :
    (sources : PinSources) (now_ms : ℤ)
    → Permᴰ (held_pins sources now_ms) (
        map (kept_set sources) (
          keep
            (λ (kept : PinnedSet). is_auto_pinned kept.pinned kept.scheduled_for now_ms)
            sources.sets)
        ++ map (kept_song sources) sources.pinned_songs)
      × (descending (held_pins sources now_ms) ≡ true)
unfolding held_pins
held_pins_lem sources now_ms = (
  subst (λ pins. Permᴰ (held_pins sources now_ms) pins)
      (all_pins sources (
        keep (λ (kept : PinnedSet). is_auto_pinned kept.pinned kept.scheduled_for now_ms)
          sources.sets))
      (sort_pins-Perm (kept_pins sources now_ms)),
  sort_pins-descending (kept_pins sources now_ms),
)

in_days :
    (days : ℤ)
    → ((leb_ℤ (negsuc 0) days && leb_ℤ days (pos 14)) ≡ true)
      ↔ ((negsuc 0 ≤ℤ days) × (days ≤ℤ pos 14))
in_days days = (λ h. (ground arith, ground arith), λ (low, high). ground arith)

-- A set that nobody pinned is kept if and only if its date falls on a day from the one before today to
-- fourteen days on, whatever the hours.
pub is_auto_pinned-near :
    (text : Str) (now_ms when : ℤ)
    → parse text ≡ some when
    → (is_auto_pinned false (some text) now_ms ≡ true) ↔ (
        let days = div_euclid when 86_400_000 -ℤ div_euclid now_ms 86_400_000 in
        (negsuc 0 ≤ℤ days) × (days ≤ℤ pos 14))
unfolding is_auto_pinned
is_auto_pinned-near text now_ms when e = rw (e, days_between_lem now_ms when) (in_days _)
