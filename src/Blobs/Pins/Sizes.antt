-- ===== src/Blobs/Pins/Sizes.antt =====
-- What the pins of crates/core/src/blobs/policy.rs cost: the cached sheets of their songs, each once.
use aurum_presenter.Prelude.{
  ℕ, ◌+◌, ◌≡◌, refl, ◌∙◌, inl, inr, Bool, false, ◌&&◌, ◌||◌, Option, none, some, List, [], ◌∷◌, map,
  arith, if◌then◌else◌, Bool-cases, any,
}
use aurum_presenter.Prelude.Text.{Str, str_eq, str_eq-true}
use aurum_presenter.Blobs.Pins.{SetSong, CachedSheet, bytes_of, songs_of, added, total}

-- The bytes of the cached sheets whose song is wanted.
abbrev pub cached_bytes : (Str → Bool) → List CachedSheet → ℕ
cached_bytes wanted [] = 0
cached_bytes wanted (sheet ∷ cached) =
    (if wanted sheet.song_id then sheet.bytes else 0) + cached_bytes wanted cached

abbrev pub names_song : Option Str → Str → Bool
names_song none song = false
names_song (some other) song = str_eq other song

-- Whether an item of the set is this song.
abbrev pub is_in_set : List SetSong → Str → Str → Bool
is_in_set items set_id song =
    any (λ (item : SetSong). str_eq item.set_id set_id && names_song item.song_id song) items

abbrev contains : Str → List Str → Bool
contains song songs = any (str_eq song) songs

abbrev NoDuplicates : List Str → Type 0
NoDuplicates [] = Unit
NoDuplicates (song ∷ songs) = (contains song songs ≡ false) × NoDuplicates songs

str_eq_comm : (a b : Str) → str_eq a b ≡ str_eq b a
str_eq_comm a b = elim (Bool-cases (str_eq a b)) [
  | inl e ↦ rw (str_eq-true a b e) refl
  | inr e ↦ elim (Bool-cases (str_eq b a)) [
    | inl f ↦ rw (str_eq-true b a f) refl
    | inr f ↦ rw (e, f) refl
  ]
]

contains-added :
    (song : Str) (named : Option Str) (songs : List Str)
    → contains song (added named songs) ≡ (names_song named song || contains song songs)
contains-added song none songs = refl
contains-added song (some other) songs = elim (Bool-cases (any (str_eq other) songs)) [
  | inl e ↦ rw e (elim (Bool-cases (str_eq other song)) [
    | inl f ↦ rw (f, ← str_eq-true other song f, e) refl
    | inr f ↦ rw f refl
  ])
  | inr e ↦ rw (e, str_eq_comm other song) refl
]

contains-songs_of :
    (song : Str) (items : List SetSong) (set_id : Str)
    → contains song (songs_of items set_id) ≡ is_in_set items set_id song
contains-songs_of song [] set_id = refl
contains-songs_of song (item ∷ items) set_id = elim (Bool-cases (str_eq item.set_id set_id)) [
  | inl e ↦ rw e (
      contains-added song item.song_id (songs_of items set_id)
      ∙ rw (contains-songs_of song items set_id) refl)
  | inr e ↦ rw e (contains-songs_of song items set_id)
]

added-NoDuplicates :
    (named : Option Str) (songs : List Str) → NoDuplicates songs → NoDuplicates (added named songs)
added-NoDuplicates none songs d = d
added-NoDuplicates (some song) songs d = elim (Bool-cases (any (str_eq song) songs)) [
  | inl e ↦ rw e d
  | inr e ↦ rw e (e, d)
]

songs_of-NoDuplicates : (items : List SetSong) (set_id : Str) → NoDuplicates (songs_of items set_id)
songs_of-NoDuplicates [] set_id = tt
songs_of-NoDuplicates (item ∷ items) set_id = elim (Bool-cases (str_eq item.set_id set_id)) [
  | inl e ↦ rw e (added-NoDuplicates item.song_id _ (songs_of-NoDuplicates items set_id))
  | inr e ↦ rw e (songs_of-NoDuplicates items set_id)
]

total_zero : (songs : List Str) → total (map (bytes_of []) songs) ≡ 0
total_zero [] = refl
total_zero (song ∷ songs) = rw (total_zero songs) (omega arith)

total_sum :
    (f g : Str → ℕ) (songs : List Str)
    → total (map (λ song. f song + g song) songs) ≡ total (map f songs) + total (map g songs)
total_sum f g [] = refl
total_sum f g (song ∷ songs) = let ih = total_sum f g songs in omega arith

total_one :
    (song : Str) (n : ℕ) (songs : List Str)
    → NoDuplicates songs
    → total (map (λ s. if str_eq song s then n else 0) songs)
      ≡ (if contains song songs then n else 0)
total_one song n [] d = refl
total_one song n (other ∷ songs) (new, d) = elim (Bool-cases (str_eq song other)) [
  | inl e ↦
      (let gone : contains song songs ≡ false = rw (str_eq-true song other e) new in
        rw (e, total_one song n songs d, gone) (omega arith))
  | inr e ↦ rw (e, total_one song n songs d) (ground arith)
]

total_lem :
    (cached : List CachedSheet) (songs : List Str)
    → NoDuplicates songs
    → total (map (bytes_of cached) songs) ≡ cached_bytes (λ song. contains song songs) cached
total_lem [] songs d = total_zero songs
total_lem (sheet ∷ cached) songs d =
    total_sum (λ song. if str_eq sheet.song_id song then sheet.bytes else 0) (bytes_of cached) songs
    ∙ rw (total_one sheet.song_id sheet.bytes songs d, total_lem cached songs d) refl

cached_bytes_same :
    (p q : Str → Bool) (cached : List CachedSheet)
    → ((song : Str) → p song ≡ q song)
    → cached_bytes p cached ≡ cached_bytes q cached
cached_bytes_same p q [] e = refl
cached_bytes_same p q (sheet ∷ cached) e = rw (e sheet.song_id, cached_bytes_same p q cached e) refl

-- The sum over the songs of a set is the sum over the cached sheets whose song is in the set.
pub set_bytes_lem :
    (items : List SetSong) (cached : List CachedSheet) (set_id : Str)
    → total (map (bytes_of cached) (songs_of items set_id))
      ≡ cached_bytes (λ song. is_in_set items set_id song) cached
set_bytes_lem items cached set_id =
    total_lem cached (songs_of items set_id) (songs_of-NoDuplicates items set_id)
    ∙ cached_bytes_same _ _ cached (λ song. contains-songs_of song items set_id)

pub song_bytes_lem :
    (cached : List CachedSheet) (song : Str)
    → bytes_of cached song ≡ cached_bytes (λ other. str_eq other song) cached
song_bytes_lem [] song = refl
song_bytes_lem (sheet ∷ cached) song = rw (song_bytes_lem cached song) refl
