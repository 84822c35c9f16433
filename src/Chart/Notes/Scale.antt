-- ===== src/Chart/Notes/Scale.antt =====
-- `Key::scale` of notes.rs: seven letters in a row, each at its step above the tonic, and a minor
-- key spelled with the notes of its relative major.
use aurum_presenter.Prelude.{
  ℕ, ◌+◌, ◌%◌, ◌<◌, ◌≡◌, refl, Bool, true, false, ◌&&◌, arith, ◌==◌, all_below, all_below_sound,
  get_or,
}
use aurum_presenter.Prelude.Int.{eqb_ℤ}
use aurum_presenter.Chart.Notes.{
  Note, Key, scale_note, Bool, index, true, false, Letter, pitch_class, steps_of,
}
use aurum_presenter.Chart.Notes.Tables.{
  IsCommon, every_key, every_note, every_note_sound, every_key_sound,
}

-- Equality of notes, as a test.
abbrev pub same_note : Note → Note → Bool
same_note m n = (index m.letter == index n.letter) && eqb_ℤ m.alter n.alter

index_inj : (l m : Letter) → index l ≡ index m → l ≡ m
unfolding index
index_inj l m h = ground arith

pub same_note_lem : (m n : Note) → same_note m n ≡ true → m ≡ n
same_note_lem m n h = ground (arith, index_inj m.letter n.letter)

degree_right : Key → Bool
unfolding scale_note
degree_right k = all_below 7 (λ i.
    (index (scale_note k i).letter == (index k.tonic.letter + i) % 7)
    && (pitch_class (scale_note k i) == (pitch_class k.tonic + get_or (steps_of k) i 0) % 12))

degree_table : every_key degree_right ≡ true
unfolding every_key degree_right all_below
degree_table = refl

-- In a key whose tonic has at most a double accidental, each of the seven degrees of the scale has
-- the next letter in turn and the pitch that many semitones above the tonic.
pub scale_note_lem :
    (k : Key) (i : ℕ)
    → IsCommon k.tonic
    → i < 7
    → (index (scale_note k i).letter ≡ (index k.tonic.letter + i) % 7)
      × (pitch_class (scale_note k i) ≡ (pitch_class k.tonic + get_or (steps_of k) i 0) % 12)
scale_note_lem k i h lt = and_lem _ _ _ _ (
    all_below_sound 7
      (λ i.
        (index (scale_note k i).letter == (index k.tonic.letter + i) % 7)
        && (pitch_class (scale_note k i) == (pitch_class k.tonic + get_or (steps_of k) i 0) % 12))
      i (unfold degree_right in every_key_sound degree_right degree_table k h) lt)
  where
    and_lem : (a b c d : ℕ) → ((a == b) && (c == d)) ≡ true → (a ≡ b) × (c ≡ d)
    and_lem a b c d h = ground arith

-- The relative major of a minor key: on its third degree.
abbrev pub relative_major : Key → Key
relative_major k = record { tonic = scale_note k 2; minor = false }

relative : Note → Bool
unfolding scale_note
relative n =
    let k : Key = record { tonic = n; minor = true } in
    all_below 7 (λ i. same_note (scale_note (relative_major k) i) (scale_note k ((i + 2) % 7)))

relative_table : every_note relative ≡ true
unfolding every_note relative all_below
relative_table = refl

-- A minor key whose tonic has at most a double accidental is spelled from its relative major: each
-- degree of the major scale is, letter and accidental, the note two degrees further in the minor one.
pub scale-relative_major :
    (n : Note) (i : ℕ)
    → IsCommon n
    → i < 7
    → let k : Key = record { tonic = n; minor = true } in
      scale_note (relative_major k) i ≡ scale_note k ((i + 2) % 7)
scale-relative_major n i h lt =
    let k : Key = record { tonic = n; minor = true } in
    same_note_lem (scale_note (relative_major k) i) (scale_note k ((i + 2) % 7)) (
      all_below_sound 7
        (λ i. same_note (scale_note (relative_major k) i) (scale_note k ((i + 2) % 7))) i
        (unfold relative in every_note_sound relative relative_table n h) lt)
