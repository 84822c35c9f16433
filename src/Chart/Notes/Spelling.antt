-- ===== src/Chart/Notes/Spelling.antt =====
-- `Key::spell` of notes.rs names the pitch it is given, in every key that can be written.
use aurum_presenter.Prelude.{
  ℕ, ◌≤◌, ◌≡◌, refl, Bool, true, false, ◌&&◌, ◌||◌, not, arith, ==_iff, ◌==◌, leb, any, ◌⊎◌, ◌<◌,
}
use aurum_presenter.Prelude.Int.{ℤ, rem12, rem12-lt}
use aurum_presenter.Prelude.Int.{eqb_ℤ}
use aurum_presenter.Chart.Notes.{index, Note, Key, abs, pitch_class, scale}
use aurum_presenter.Chart.Notes.Moves.{spell, spell_target}
use aurum_presenter.Chart.Notes.Tables.{IsCommon, every_key_and_pitch, every_key_and_pitch_sound}

same_pitch : Key → ℕ → Bool
unfolding spell_target pitch_class
same_pitch k target = pitch_class (spell_target k target).note == target

same_pitch_table : every_key_and_pitch same_pitch ≡ true
unfolding every_key_and_pitch same_pitch
same_pitch_table = refl

-- In a key whose tonic has at most a double accidental, the note that `spell` gives has the pitch
-- that it was asked for, in the octave.
pub pitch_class-spell :
    (k : Key) (pitch : ℤ) → IsCommon k.tonic → pitch_class (spell k pitch).note ≡ rem12 pitch
unfolding spell same_pitch
pitch_class-spell k pitch h =
    (==_iff _ _).0
      (every_key_and_pitch_sound same_pitch same_pitch_table k (rem12 pitch) h (rem12-lt pitch))

-- The note stands in the key's scale.
pub diatonic : Key → Note → Bool
unfolding index
diatonic k n = any (λ m. (index m.letter == index n.letter) && eqb_ℤ m.alter n.alter) (scale k)

plain_or_diatonic : Key → ℕ → Bool
unfolding spell_target diatonic scale
plain_or_diatonic k target =
    let s = spell_target k target in
    leb (abs s.note.alter) 1 || (not s.respelled && diatonic k s.note)

plain_table : every_key_and_pitch plain_or_diatonic ≡ true
unfolding every_key_and_pitch plain_or_diatonic
plain_table = refl

read_test :
    (n : ℕ) (r d : Bool) → (leb n 1 || (not r && d)) ≡ true → (n ≤ 1) ⊎ ((r ≡ false) × (d ≡ true))
read_test n r d h = ground arith

spell_target_no_double :
    (k : Key) (t : ℕ)
    → IsCommon k.tonic
    → t < 12
    → (abs (spell_target k t).note.alter ≤ 1)
      ⊎ (((spell_target k t).respelled ≡ false) × (diatonic k (spell_target k t).note ≡ true))
spell_target_no_double k t h lt =
    read_test (abs (spell_target k t).note.alter) (spell_target k t).respelled
      (diatonic k (spell_target k t).note)
      (unfold plain_or_diatonic in every_key_and_pitch_sound plain_or_diatonic plain_table k t h lt)

-- In a key whose tonic has at most a double accidental, `spell` adds no double accidental: the note
-- that it gives has at most one sharp or flat, or is a note of the key's own scale, and then it is
-- not marked as respelled.
pub spell_no_double :
    (k : Key) (pitch : ℤ)
    → IsCommon k.tonic
    → (abs (spell k pitch).note.alter ≤ 1)
      ⊎ (((spell k pitch).respelled ≡ false) × (diatonic k (spell k pitch).note ≡ true))
spell_no_double k pitch h =
    unfold spell in spell_target_no_double k (rem12 pitch) h (rem12-lt pitch)
