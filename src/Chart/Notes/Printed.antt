-- ===== src/Chart/Notes/Printed.antt =====
-- Printing and reading a note or a key of notes.rs.
use aurum_presenter.Prelude.{
  ◌≡◌, refl, ap, Bool, true, false, ◌&&◌, ◌||◌, not, Option, none, some, arith,
}
use aurum_presenter.Chart.Notes.{
  Note, Key, note_parse, key_parse, show_note, show_key, Option, Bool, true, index, false,
}
use aurum_presenter.Chart.Notes.Tables.{
  IsCommon, every_note, every_note_sound, every_key, every_key_sound,
}
use aurum_presenter.Chart.Notes.Scale.{same_note, same_note_lem}

note_read : Option Note → Note → Bool
note_read none n = false
note_read (some m) n = same_note m n

note_read_lem : (o : Option Note) (n : Note) → note_read o n ≡ true → o ≡ some n
unfolding note_read
note_read_lem none n h = cc
note_read_lem (some m) n h = ap some (same_note_lem m n h)

note_table : every_note (λ n. note_read (note_parse (show_note n)) n) ≡ true
unfolding every_note note_read note_parse show_note index
note_table = refl

-- A note with at most a double accidental is read back as it was printed.
pub note_parse-show_note : (n : Note) → IsCommon n → note_parse (show_note n) ≡ some n
note_parse-show_note n h =
    note_read_lem (note_parse (show_note n)) n
      (every_note_sound (λ n. note_read (note_parse (show_note n)) n) note_table n h)

key_read : Option Key → Key → Bool
key_read none k = false
key_read (some j) k =
    same_note j.tonic k.tonic && ((j.minor && k.minor) || not (j.minor || k.minor))

key_read_lem : (o : Option Key) (k : Key) → key_read o k ≡ true → o ≡ some k
unfolding key_read
key_read_lem none k h = cc
key_read_lem (some j) k h = ground (arith, same_note_lem j.tonic k.tonic)

key_table : every_key (λ k. key_read (key_parse (show_key k)) k) ≡ true
unfolding every_key key_read key_parse show_key index
key_table = refl

-- A key whose tonic has at most a double accidental is read back as it was printed.
pub key_parse-show_key : (k : Key) → IsCommon k.tonic → key_parse (show_key k) ≡ some k
key_parse-show_key k h =
    key_read_lem (key_parse (show_key k)) k
      (every_key_sound (λ k. key_read (key_parse (show_key k)) k) key_table k h)
