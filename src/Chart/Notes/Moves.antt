-- ===== src/Chart/Notes/Moves.antt =====
-- crates/core/src/chart/notes.rs: keys in transposition, and the spelling and the degree of a pitch in a key.
use aurum_presenter.Prelude.{
  ℕ, ◌+◌, ◌-◌, ◌%◌, Bool, true, false, Option, none, some, List, [], ◌∷◌, ◌++◌, ltb, leb, ◌==◌,
  if◌then◌else◌, find, get_or,
}
use aurum_presenter.Prelude.Text.{Str, codes}
use aurum_presenter.Prelude.Int.{ℤ, pos, negsuc, ◌+ℤ◌, ◌-ℤ◌, rem12}
use aurum_presenter.Chart.Notes.{
  Letter, Note, Key, index, pitch_class, note_parse, accidental, normalise_alter, scale, abs,
  is_sharp, signature_size, letter_c,
}

abbrev pub natural_note : Letter → Note
natural_note l = record { letter = l; alter = pos 0 }

abbrev pub sharp_names : List Str
sharp_names =
    codes "C"
    ∷ codes "C#"
    ∷ codes "D"
    ∷ codes "D#"
    ∷ codes "E"
    ∷ codes "F"
    ∷ codes "F#"
    ∷ codes "G"
    ∷ codes "G#"
    ∷ codes "A"
    ∷ codes "A#"
    ∷ codes "B"
    ∷ []

abbrev pub flat_names : List Str
flat_names =
    codes "C"
    ∷ codes "Db"
    ∷ codes "D"
    ∷ codes "Eb"
    ∷ codes "E"
    ∷ codes "F"
    ∷ codes "Gb"
    ∷ codes "G"
    ∷ codes "Ab"
    ∷ codes "A"
    ∷ codes "Bb"
    ∷ codes "B"
    ∷ []

-- `Note::parse(names[pitch]).unwrap()`: every name of the two tables is a note.
unfoldable pub named : List Str → ℕ → Note
unfolding note_parse
named names pitch = elim (note_parse (get_or names pitch [])) [
  | none ↦ natural_note letter_c
  | some n ↦ n
]

-- Of the two names of a pitch, the one whose own signature is the simpler.
unfoldable pub simpler : Key → Key → Key
unfolding signature_size
simpler sharp flat = if ltb (signature_size flat) (signature_size sharp) then flat else sharp

unfoldable pub transposed : Key → ℤ → Key
unfolding pitch_class rem12 ◌+ℤ◌ named simpler
transposed k semitones =
    let pitch = rem12 (pos (pitch_class k.tonic) +ℤ semitones) in
    simpler (record { tonic = named sharp_names pitch; minor = k.minor })
      (record { tonic = named flat_names pitch; minor = k.minor })

unfoldable pub interval_to : Key → Key → ℕ
unfolding pitch_class rem12 ◌-ℤ◌
interval_to k other = rem12 (pos (pitch_class other.tonic) -ℤ pos (pitch_class k.tonic))

unfoldable pub shortest_interval_to : Key → Key → ℤ
unfolding interval_to ◌-ℤ◌
shortest_interval_to k other =
    let up = interval_to k other in if ltb 6 up then pos up -ℤ pos 12 else pos up

pub record Spelled : Type 0 where
  pub note : Note
  pub respelled : Bool

abbrev pub keeps : Note → Spelled
keeps n = record { note = n; respelled = false }

-- The last lines of `spell`: the plain name on the key's accidental side.
unfoldable pub plain_name : Bool → ℕ → Spelled
unfolding named
plain_name sharp target = record {
  note = named (if sharp then sharp_names else flat_names) target;
  respelled = true;
}

-- The neighbour's letter with one more accidental, unless that is a double one.
unfoldable pub from_neighbour : Bool → ℕ → Option Note → Spelled
unfolding plain_name ◌+ℤ◌
from_neighbour sharp target none = plain_name sharp target
from_neighbour sharp target (some neighbour) =
    let alter = neighbour.alter +ℤ (if sharp then pos 1 else negsuc 0) in
    if leb (abs alter) 1
    then keeps (record { letter = neighbour.letter; alter = alter })
    else plain_name sharp target

unfoldable pub spell_target : Key → ℕ → Spelled
unfolding scale is_sharp pitch_class from_neighbour
spell_target k target = elim (find (λ n. pitch_class n == target) (scale k)) [
  | some diatonic ↦ keeps diatonic
  | none ↦
      let sharp = is_sharp k in
      let neighbour_pitch = if sharp then (target + 11) % 12 else (target + 1) % 12 in
      from_neighbour sharp target (find (λ n. pitch_class n == neighbour_pitch) (scale k))
]

unfoldable pub spell : Key → ℤ → Spelled
unfolding spell_target rem12
spell k pitch = spell_target k (rem12 pitch)

unfoldable pub degree_of : Key → Note → Str
unfolding scale index pitch_class normalise_alter ◌-ℤ◌
degree_of k note =
    let i = (index note.letter + 7 - index k.tonic.letter) % 7 in
    let difference =
      normalise_alter (pos (pitch_class note) -ℤ pos (pitch_class (get_or (scale k) i note))) in
    accidental difference ++ (b'1' + i) ∷ []
