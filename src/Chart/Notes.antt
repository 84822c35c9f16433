-- ===== src/Chart/Notes.antt =====
-- crates/core/src/chart/notes.rs: a note is a letter and an alteration, and a pitch is named in a
-- key. The `i16` and `i8` arithmetic is on exact integers: it stays within a few dozen of the
-- interval that a transposition is given.
pub mod Moves
pub mod Tables
pub mod Scale
pub mod Printed
pub mod Spelling
pub mod Transposing
use aurum_presenter.Prelude.{
  ℕ, zero, suc, ◌+◌, ◌-◌, ◌%◌, Bool, true, false, ◌||◌, Option, none, some, List, [], ◌∷◌, ◌++◌,
  ltb, leb, ◌==◌, if◌then◌else◌, find, get_or, map, position,
}
use aurum_presenter.Prelude.Text.{
  Str, codes, str_eq, trim, ascii_upper, ascii_lower, lowercase, strip_prefix, repeat,
}
use aurum_presenter.Prelude.Int.{ℤ, pos, negsuc, ◌+ℤ◌, ◌-ℤ◌, rem12, leb_ℤ}

pub data Letter : Type 0 where
  letter_c letter_d letter_e letter_f letter_g letter_a letter_b : Letter

pub record Note : Type 0 where
  pub letter : Letter
  pub alter : ℤ  -- i8: negative is flat, positive is sharp

pub record Key : Type 0 where
  pub tonic : Note
  pub minor : Bool

unfoldable pub index : Letter → ℕ
index letter_c = 0
index letter_d = 1
index letter_e = 2
index letter_f = 3
index letter_g = 4
index letter_a = 5
index letter_b = 6

abbrev all_letters : List Letter
all_letters = letter_c ∷ letter_d ∷ letter_e ∷ letter_f ∷ letter_g ∷ letter_a ∷ letter_b ∷ []

unfoldable pub from_index : ℕ → Letter
from_index i = get_or all_letters (i % 7) letter_c

abbrev pitches : List ℕ
pitches = 0 ∷ 2 ∷ 4 ∷ 5 ∷ 7 ∷ 9 ∷ 11 ∷ []

unfoldable pub natural_pitch : Letter → ℕ
unfolding index
natural_pitch l = get_or pitches (index l) 0

abbrev letter_names : Str
letter_names = codes "CDEFGAB"

unfoldable pub from_char : ℕ → Option Letter
unfolding ascii_upper from_index
from_char character =
    let upper = ascii_upper character in
    elim (position (λ name. name == upper) letter_names) [
      | none ↦ none
      | some i ↦ some (from_index i)
    ]

unfoldable pub pitch_class : Note → ℕ
unfolding natural_pitch rem12 ◌+ℤ◌
pitch_class n = rem12 (pos (natural_pitch n.letter) +ℤ n.alter)

unfoldable pub alter_of : Str → Option ℤ
unfolding str_eq
alter_of accidental =
    if str_eq accidental (codes "")
    then some (pos 0)
    else if str_eq accidental (codes "#")
    then some (pos 1)
    else if str_eq accidental (codes "♯")
    then some (pos 1)
    else if str_eq accidental (codes "##")
    then some (pos 2)
    else if str_eq accidental (codes "x")
    then some (pos 2)
    else if str_eq accidental (codes "b")
    then some (negsuc 0)
    else if str_eq accidental (codes "♭")
    then some (negsuc 0)
    else if str_eq accidental (codes "bb")
    then some (negsuc 1)
    else none

infixl 5 ◌>>=◌
abbrev pub ◌>>=◌ {ℓ κ} : {A : Type ℓ} {B : Type κ} → Option A → (A → Option B) → Option B
none >>= f = none
some x >>= f = f x

abbrev pub first : Str → Option (ℕ × Str)
first [] = none
first (x ∷ s) = some (x, s)

unfoldable pub note_parse : Str → Option Note
unfolding trim from_char alter_of
note_parse text = do
  (character, rest) ← first (trim text)
  letter ← from_char character
  alter ← alter_of rest
  some (record { letter = letter; alter = alter })

abbrev accidental : ℤ → Str
accidental (pos n) = repeat b'#' n
accidental (negsuc n) = repeat b'b' (suc n)

-- `fmt::Display for Note`.
unfoldable pub show_note : Note → Str
unfolding index
show_note n = get_or letter_names (index n.letter) 0 ∷ accidental n.alter

-- `into_iter().find(|candidate| rest.starts_with(candidate))`, with what follows the prefix.
unfoldable pub first_prefix : List Str → Str → Option (Str × Str)
unfolding strip_prefix
first_prefix [] text = none
first_prefix (p ∷ ps) text = elim (strip_prefix p text) [
  | none ↦ first_prefix ps text
  | some rest ↦ some (p, rest)
]

abbrev key_accidentals : List Str
key_accidentals =
    codes "##" ∷ codes "bb" ∷ codes "#" ∷ codes "b" ∷ codes "♯" ∷ codes "♭" ∷ codes "" ∷ []

unfoldable pub mode_of : Str → Option Bool
unfolding str_eq
mode_of mode =
    if str_eq mode (codes "m") || str_eq mode (codes "min") || str_eq mode (codes "minor")
    then some true
    else if str_eq mode (codes "") || str_eq mode (codes "maj") || str_eq mode (codes "major")
    then some false
    else none

unfoldable pub key_parse : Str → Option Key
unfolding trim from_char alter_of first_prefix mode_of ascii_lower
key_parse text = do
  (character, rest) ← first (trim text)
  letter ← from_char character
  (candidate, mode) ← first_prefix key_accidentals rest
  alter ← alter_of candidate
  minor ← mode_of (lowercase (trim mode))
  some (record { tonic = record { letter = letter; alter = alter }; minor = minor })

-- `fmt::Display for Key`.
unfoldable pub show_key : Key → Str
unfolding show_note
show_key k = show_note k.tonic ++ (if k.minor then codes "m" else [])

abbrev major_steps : List ℕ
major_steps = 0 ∷ 2 ∷ 4 ∷ 5 ∷ 7 ∷ 9 ∷ 11 ∷ []

abbrev minor_steps : List ℕ
minor_steps = 0 ∷ 2 ∷ 3 ∷ 5 ∷ 7 ∷ 8 ∷ 10 ∷ []

-- `((difference + 6).rem_euclid(12) - 6) as i8`
unfoldable pub normalise_alter : ℤ → ℤ
unfolding rem12 ◌+ℤ◌ ◌-ℤ◌
normalise_alter difference = pos (rem12 (difference +ℤ pos 6)) -ℤ pos 6

unfoldable pub steps_of : Key → List ℕ
steps_of k = if k.minor then minor_steps else major_steps

-- The closure of `scale`: the note of one degree.
unfoldable pub scale_note : Key → ℕ → Note
unfolding pitch_class from_index index natural_pitch normalise_alter steps_of ◌-ℤ◌
scale_note k degree =
    let letter = from_index (index k.tonic.letter + degree) in
    let wanted = (pitch_class k.tonic + get_or (steps_of k) degree 0) % 12 in
    record { letter = letter; alter = normalise_alter (pos wanted -ℤ pos (natural_pitch letter)) }

unfoldable pub scale : Key → List Note
unfolding scale_note
scale k = map (scale_note k) (0 ∷ 1 ∷ 2 ∷ 3 ∷ 4 ∷ 5 ∷ 6 ∷ [])

abbrev sum_ℤ : List ℤ → ℤ
sum_ℤ [] = pos 0
sum_ℤ (x ∷ xs) = x +ℤ sum_ℤ xs

abbrev pub abs : ℤ → ℕ
abs (pos n) = n
abs (negsuc n) = suc n

abbrev sum : List ℕ → ℕ
sum [] = 0
sum (accidentals ∷ more) = accidentals + sum more

unfoldable pub is_sharp : Key → Bool
unfolding scale ◌+ℤ◌
is_sharp k = leb_ℤ (pos 0) (sum_ℤ (map (λ n. n.alter) (scale k)))

unfoldable pub signature_size : Key → ℕ
unfolding scale
signature_size k = sum (map (λ n. abs n.alter) (scale k))
