-- ===== src/Chart/Chord.antt =====
-- crates/core/src/chart/chord.rs: the chord grammar, and what transposition does to a chord. The loop
-- of `is_quality` takes fuel: `none` is the fuel running out. Lower-casing a marker is on ASCII
-- letters: no other character becomes one that a marker has.
pub mod Quality
pub mod Moved
use mathlib.Core.Option
use aurum_presenter.Prelude.{
  ℕ, zero, suc, ◌+◌, ◌-◌, ◌*◌, ◌/◌, ◌%◌, ◌≤◌, ◌<◌, min, max, ◌≡◌, refl, sym, ap, ◌∙◌, subst, ◌≢◌,
  ◌↔◌, ◌⊎◌, inl, inr, Bool, true, false, ◌&&◌, ◌||◌, not, Option, none, some, List, [], ◌∷◌, ◌++◌,
  map, arith, ltb, leb, ◌==◌, if◌then◌else◌, ltb→lt, lt→ltb, ==_iff, Bool-cases, Option-cases,
  unwrap_or, all_below, all_below_sound, length, get_elem?, get_or, take, drop, get_last?, keep,
  find, any, all, position, All, length-append, take-append-drop, length-take, length-drop,
  All-append, All-map,
}
use aurum_presenter.Prelude.Text.{
  Str, codes, str_eq, str_ltb, is_empty, str_eq-true, str_eq_refl, str_eq_iff, str_ltb_irrefl,
  str_ltb_trans, str_ltb_total, is_whitespace, trim_start, trim_end, trim, ascii_upper, ascii_lower,
  lowercase, strip_prefix, repeat,
}
use aurum_presenter.Prelude.Int.{
  ℤ, pos, negsuc, pos_part, neg_part, sub_ℕ, ◌+ℤ◌, ◌-ℤ◌, ◌≤ℤ◌, ltb_ℤ, leb_ℤ, eqb_ℤ, rem12,
  div_euclid, rem_euclid, +ℤ_parts, -ℤ_parts, eq_of_parts, int_laws, rem12-lt, rem12-add, +ℤ_assoc,
}
use aurum_presenter.Chart.Notes.{
  Note, Key, Letter, from_char, note_parse, first_prefix, show_note, pitch_class, first, ◌>>=◌,
}
use aurum_presenter.Chart.Notes.Moves.{Spelled, spell, degree_of}

pub record Chord : Type 0 where
  pub root : Note
  pub quality : Str
  pub bass : Option Note

pub record ChordToken : Type 0 where
  pub text : Str
  pub chord : Option Chord
  pub marker : Bool

abbrev markers : List Str
markers = codes "n.c." ∷ codes "nc" ∷ codes "x" ∷ codes "%" ∷ codes "/" ∷ []

-- `NUMBERS.into_iter().chain(ATOMS)`
unfoldable pub atoms : List Str
atoms =
    codes "13"
    ∷ codes "11"
    ∷ codes "9"
    ∷ codes "7"
    ∷ codes "6"
    ∷ codes "5"
    ∷ codes "4"
    ∷ codes "3"
    ∷ codes "2"
    ∷ codes "maj"
    ∷ codes "major"
    ∷ codes "min"
    ∷ codes "minor"
    ∷ codes "sus2"
    ∷ codes "sus4"
    ∷ codes "sus"
    ∷ codes "add"
    ∷ codes "dim"
    ∷ codes "aug"
    ∷ codes "alt"
    ∷ codes "no"
    ∷ codes "m"
    ∷ codes "M"
    ∷ codes "Δ"
    ∷ codes "°"
    ∷ codes "ø"
    ∷ codes "+"
    ∷ codes "-"
    ∷ codes "("
    ∷ codes ")"
    ∷ codes ","
    ∷ codes " "
    ∷ codes "/"
    ∷ codes "#"
    ∷ codes "b"
    ∷ codes "♯"
    ∷ codes "♭"
    ∷ codes "2"
    ∷ codes "3"
    ∷ []

-- `'outer: while !rest.is_empty()`, with what is left of the quality.
unfoldable pub is_quality_in : List Str → ℕ → Str → Option Bool
is_quality_in ps zero rest = none
is_quality_in ps (suc fuel) [] = some true
is_quality_in ps (suc fuel) (c ∷ rest) = elim (first_prefix ps (c ∷ rest)) [
  | none ↦ some false
  | some (atom, remainder) ↦ is_quality_in ps fuel remainder
]

unfoldable pub is_quality : Str → Option Bool
unfolding is_quality_in atoms first_prefix
is_quality quality = is_quality_in atoms (suc (length quality)) quality

-- `token.rfind('/')`, with what stands before and after it.
unfoldable pub split_last_slash : Str → Option (Str × Str)
split_last_slash [] = none
split_last_slash (c ∷ s) = elim (split_last_slash s) [
  | some (before, after) ↦ some (c ∷ before, after)
  | none ↦ if c == b'/' then some ([], s) else none
]

unfoldable pub split_bass : Str → Str × Option Note
unfolding split_last_slash note_parse
split_bass token = elim (split_last_slash token) [
  | none ↦ (token, none)
  | some (before, after) ↦
      if is_empty before
      then (token, none)
      else elim (note_parse after) [ none ↦ (token, none) | some bass ↦ (before, some bass) ]
]

abbrev pub root_accidentals : List Str
root_accidentals = codes "##" ∷ codes "bb" ∷ codes "#" ∷ codes "b" ∷ codes "♯" ∷ codes "♭" ∷ []

unfoldable pub root_alter : Str → ℤ
unfolding str_eq
root_alter accidental =
    if str_eq accidental (codes "#") || str_eq accidental (codes "♯")
    then pos 1
    else if str_eq accidental (codes "##")
    then pos 2
    else if str_eq accidental (codes "b") || str_eq accidental (codes "♭")
    then negsuc 0
    else if str_eq accidental (codes "bb")
    then negsuc 1
    else pos 0

-- The accidental, with what follows it: `""` where there is none.
abbrev pub accidental_of : Str → Str × Str
accidental_of rest = unwrap_or (first_prefix root_accidentals rest) ([], rest)

abbrev pub capital : ℕ → Option ℕ
capital c = if leb b'A' c && leb c b'Z' then some c else none

unfoldable pub parse_root : Str → Option (Note × Str)
unfolding from_char first_prefix root_alter
parse_root head = do
  (c, rest) ← first head
  upper ← capital c
  letter ← from_char upper
  let split = accidental_of rest
  some (record { letter = letter; alter = root_alter split.0 }, split.1)

abbrev when_quality : Option Bool → Chord → Option Chord
when_quality (some true) chord = some chord
when_quality _ chord = none

unfoldable pub parse : Str → Option Chord
unfolding trim split_bass parse_root is_quality
parse text =
    let token = trim text in
    if is_empty token then none else do
      let split = split_bass token
      (root, rest) ← parse_root split.0
      when_quality (is_quality rest) (record { root = root; quality = rest; bass = split.1 })

pub record Transposed : Type 0 where
  pub chord : Chord
  pub respelled : Bool

-- `target.spell(note.pitch_class() + semitones)`
unfoldable pub moved : Note → ℤ → Key → Spelled
unfolding pitch_class spell ◌+ℤ◌
moved note semitones target = spell target (pos (pitch_class note) +ℤ semitones)

abbrev is_some_and : {A : Type 0} → (A → Bool) → Option A → Bool
is_some_and p none = false
is_some_and p (some x) = p x

unfoldable pub transposed : Chord → ℤ → Key → Transposed
transposed c semitones target =
    let root = moved c.root semitones target in
    let bass = Option.map (λ note. moved note semitones target) c.bass in
    record {
      chord = record {
        root = root.note;
        quality = c.quality;
        bass = Option.map (λ (spelled : Spelled). spelled.note) bass;
      };
      respelled = root.respelled || is_some_and (λ (spelled : Spelled). spelled.respelled) bass;
    }

unfoldable pub nashville : Chord → Key → Str
unfolding degree_of
nashville c key =
    degree_of key c.root
    ++ c.quality
    ++ elim c.bass [ none ↦ [] | some note ↦ b'/' ∷ degree_of key note ]

-- `fmt::Display for Chord`
unfoldable pub show_chord : Chord → Str
unfolding show_note
show_chord c =
    show_note c.root ++ c.quality ++ elim c.bass [ none ↦ [] | some bass ↦ b'/' ∷ show_note bass ]

abbrev is_none : {A : Type 0} → Option A → Bool
is_none none = true
is_none (some x) = false

unfoldable pub read : Str → ChordToken
unfolding parse trim ascii_lower str_eq
read text =
    let chord = parse text in
    record {
      text = text;
      chord = chord;
      marker = is_none chord && any (λ m. str_eq m (lowercase (trim text))) markers;
    }
