-- ===== src/Examples/Charts.antt =====
-- Notes, keys and chords of crates/core/src/chart at concrete inputs.
use aurum_presenter.Prelude.{◌≡◌, true, false, none, some, arith}
use aurum_presenter.Prelude.Text.{codes}
use aurum_presenter.Prelude.Int.{pos, negsuc, ◌+ℤ◌, rem12}
use mathlib.Core.Option
use aurum_presenter.Chart.Notes.{Note, Key, letter_f, letter_e, pitch_class, key_parse, show_key}
use aurum_presenter.Chart.Notes.Moves.{spell, transposed}
use aurum_presenter.Chart.Notes.Spelling.{pitch_class-spell}
use aurum_presenter.Chart.Notes.Printed.{key_parse-show_key}
use aurum_presenter.Chart.Notes.Transposing.{transposed-transposed}
use aurum_presenter.Chart.Chord.{Chord, is_quality, atoms}
use aurum_presenter.Chart.Chord.Moved.{shifted, bass_pitch, transposed_moves}
use aurum_presenter.Chart.EffectiveKey.{KeyInputs}

abbrev f_sharp : Note
f_sharp = record { letter = letter_f; alter = pos 1 }

abbrev e_flat : Note
e_flat = record { letter = letter_e; alter = negsuc 0 }

abbrev f_sharp_minor : Key
f_sharp_minor = record { tonic = f_sharp; minor = true }

abbrev e_flat_major : Key
e_flat_major = record { tonic = e_flat; minor = false }

pitch_class-spell_example : pitch_class (spell f_sharp_minor (negsuc 2)).note ≡ rem12 (negsuc 2)
pitch_class-spell_example = pitch_class-spell f_sharp_minor (negsuc 2) (omega arith)

key_parse-show_key_example : key_parse (show_key f_sharp_minor) ≡ some f_sharp_minor
key_parse-show_key_example = key_parse-show_key f_sharp_minor (omega arith)

transposed-transposed_example :
    transposed (transposed e_flat_major (pos 3)) (negsuc 6)
    ≡ transposed e_flat_major (pos 3 +ℤ negsuc 6)
transposed-transposed_example = transposed-transposed e_flat_major (pos 3) (negsuc 6)

-- F#m7/Eb
abbrev slashed : Chord
slashed = record { root = f_sharp; quality = codes "m7"; bass = some e_flat }

transposed_moves_example :
    ((aurum_presenter.Chart.Chord.transposed slashed (pos 2) e_flat_major).chord.quality
      ≡ codes "m7")
    × (pitch_class (aurum_presenter.Chart.Chord.transposed slashed (pos 2) e_flat_major).chord.root
        ≡ shifted (pos 2) (pitch_class f_sharp))
    × (bass_pitch (aurum_presenter.Chart.Chord.transposed slashed (pos 2) e_flat_major).chord.bass
        ≡ Option.map (shifted (pos 2)) (bass_pitch (some e_flat)))
transposed_moves_example = transposed_moves slashed (pos 2) e_flat_major (omega arith)

abbrev two_levels : KeyInputs
two_levels = record {
  set_override = none;
  preferred = some (codes "H");
  arrangement_default = some (codes "Bb");
  song_original = some (codes "A");
}
