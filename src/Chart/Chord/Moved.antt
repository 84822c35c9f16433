-- ===== src/Chart/Chord/Moved.antt =====
-- Transposing a chord of chord.rs moves its root and its bass by the same interval.
use mathlib.Core.Option
use aurum_presenter.Prelude.{ℕ, ◌≡◌, refl, ap, Option, none, some}
use aurum_presenter.Prelude.Int.{ℤ, pos, ◌+ℤ◌, rem12}
use aurum_presenter.Chart.Notes.{Note, Key, pitch_class}
use aurum_presenter.Chart.Notes.Moves.{Spelled}
use aurum_presenter.Chart.Notes.Tables.{IsCommon}
use aurum_presenter.Chart.Notes.Spelling.{pitch_class-spell}
use aurum_presenter.Chart.Chord.{Chord, moved, transposed}

-- The pitch of a chord's bass, if it has one.
abbrev pub bass_pitch : Option Note → Option ℕ
bass_pitch none = none
bass_pitch (some n) = some (pitch_class n)

-- A pitch in the octave, moved.
abbrev pub shifted : ℤ → ℕ → ℕ
shifted s p = rem12 (pos p +ℤ s)

pitch_class-moved :
    (n : Note) (s : ℤ) (target : Key)
    → IsCommon target.tonic
    → pitch_class (moved n s target).note ≡ shifted s (pitch_class n)
pitch_class-moved n s target h =
    unfold moved in pitch_class-spell target (pos (pitch_class n) +ℤ s) h

-- Transposed into a key whose tonic has at most a double accidental, a chord keeps its quality as
-- it was written, and its root and its bass, if there is one, sound the interval away.
pub transposed_moves :
    (c : Chord) (s : ℤ) (target : Key)
    → IsCommon target.tonic
    → let t = (transposed c s target).chord in
      (t.quality ≡ c.quality)
      × (pitch_class t.root ≡ shifted s (pitch_class c.root))
      × (bass_pitch t.bass ≡ Option.map (shifted s) (bass_pitch c.bass))
unfolding transposed
transposed_moves c s target h = (refl, pitch_class-moved c.root s target h, bass c.bass)
  where
    bass :
        (b : Option Note)
        → bass_pitch
            (Option.map (λ (x : Spelled). x.note) (Option.map (λ note. moved note s target) b))
          ≡ Option.map (shifted s) (bass_pitch b)
    bass none = refl
    bass (some n) = ap some (pitch_class-moved n s target h)
