-- ===== src/Examples/Sessions.antt =====
-- Sessions, slides and pairing codes of crates/core/src/present at concrete inputs.
use aurum_presenter.Prelude.{ℕ, ◌≤◌, ◌≡◌, refl, true, false, none, some, List, [], ◌∷◌, map, arith}
use aurum_presenter.Prelude.Text.{Str, codes, ascii_upper}
use aurum_presenter.Prelude.Int.{pos, negsuc}
use aurum_presenter.Present.Session.{SessionState, showing, black, same_mode}
use aurum_presenter.Present.Session.Moves.{InRange}
use aurum_presenter.Present.Session.Order.{
  Command, move, jump, blank, say, run, run_revision, run-InRange,
}
use aurum_presenter.Present.Pairing.{pairing_code, normalise_code, is_valid_code}
use aurum_presenter.Present.Pairing.Codes.{UpperAscii, is_valid_code-pairing_code}
use aurum_presenter.Present.Slides.{ChartLine, split_lines}
use aurum_presenter.Present.Slides.Split.{Split, split_lines_lem}
use aurum_presenter.Present.Texts.{split_text}

abbrev session : SessionState ℕ ℕ ℕ
session = record {
  session_id = codes "s";
  workspace_id = codes "w";
  set_snapshot = 0;
  slides = 10 ∷ 11 ∷ 12 ∷ [];
  index = 1;
  blank_mode = showing;
  message = none;
  stage_message = none;
  theme = 0;
  started_at = codes "2026-09-06T10:00:00.000Z";
  revision = 7;
  ended = false;
}

not_black : same_mode session.blank_mode black ≡ false
unfolding same_mode
not_black = refl

abbrev service : List Command
service =
    move (pos 1) ∷ blank black ∷ jump (pos 40) ∷ move (negsuc 0) ∷ say (some (codes "Welcome")) ∷ []

run_revision_example :
    (session.revision ≤ (run session service).revision)
    × ((run session service).revision ≡ session.revision → run session service ≡ session)
run_revision_example = run_revision session service

run-InRange_example : InRange (run session service)
run-InRange_example = run-InRange session service (omega arith)

abbrev six_bytes : List ℕ
six_bytes = 0 ∷ 255 ∷ 31 ∷ 32 ∷ 100 ∷ 7 ∷ []

ascii : UpperAscii (map ascii_upper)
ascii s h = refl

is_valid_code-pairing_code_example :
    (normalise_code (map ascii_upper) (pairing_code six_bytes) ≡ pairing_code six_bytes)
    × (is_valid_code (map ascii_upper) (pairing_code six_bytes) ≡ true)
is_valid_code-pairing_code_example =
    is_valid_code-pairing_code (map ascii_upper) six_bytes ascii refl

abbrev sung : Str → ChartLine
sung text = record { segments = (record { chord = none; lyric = text }) ∷ []; comment = none }

abbrev verse : List ChartLine
verse =
    sung (codes "one")
    ∷ sung (codes "two")
    ∷ sung (codes "three.")
    ∷ sung (codes "four")
    ∷ sung (codes "five")
    ∷ []

split_lines_lem_example : Split 4 verse (split_lines verse 4)
split_lines_lem_example = split_lines_lem verse 4 (omega arith) (omega arith)

-- The first slide ends with the sentence, before it is full.
split_run :
    split_lines verse 4
    ≡ some (
        (sung (codes "one") ∷ sung (codes "two") ∷ sung (codes "three.") ∷ [])
        ∷ (sung (codes "four") ∷ sung (codes "five") ∷ [])
        ∷ [])
unfolding split_lines
split_run = refl

announcement :
    split_text (codes "one\ntwo\nthree\n \nfour") 2
    ≡ codes "one\ntwo" ∷ codes "three" ∷ codes "four" ∷ []
unfolding split_text
announcement = refl
