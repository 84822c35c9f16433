-- ===== src/Present/Session/Order.antt =====
-- The revision by which outputs order what they receive: over any run of the control surface it
-- never falls, and two states of one run that carry the same revision are the same state.
use aurum_presenter.Prelude.{
  subst, sym, ◌≤◌, ◌<◌, ◌≡◌, refl, sym, subst, ◌⊎◌, inl, inr, Option, List, [], ◌∷◌, arith,
}
use aurum_presenter.Prelude.Text.{Str}
use aurum_presenter.Prelude.Int.{ℤ}
use aurum_presenter.Present.Session.{SessionState, BlankMode}
use aurum_presenter.Present.Session.{advanced, jumped, blanked, with_message, with_stage_message}
use aurum_presenter.Present.Session.Moves.{InRange}

-- What the operator asks for.
pub data Command : Type 0 where
  move : ℤ → Command
  jump : ℤ → Command
  blank : BlankMode → Command
  say : Option Str → Command
  say_to_stage : Option Str → Command

module _ {Slide Snapshot Theme : Type 0} where
  unfoldable pub step :
      SessionState Slide Snapshot Theme → Command → SessionState Slide Snapshot Theme
  unfolding advanced jumped blanked with_message with_stage_message
  step s (move delta) = advanced s delta
  step s (jump index) = jumped s index
  step s (blank mode) = blanked s mode
  step s (say message) = with_message s message
  step s (say_to_stage message) = with_stage_message s message

  unfoldable pub run :
      SessionState Slide Snapshot Theme → List Command → SessionState Slide Snapshot Theme
  run s [] = s
  run s (c ∷ cs) = run (step s c) cs

  step_revision :
      (s : SessionState Slide Snapshot Theme) (c : Command)
      → (step s c ≡ s) ⊎ (s.revision < (step s c).revision)
  unfolding step
  step_revision s (move delta) = ground arith
  step_revision s (jump index) = inr (omega arith)
  step_revision s (blank mode) = inr (omega arith)
  step_revision s (say message) = inr (omega arith)
  step_revision s (say_to_stage message) = inr (omega arith)

  step-InRange :
      (s : SessionState Slide Snapshot Theme) (c : Command) → InRange s → InRange (step s c)
  unfolding step
  step-InRange s (move delta) h = ground arith
  step-InRange s (jump index) h = ground arith
  step-InRange s (blank mode) h = h
  step-InRange s (say message) h = h
  step-InRange s (say_to_stage message) h = h

  -- Over any run of commands the revision never falls, and where it ends as it began, nothing of the
  -- state has changed.
  pub run_revision :
      (s : SessionState Slide Snapshot Theme) (cs : List Command)
      → (s.revision ≤ (run s cs).revision) × ((run s cs).revision ≡ s.revision → run s cs ≡ s)
  unfolding run
  run_revision s [] = (omega arith, λ e. refl)
  run_revision s (c ∷ cs) = elim (step_revision s c) [
    | inl same ↦
        subst
          (λ t.
            (s.revision ≤ (run t cs).revision) × ((run t cs).revision ≡ s.revision → run t cs ≡ s))
          (sym same) (run_revision s cs)
    | inr bumped ↦
        let ih = (run_revision (step s c) cs).0 in
        (omega (arith, ih), λ e. absurd (omega (arith, ih)))
  ]

  -- Over any run of commands the index stays on a slide, if it began on one.
  pub run-InRange :
      (s : SessionState Slide Snapshot Theme) (cs : List Command) → InRange s → InRange (run s cs)
  unfolding run
  run-InRange s [] h = h
  run-InRange s (c ∷ cs) h = run-InRange (step s c) cs (step-InRange s c h)
