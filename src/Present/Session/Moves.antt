-- ===== src/Present/Session/Moves.antt =====
-- What each operation of session.rs does to the slide that is shown, and to whom.
use aurum_presenter.Prelude.{ℕ, ◌+◌, ◌-◌, ◌≤◌, ◌≡◌, ◌≢◌, ◌⊎◌, false, none, arith, length}
use aurum_presenter.Prelude.Int.{ℤ, pos, ◌+ℤ◌, ◌≤ℤ◌}
use aurum_presenter.Present.Session.{SessionState, BlankMode, showing}
use aurum_presenter.Present.Session.{
  clamp, last_index, advanced, jumped, blanked, same_mode, audience_slide, stage_slide, next_slide,
}

-- The index points at a slide, or is 0 where there is none.
abbrev pub InRange : {Slide Snapshot Theme : Type 0} → SessionState Slide Snapshot Theme → Type 0
InRange s = s.index ≤ length s.slides - 1

-- A move lands on the slide that is `delta` away, or on the end that it would pass.
pub clamp_lem :
    (i : ℤ) (last : ℕ)
    → (clamp i last ≤ last)
      × (pos 0 ≤ℤ i → i ≤ℤ pos last → pos (clamp i last) ≡ i)
      × (i ≤ℤ pos 0 → clamp i last ≡ 0)
      × (pos last ≤ℤ i → clamp i last ≡ last)
unfolding clamp
clamp_lem i last = ground arith

module _ {Slide Snapshot Theme : Type 0} (s : SessionState Slide Snapshot Theme) where
  -- From an index that is on a slide, `advanced` leaves it on one, the one that `jumped` goes to at
  -- that distance, and keeps the slides.
  pub advanced-jumped :
      (delta : ℤ)
      → InRange s
      → (InRange (advanced s delta))
        × ((advanced s delta).index ≡ (jumped s (pos s.index +ℤ delta)).index)
        × ((advanced s delta).slides ≡ s.slides)
  unfolding advanced jumped last_index clamp
  advanced-jumped delta h = ground arith

  -- The revision is bumped exactly when the move is a move.
  pub revision-advanced :
      (delta : ℤ)
      → ((advanced s delta ≡ s) × (clamp (pos s.index +ℤ delta) (length s.slides - 1) ≡ s.index))
        ⊎ (((advanced s delta).revision ≡ s.revision + 1) × ((advanced s delta).index ≢ s.index))
  unfolding advanced last_index
  revision-advanced delta = ground arith

  -- Blanking the audience in any mode changes neither the slide of the stage nor the next one, and
  -- leaves the audience no slide, or the slide of the stage.
  pub stage_slide-blanked :
      (mode : BlankMode)
      → (stage_slide (blanked s mode) ≡ stage_slide s)
        × (next_slide (blanked s mode) ≡ next_slide s)
        × ((audience_slide (blanked s mode) ≡ none)
            ⊎ (audience_slide (blanked s mode) ≡ stage_slide s))
  unfolding blanked stage_slide next_slide audience_slide
  stage_slide-blanked mode = ground arith

  -- Blanking twice in a mode that the session is not in ends in the mode that shows slides, and the
  -- audience sees the slide of the stage.
  pub blanked-blanked :
      (mode : BlankMode)
      → same_mode s.blank_mode mode ≡ false
      → ((blanked (blanked s mode) mode).blank_mode ≡ showing)
        × (audience_slide (blanked (blanked s mode) mode) ≡ stage_slide s)
  unfolding blanked same_mode stage_slide audience_slide
  blanked-blanked mode h = ground arith
