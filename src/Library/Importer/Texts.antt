-- ===== src/Library/Importer/Texts.antt =====
-- The tests on a text of crates/core/src/library/importer.rs: the control characters, and the blank texts.
use aurum_presenter.Prelude.{
  ℕ, ◌≡◌, refl, ◌∙◌, inl, inr, Bool, true, false, ◌||◌, not, [], ◌∷◌, arith, leb, ◌==◌,
  if◌then◌else◌, Bool-cases, any, all,
}
use aurum_presenter.Prelude.Text.{Str, is_empty, is_whitespace, trim_start, trim_end, trim}
use aurum_presenter.Library.Importer.{is_odd_control}

-- A character that a text has: a tab, an end of a line, or none of the control characters.
abbrev pub is_plain : ℕ → Bool
is_plain c =
    if leb 160 c
    then true
    else if leb 127 c
    then false
    else if leb 32 c
    then true
    else (c == 9) || ((c == 10) || (c == 13))

abbrev pub is_blank_text : Str → Bool
is_blank_text text = all is_whitespace text

pub odd_lem : (text : Str) → any is_odd_control text ≡ not (all is_plain text)
unfolding is_odd_control
odd_lem [] = refl
odd_lem (c ∷ text) =
    let here : is_odd_control c ≡ not (is_plain c) = ground arith in
    rw (here, odd_lem text)
      (elim (Bool-cases (is_plain c)) [ inl e ↦ rw e refl | inr e ↦ rw e refl ])

start_blank : (text : Str) → is_empty (trim_start text) ≡ is_blank_text text
unfolding trim_start
start_blank [] = refl
start_blank (c ∷ text) = elim (Bool-cases (is_whitespace c)) [
  | inl e ↦ rw e (start_blank text)
  | inr e ↦ rw e refl
]

end_blank : (text : Str) → is_empty (trim_end text) ≡ is_blank_text text
unfolding trim_end
end_blank [] = refl
end_blank (c ∷ text) = elim (Bool-cases (is_whitespace c)) [
  | inl e ↦ elim (Bool-cases (is_empty (trim_end text))) [
    | inl f ↦ rw (e, f, ← end_blank text, f) refl
    | inr f ↦ rw (e, f, ← end_blank text, f) refl
  ]
  | inr e ↦ rw e refl
]

start_keeps : (text : Str) → is_blank_text (trim_start text) ≡ is_blank_text text
unfolding trim_start
start_keeps [] = refl
start_keeps (c ∷ text) = elim (Bool-cases (is_whitespace c)) [
  | inl e ↦ rw e (start_keeps text)
  | inr e ↦ rw (e, e) refl
]

pub blank_lem : (text : Str) → is_empty (trim text) ≡ is_blank_text text
unfolding trim
blank_lem text = end_blank (trim_start text) ∙ start_keeps text
