-- ===== src/Chart/Notes/Tables.antt =====
-- Checks over every letter, every alteration that notes.rs parses, and every key of these: a
-- statement about all of them is a table that evaluates to `true`.
use aurum_presenter.Prelude.{
  ℕ, zero, suc, ◌≤◌, ◌<◌, ◌≡◌, Bool, true, false, ◌&&◌, arith, all_below, all_below_sound,
}
use aurum_presenter.Prelude.Int.{ℤ, pos, negsuc}
use aurum_presenter.Chart.Notes.{
  Letter, letter_c, letter_d, letter_e, letter_f, letter_g, letter_a, letter_b, Note, Key, abs,
}

-- A note with at most a double accidental, which is what `alter_of` reads.
abbrev pub IsCommon : Note → Type 0
IsCommon n = abs n.alter ≤ 2

pub every_letter : (Letter → Bool) → Bool
every_letter p =
    p letter_c && p letter_d && p letter_e && p letter_f && p letter_g && p letter_a && p letter_b

pub every_alter : (ℤ → Bool) → Bool
every_alter p = p (negsuc 1) && p (negsuc 0) && p (pos 0) && p (pos 1) && p (pos 2)

unfoldable pub every_note : (Note → Bool) → Bool
unfolding every_letter every_alter
every_note p = every_letter (λ l. every_alter (λ x. p (record { letter = l; alter = x })))

unfoldable pub every_key : (Key → Bool) → Bool
unfolding every_note
every_key p =
    every_note
      (λ n. p (record { tonic = n; minor = true }) && p (record { tonic = n; minor = false }))

unfoldable pub every_key_and_pitch : (Key → ℕ → Bool) → Bool
unfolding every_key all_below
every_key_and_pitch p = every_key (λ k. all_below 12 (p k))

every_letter_sound : (p : Letter → Bool) → every_letter p ≡ true → (l : Letter) → p l ≡ true
unfolding every_letter
every_letter_sound p h letter_c = ground arith
every_letter_sound p h letter_d = ground arith
every_letter_sound p h letter_e = ground arith
every_letter_sound p h letter_f = ground arith
every_letter_sound p h letter_g = ground arith
every_letter_sound p h letter_a = ground arith
every_letter_sound p h letter_b = ground arith

every_alter_sound : (p : ℤ → Bool) → every_alter p ≡ true → (x : ℤ) → abs x ≤ 2 → p x ≡ true
unfolding every_alter
every_alter_sound p h (pos zero) b = ground arith
every_alter_sound p h (pos (suc zero)) b = ground arith
every_alter_sound p h (pos (suc (suc zero))) b = ground arith
every_alter_sound p h (pos (suc (suc (suc n)))) b = absurd (omega arith)
every_alter_sound p h (negsuc zero) b = ground arith
every_alter_sound p h (negsuc (suc zero)) b = ground arith
every_alter_sound p h (negsuc (suc (suc n))) b = absurd (omega arith)

pub every_note_sound :
    (p : Note → Bool) → every_note p ≡ true → (n : Note) → IsCommon n → p n ≡ true
unfolding every_note
every_note_sound p h n b =
    every_alter_sound (λ x. p (record { letter = n.letter; alter = x }))
      (every_letter_sound (λ l. every_alter (λ x. p (record { letter = l; alter = x }))) h n.letter)
      n.alter b

both : (p : Bool → Bool) → (p true && p false) ≡ true → (m : Bool) → p m ≡ true
both p h true = ground arith
both p h false = ground arith

pub every_key_sound :
    (p : Key → Bool) → every_key p ≡ true → (k : Key) → IsCommon k.tonic → p k ≡ true
unfolding every_key
every_key_sound p h k b =
    both (λ m. p (record { tonic = k.tonic; minor = m }))
      (every_note_sound
        (λ n. p (record { tonic = n; minor = true }) && p (record { tonic = n; minor = false })) h
        k.tonic b)
      k.minor

pub every_key_and_pitch_sound :
    (p : Key → ℕ → Bool)
    → every_key_and_pitch p ≡ true
    → (k : Key) (x : ℕ) → IsCommon k.tonic
    → x < 12
    → p k x ≡ true
unfolding every_key_and_pitch
every_key_and_pitch_sound p h k x b lt =
    all_below_sound 12 (p k) x (every_key_sound (λ k. all_below 12 (p k)) h k b) lt
