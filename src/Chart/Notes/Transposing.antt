-- ===== src/Chart/Notes/Transposing.antt =====
-- Transposing a key of notes.rs: the tonic moves by the interval, intervals add up, and the
-- shorter of the two directions is taken.
use aurum_presenter.Prelude.{
  ℕ, ◌≤◌, ◌<◌, ◌≡◌, refl, ◌∙◌, Bool, true, ◌&&◌, arith, ◌==◌, ltb, leb, if◌then◌else◌, all_below,
  all_below_sound, Bool-cases, inl, inr,
}
use aurum_presenter.Prelude.Int.{
  ℤ, pos, negsuc, ◌+ℤ◌, ◌-ℤ◌, ◌≤ℤ◌, rem12, rem12-lt, rem12-add, +ℤ_assoc,
}
use aurum_presenter.Chart.Notes.{Note, Key, abs, pitch_class, signature_size, natural_pitch}
use aurum_presenter.Chart.Notes.Moves.{
  named, sharp_names, flat_names, transposed, interval_to, shortest_interval_to, simpler,
}

plain_names : ℕ → Bool
unfolding named pitch_class
plain_names p =
    (pitch_class (named sharp_names p) == p)
    && (pitch_class (named flat_names p) == p)
    && leb (abs (named sharp_names p).alter) 1
    && leb (abs (named flat_names p).alter) 1

plain_names_table : all_below 12 plain_names ≡ true
unfolding all_below plain_names
plain_names_table = refl

names_lem :
    (p : ℕ)
    → p < 12
    → (pitch_class (named sharp_names p) ≡ p)
      × (pitch_class (named flat_names p) ≡ p)
      × (abs (named sharp_names p).alter ≤ 1)
      × (abs (named flat_names p).alter ≤ 1)
unfolding plain_names
names_lem p h = ground (arith, all_below_sound 12 plain_names p plain_names_table h)

-- Moving by a pitch, as far as the choice of a name goes.
module _ (k : Key) (p : ℕ) (h : p < 12) where
  simpler_lem :
      let r =
        simpler
          (record { tonic = named sharp_names p; minor = k.minor })
          (record { tonic = named flat_names p; minor = k.minor }) in
      (pitch_class r.tonic ≡ p) × (abs r.tonic.alter ≤ 1) × (r.minor ≡ k.minor)
  unfolding simpler
  simpler_lem =
      elim (Bool-cases (
        ltb (signature_size (record { tonic = named flat_names p; minor = k.minor }))
          (signature_size (record { tonic = named sharp_names p; minor = k.minor })))) [
            | inl e ↦ rw e ((names_lem p h).1, (names_lem p h).3, refl)
            | inr e ↦ rw e ((names_lem p h).0, (names_lem p h).2, refl)
          ]

-- The tonic of a transposed key has the moved pitch and at most one accidental, and the mode is
-- kept.
pub transposed_lem :
    (k : Key) (s : ℤ)
    → (pitch_class (transposed k s).tonic ≡ rem12 (pos (pitch_class k.tonic) +ℤ s))
      × (abs (transposed k s).tonic.alter ≤ 1)
      × ((transposed k s).minor ≡ k.minor)
transposed_lem k s =
    let p = rem12 (pos (pitch_class k.tonic) +ℤ s) in
    unfold transposed in simpler_lem k p (rem12-lt (pos (pitch_class k.tonic) +ℤ s))

transposed_pitch :
    (j k : Key) (s t : ℤ)
    → rem12 (pos (pitch_class j.tonic) +ℤ s) ≡ rem12 (pos (pitch_class k.tonic) +ℤ t)
    → j.minor ≡ k.minor
    → transposed j s ≡ transposed k t
unfolding transposed
transposed_pitch j k s t p q = rw (p, q)

-- Transposing twice is transposing once by the sum, down to the spelling of the tonic.
pub transposed-transposed :
    (k : Key) (s t : ℤ) → transposed (transposed k s) t ≡ transposed k (s +ℤ t)
transposed-transposed k s t =
    transposed_pitch (transposed k s) k t (s +ℤ t)
      (rw (transposed_lem k s).0 (rw rem12-add (rw +ℤ_assoc))) (transposed_lem k s).2

pub pitch_class-lt : (n : Note) → pitch_class n < 12
unfolding pitch_class
pitch_class-lt n = rem12-lt (pos (natural_pitch n.letter) +ℤ n.alter)

interval_reaches : (p q : ℕ) → q < 12 → rem12 (pos p +ℤ pos (rem12 (pos q -ℤ pos p))) ≡ q
unfolding rem12 ◌+ℤ◌ ◌-ℤ◌
interval_reaches p q h = ground arith

abbrev shorter : ℕ → ℤ
shorter up = if ltb 6 up then pos up -ℤ pos 12 else pos up

shorter_reaches : (p q : ℕ) → q < 12 → rem12 (pos p +ℤ shorter (rem12 (pos q -ℤ pos p))) ≡ q
unfolding rem12 ◌+ℤ◌ ◌-ℤ◌
shorter_reaches p q h = ground arith

shorter_bounds : (up : ℕ) → up < 12 → (negsuc 4 ≤ℤ shorter up) × (shorter up ≤ℤ pos 6)
unfolding ◌-ℤ◌
shorter_bounds up h = ground arith

interval_to_lem :
    (k other : Key)
    → interval_to k other ≡ rem12 (pos (pitch_class other.tonic) -ℤ pos (pitch_class k.tonic))
unfolding interval_to
interval_to_lem k other = refl

shortest_lem : (k other : Key) → shortest_interval_to k other ≡ shorter (interval_to k other)
unfolding shortest_interval_to
shortest_lem k other = refl

-- The interval from one key to another, and the shorter way there, reach the pitch of its tonic;
-- and the shorter way is between five semitones down and six up.
pub shortest_interval_to_lem :
    (k other : Key)
    → (pitch_class (transposed k (pos (interval_to k other))).tonic ≡ pitch_class other.tonic)
      × (pitch_class (transposed k (shortest_interval_to k other)).tonic ≡ pitch_class other.tonic)
      × (negsuc 4 ≤ℤ shortest_interval_to k other)
      × (shortest_interval_to k other ≤ℤ pos 6)
shortest_interval_to_lem k other =
    let p = pitch_class k.tonic in
    let q = pitch_class other.tonic in
    let up = rem12 (pos q -ℤ pos p) in
    let near = shorter_bounds up (rem12-lt (pos q -ℤ pos p)) in
    rw (shortest_lem k other, interval_to_lem k other)
      (
        (transposed_lem k (pos up)).0 ∙ interval_reaches p q (pitch_class-lt other.tonic),
        (transposed_lem k (shorter up)).0 ∙ shorter_reaches p q (pitch_class-lt other.tonic),
        near.0,
        near.1,
      )
