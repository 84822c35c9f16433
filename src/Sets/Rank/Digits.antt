-- ===== src/Sets/Rank/Digits.antt =====
-- The digit table of rank.rs: `digit` inverts `digit_at`, and the table is in ascending order.
use aurum_presenter.Prelude.{
  ℕ, zero, suc, ◌+◌, ◌-◌, ◌<◌, ◌≡◌, refl, inl, inr, Bool, true, false, some, List, [], ◌∷◌, arith,
  ltb, ◌==◌, get_or, length, position_from, Bool-cases, all_below, all_below_sound,
}
use aurum_presenter.Sets.Rank.{digits, digit_at, digit, Outcome, ok, err, unreachable}

ascending : all_below 61 (λ i. ltb (digit_at i) (digit_at (suc i))) ≡ true
unfolding all_below digit_at
ascending = refl

digit_at_step : (i : ℕ) → i < 61 → digit_at i < digit_at (suc i)
digit_at_step i h =
    ground (arith, all_below_sound 61 (λ i. ltb (digit_at i) (digit_at (suc i))) i ascending h)

digit_at_mono_from : (n i : ℕ) → i + suc n < 62 → digit_at i < digit_at (suc (i + n))
digit_at_mono_from zero i h =
    let e : suc (i + 0) ≡ suc i = omega arith in rw e (digit_at_step i (omega arith))
digit_at_mono_from (suc n) i h =
    let e : suc (i + suc n) ≡ suc (suc (i + n)) = omega arith in
    rw e (
      omega
        (arith, digit_at_mono_from n i (omega arith), digit_at_step (suc (i + n)) (omega arith)))

pub digit_at_mono : (i j : ℕ) → i < j → j < 62 → digit_at i < digit_at j
digit_at_mono i j h k =
    let e : suc (i + (j - i - 1)) ≡ j = omega arith in
    rw e at (digit_at_mono_from (j - i - 1) i (omega arith))

length-digits : length digits ≡ 62
unfolding digits
length-digits = refl

-- A digit's place in a list, found from `n` on.
position_from_lem :
    (byte : ℕ) (ds : List ℕ) (n i : ℕ)
    → position_from n (λ d. d == byte) ds ≡ some i
    → (k : ℕ) × (i ≡ n + k) × (k < length ds) × (get_or ds k 0 ≡ byte)
position_from_lem byte [] n i h = cc
position_from_lem byte (d ∷ ds) n i h = elim (Bool-cases (d == byte)) [
  | inl here ↦ (0, ground arith, omega arith, ground arith)
  | inr later ↦ next (position_from_lem byte ds (suc n) i (ground arith))
]
  where
    next :
        ((k : ℕ) × (i ≡ suc n + k) × (k < length ds) × (get_or ds k 0 ≡ byte))
        → (k : ℕ) × (i ≡ n + k) × (k < length (d ∷ ds)) × (get_or (d ∷ ds) k 0 ≡ byte)
    next (k, e, lt, at) = (suc k, omega arith, omega arith, at)

found_lem :
    (byte i : ℕ)
    → position_from 0 (λ d. d == byte) digits ≡ some i
    → (i < 62) × (get_or digits i 0 ≡ byte)
found_lem byte i h =
    let (k, e, lt, at) = position_from_lem byte digits 0 i h in
    let same : i ≡ k = omega arith in rw same (omega (arith, length-digits), at)

digit_ok : (byte i : ℕ) → digit byte ≡ ok i → position_from 0 (λ d. d == byte) digits ≡ some i
unfolding digit
digit_ok byte i h = ground arith

-- A byte that is read as digit i is the i-th of the 62 digits.
pub digit_lem : (byte i : ℕ) → digit byte ≡ ok i → (i < 62) × (digit_at i ≡ byte)
unfolding digit_at
digit_lem byte i h = found_lem byte i (digit_ok byte i h)

reads_as : Outcome ℕ → ℕ → Bool
reads_as (ok j) i = j == i
reads_as _ i = false

reads_as_lem : (o : Outcome ℕ) (i : ℕ) → reads_as o i ≡ true → o ≡ ok i
unfolding reads_as
reads_as_lem (ok j) i h = ground arith
reads_as_lem (err e) i h = cc
reads_as_lem unreachable i h = cc

reads_table : all_below 62 (λ i. reads_as (digit (digit_at i)) i) ≡ true
unfolding all_below reads_as digit digit_at
reads_table = refl

-- Each of the 62 digits is read back as its own index.
pub digit-digit_at : (i : ℕ) → i < 62 → digit (digit_at i) ≡ ok i
digit-digit_at i h =
    reads_as_lem (digit (digit_at i)) i
      (all_below_sound 62 (λ i. reads_as (digit (digit_at i)) i) i reads_table h)
