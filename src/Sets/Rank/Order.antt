-- ===== src/Sets/Rank/Order.antt =====
-- Ranks of rank.rs as values: texts of digits that leave room before them, and their order.
use aurum_presenter.Prelude.{ℕ, ◌<◌, ◌≡◌, ◌≢◌, refl, ◌⊎◌, true, [], ◌∷◌, arith, All}
use aurum_presenter.Prelude.Text.{Str, str_ltb}
use aurum_presenter.Sets.Rank.{ok, digit_at, digit}
use aurum_presenter.Sets.Rank.Digits.{digit_at_mono, digit-digit_at}

-- A byte that `digit` reads.
abbrev pub IsDigit : ℕ → Type 0
IsDigit c = (i : ℕ) × (digit c ≡ ok i)

-- A text that does not end in the lowest digit.
abbrev pub HasRoom : Str → Type 0
HasRoom [] = Unit
HasRoom (c ∷ []) = c ≢ digit_at 0
HasRoom (c ∷ d ∷ s) = HasRoom (d ∷ s)

-- A rank: digits, at least one, and room before it.
pub record IsRank (s : Str) : Type 0 where
  pub all_digits : All IsDigit s
  pub nonempty : s ≢ []
  pub room : HasRoom s

abbrev pub ◌≺◌ : Str → Str → Type 0
s ≺ t = str_ltb s t ≡ true

infix 50 ◌≺◌
pub HasRoom-cons : (c : ℕ) (s : Str) → s ≢ [] → HasRoom s → HasRoom (c ∷ s)
HasRoom-cons c [] n h = absurd (n refl)
HasRoom-cons c (d ∷ s) n h = h

pub HasRoom-tail : (c : ℕ) (s : Str) → HasRoom (c ∷ s) → HasRoom s
HasRoom-tail c [] h = tt
HasRoom-tail c (d ∷ s) h = h

pub IsRank-cons : (i : ℕ) (s : Str) → i < 62 → IsRank s → IsRank (digit_at i ∷ s)
IsRank-cons i s h r = record {
  all_digits = ((i, digit-digit_at i h), r.all_digits);
  nonempty = λ e. cc;
  room = HasRoom-cons (digit_at i) s r.nonempty r.room;
}

pub IsRank-one : (i : ℕ) → 0 < i → i < 62 → IsRank (digit_at i ∷ [])
IsRank-one i p h = record {
  all_digits = ((i, digit-digit_at i h), tt);
  nonempty = λ e. cc;
  room = λ e. omega (arith, digit_at_mono 0 i p h, e);
}

pub ≺-cons : (c : ℕ) (s t : Str) → s ≺ t → (c ∷ s) ≺ (c ∷ t)
unfolding str_ltb
≺-cons c s t h = ground arith

pub ≺-head : (c d : ℕ) (s t : Str) → c < d → (c ∷ s) ≺ (d ∷ t)
unfolding str_ltb
≺-head c d s t h = ground arith

pub nothing-≺-nil : (s : Str) → ¬ (s ≺ [])
unfolding str_ltb
nothing-≺-nil [] h = cc
nothing-≺-nil (c ∷ s) h = cc

pub ≺-nil : (c : ℕ) (s : Str) → [] ≺ (c ∷ s)
unfolding str_ltb
≺-nil c s = refl

pub ≺-cases : (c d : ℕ) (s t : Str) → (c ∷ s) ≺ (d ∷ t) → (c < d) ⊎ ((c ≡ d) × (s ≺ t))
unfolding str_ltb
≺-cases c d s t h = ground arith
