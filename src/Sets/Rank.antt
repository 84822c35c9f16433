-- ===== src/Sets/Rank.antt =====
-- crates/core/src/sets/rank.rs: a rank is a text between its neighbours, so that inserting an item
-- touches one row. The loop `for index in 0..` takes fuel: `unreachable` is the fuel running out,
-- and stands for the source's `unreachable!`. A text is its characters here and its bytes there: the two
-- are in the same order, and a character that is not ASCII is no digit in either reading, though
-- `not_a_digit` then carries it and not its first byte.
pub mod Digits
pub mod Scan
pub mod Order
pub mod Rounds
pub mod Between
pub mod Returns
pub mod Fresh
pub mod Move
use aurum_presenter.Prelude.{
  ℕ, zero, suc, ◌+◌, ◌-◌, ◌/◌, Bool, true, false, ◌&&◌, not, Option, none, some, List, [], ◌∷◌,
  ◌++◌, ◌==◌, ltb, if◌then◌else◌, length, get_elem?, get_or, get_last?, position, unwrap_or,
}
use aurum_presenter.Prelude.Text.{Str, codes, is_empty, str_ltb}

unfoldable pub digits : Str
digits = codes "0123456789ABCDEFGHIJKLMNOPQRSTUVWXYZabcdefghijklmnopqrstuvwxyz"

pub data RankError : Type 0 where
  out_of_order : Str → Str → RankError
  no_room : Str → Str → RankError
  not_a_digit : ℕ → RankError

pub data Outcome {ℓ} (A : Type ℓ) : Type ℓ where
  ok : A → Outcome A
  err : RankError → Outcome A
  unreachable : Outcome A

infixl 5 ◌>>=◌
abbrev pub ◌>>=◌ {ℓ κ} : {A : Type ℓ} {B : Type κ} → Outcome A → (A → Outcome B) → Outcome B
ok a >>= f = f a
err e >>= f = err e
unreachable >>= f = unreachable

-- `DIGITS[i] as char`.
unfoldable pub digit_at : ℕ → ℕ
unfolding digits
digit_at i = get_or digits i 0

unfoldable pub digit : ℕ → Outcome ℕ
unfolding digits
digit byte = elim (position (λ d. d == byte) digits) [
  | none ↦ err (not_a_digit byte)
  | some i ↦ ok i
]

-- `match low.as_bytes().get(index) { Some(byte) => digit(*byte)?, None => 0 }`
unfoldable pub lower : Option ℕ → Outcome ℕ
lower none = ok 0
lower (some byte) = digit byte

-- The upper digit of this round: `high`'s own while the rank is bounded, else `DIGITS.len()`.
unfoldable pub upper : Str → Str → Bool → Option ℕ → Outcome ℕ
upper low high false next = ok 62
upper low high true none = err (no_room low high)
upper low high true (some byte) = digit byte

-- The rounds of the loop from `index` on, with the rank written so far.
unfoldable pub grow : ℕ → Str → Str → ℕ → Bool → Str → Outcome Str
grow zero low high index bounded rank = unreachable
grow (suc fuel) low high index bounded rank = do
  from ← lower (get_elem? low index)
  to ← upper low high bounded (get_elem? high index)
  let longer = grow fuel low high (suc index) (bounded && (from == to)) (rank ++ digit_at from ∷ [])
  if ltb (from + 1) to then ok (rank ++ digit_at ((from + to) / 2) ∷ []) else longer

abbrev pub rounds : Str → Str → ℕ
rounds low high = suc (suc (length low + length high))

unfoldable pub rank_between : Option Str → Option Str → Outcome Str
unfolding grow
rank_between before after =
    let low = unwrap_or before [] in
    let high = unwrap_or after [] in
    if not (is_empty low) && not (is_empty high) && not (str_ltb low high)
    then err (out_of_order low high)
    else grow (rounds low high) low high 0 (not (is_empty high)) []

-- `for _ in 0..count`, with the ranks pushed so far.
unfoldable pub push_ranks : ℕ → List Str → Outcome (List Str)
push_ranks zero ranks = ok ranks
push_ranks (suc count) ranks = do
  rank ← rank_between (get_last? ranks) none
  push_ranks count (ranks ++ rank ∷ [])

unfoldable pub initial_ranks : ℕ → Outcome (List Str)
unfolding push_ranks
initial_ranks count = push_ranks count []

-- `enumerate().filter(|(index, _)| *index != from)`
unfoldable pub without : ℕ → List Str → List Str
without from [] = []
without zero (rank ∷ ranks) = ranks
without (suc from) (rank ∷ ranks) = rank ∷ without from ranks

-- `if to == 0 { None } else { without.get(to - 1) }`
unfoldable pub before_of : List Str → ℕ → Option Str
before_of ranks zero = none
before_of ranks (suc to) = get_elem? ranks to

unfoldable pub rank_for_move : List Str → ℕ → ℕ → Outcome (Option Str)
unfolding without before_of
rank_for_move ranks from to = if from == to then ok none else do
  rank ← rank_between (before_of (without from ranks) to) (get_elem? (without from ranks) to)
  ok (some rank)
