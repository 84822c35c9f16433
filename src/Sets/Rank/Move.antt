-- ===== src/Sets/Rank/Move.antt =====
-- `rank_for_move` of rank.rs: the new rank puts the moved item at its place, and no other rank changes.
use aurum_presenter.Prelude.{
  ℕ, zero, suc, ◌+◌, ◌≤◌, ◌<◌, ◌≡◌, ◌≢◌, refl, Option, some, List, [], ◌∷◌, arith, length,
  get_elem?, All, All-map, false, unwrap_or, ◌==◌,
}
use aurum_presenter.Prelude.Text.{Str, str_ltb_trans}
use aurum_presenter.Sets.Rank.{Outcome, ok, ◌>>=◌, without, before_of, rank_for_move}
use aurum_presenter.Sets.Rank.Order.{IsDigit, IsRank, HasRoom, ◌≺◌}
use aurum_presenter.Sets.Rank.Between.{rank_between-IsBetween}
use aurum_presenter.Sets.Rank.Fresh.{Ascending, AreRanks}

-- The list with one more rank at place `to`.
pub insert_at : ℕ → Str → List Str → List Str
insert_at zero r xs = r ∷ xs
insert_at (suc to) r [] = r ∷ []
insert_at (suc to) r (x ∷ xs) = x ∷ insert_at to r xs

Ascending-tail : (x : Str) (xs : List Str) → Ascending (x ∷ xs) → Ascending xs
Ascending-tail x [] a = tt
Ascending-tail x (y ∷ xs) a = a.1

Ascending-skip : (x y : Str) (xs : List Str) → Ascending (x ∷ y ∷ xs) → Ascending (x ∷ xs)
Ascending-skip x y [] a = tt
Ascending-skip x y (z ∷ xs) (p, (q, a)) = (str_ltb_trans x y z p q, a)

Ascending-without : (from : ℕ) (xs : List Str) → Ascending xs → Ascending (without from xs)
unfolding without
Ascending-without from [] a = a
Ascending-without zero (x ∷ xs) a = Ascending-tail x xs a
Ascending-without (suc from) (x ∷ []) a = tt
Ascending-without (suc zero) (x ∷ y ∷ xs) a = Ascending-skip x y xs a
Ascending-without (suc (suc from)) (x ∷ y ∷ xs) a = (a.0, Ascending-without (suc from) (y ∷ xs) a.1)

All-without : (from : ℕ) (xs : List Str) → All IsRank xs → All IsRank (without from xs)
unfolding without
All-without from [] h = h
All-without zero (x ∷ xs) h = h.1
All-without (suc from) (x ∷ xs) h = (h.0, All-without from xs h.1)

get-All :
    (P : Str → Type 0) (xs : List Str) (i : ℕ) → All P xs → P [] → P (unwrap_or (get_elem? xs i) [])
get-All P [] i h n = n
get-All P (x ∷ xs) zero h n = h.0
get-All P (x ∷ xs) (suc i) h n = get-All P xs i h.1 n

before-All :
    (P : Str → Type 0) (xs : List Str) (to : ℕ)
    → All P xs
    → P []
    → P (unwrap_or (before_of xs to) [])
unfolding before_of
before-All P xs zero h n = n
before-All P xs (suc to) h n = get-All P xs to h n

-- The neighbours of a place are in order.
neighbours :
    (xs : List Str) (to : ℕ)
    → Ascending xs
    → unwrap_or (before_of xs to) [] ≢ []
    → unwrap_or (get_elem? xs to) [] ≢ []
    → unwrap_or (before_of xs to) [] ≺ unwrap_or (get_elem? xs to) []
unfolding before_of
neighbours xs zero a p q = absurd (p refl)
neighbours [] (suc to) a p q = absurd (p refl)
neighbours (x ∷ []) (suc zero) a p q = absurd (q refl)
neighbours (x ∷ []) (suc (suc to)) a p q = absurd (p refl)
neighbours (x ∷ y ∷ xs) (suc zero) a p q = a.0
neighbours (x ∷ y ∷ xs) (suc (suc to)) a p q = neighbours (y ∷ xs) (suc to) a.1 p q

Ascending-insert_at :
    (xs : List Str) (to : ℕ) (r : Str)
    → to ≤ length xs
    → Ascending xs
    → All IsRank xs
    → unwrap_or (before_of xs to) [] ≺ r
    → (unwrap_or (get_elem? xs to) [] ≢ [] → r ≺ unwrap_or (get_elem? xs to) [])
    → Ascending (insert_at to r xs)
unfolding before_of insert_at
Ascending-insert_at [] zero r l a k p q = tt
Ascending-insert_at (x ∷ xs) zero r l a k p q = (q k.0.nonempty, a)
Ascending-insert_at [] (suc to) r l a k p q = absurd (omega arith)
Ascending-insert_at (x ∷ []) (suc zero) r l a k p q = (p, tt)
Ascending-insert_at (x ∷ y ∷ xs) (suc zero) r l a k p q = (p, (q k.1.0.nonempty, a.1))
Ascending-insert_at (x ∷ []) (suc (suc to)) r l a k p q = absurd (omega arith)
Ascending-insert_at (x ∷ y ∷ xs) (suc (suc to)) r l a k p q =
    (a.0, Ascending-insert_at (y ∷ xs) (suc to) r (omega arith) a.1 k.1 p q)

-- A move that hands back a new rank for the item at `from`, which puts it at `to` among the others.
pub record Moved (ranks : List Str) (from to : ℕ) (o : Outcome (Option Str)) : Type 0 where
  pub rank : Str
  pub returned : o ≡ ok (some rank)
  pub is_rank : IsRank rank
  pub in_place : Ascending (insert_at to rank (without from ranks))

abbrev sure : Outcome Str → Outcome (Option Str)
sure o = o >>= λ r. ok (some r)

length-without : (from : ℕ) (xs : List Str) → length xs ≤ length (without from xs) + 1
unfolding without
length-without from [] = omega arith
length-without zero (x ∷ xs) = omega arith
length-without (suc from) (x ∷ xs) = omega (arith, length-without from xs)

-- Moving one of a list of ranks in order to another place in the list gives it a rank that puts it
-- exactly there: the others, with the new rank inserted at `to`, are in strictly ascending order.
pub rank_for_move-Moved :
    (ranks : List Str) (from to : ℕ)
    → AreRanks ranks
    → to < length ranks
    → from ≢ to
    → Moved ranks from to (rank_for_move ranks from to)
unfolding rank_for_move
rank_for_move-Moved ranks from to r t n =
    let rest = without from ranks in
    let asc = Ascending-without from ranks r.ascending in
    let all = All-without from ranks r.all_ranks in
    let between =
      rank_between-IsBetween (before_of rest to) (get_elem? rest to)
        (before-All (λ s. All IsDigit s) rest to
          (All-map IsRank (λ s. All IsDigit s) (λ s d. d.all_digits) rest all) tt)
        (get-All (λ s. All IsDigit s) rest to
          (All-map IsRank (λ s. All IsDigit s) (λ s d. d.all_digits) rest all) tt)
        (get-All HasRoom rest to (All-map IsRank HasRoom (λ s d. d.room) rest all) tt)
        (neighbours rest to asc) in
    let differ : (from == to) ≡ false = ground arith in
    rw (differ, between.returned)
      (record {
        rank = between.rank;
        returned = refl;
        is_rank = between.is_rank;
        in_place =
            Ascending-insert_at rest to between.rank (omega (arith, length-without from ranks)) asc
              all between.above between.below;
      })
