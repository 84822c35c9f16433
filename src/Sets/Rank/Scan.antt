-- ===== src/Sets/Rank/Scan.antt =====
-- The loop of `rank_between` on what is left of the two neighbours, which is the form that the
-- proofs induct on, and that it is the indexed loop of rank.rs.
use aurum_presenter.Prelude.{
  ℕ, zero, suc, ◌+◌, ◌/◌, ◌≡◌, refl, inl, inr, Bool, ◌&&◌, Option, none, some, [], ◌∷◌, ◌++◌, arith,
  ltb, ◌==◌, if◌then◌else◌, get_elem?, drop, Bool-cases,
}
use mathlib.Core.List.{append_assoc}
use aurum_presenter.Prelude.Text.{Str}
use aurum_presenter.Sets.Rank.{Outcome, ok, err, unreachable, ◌>>=◌, digit_at, lower, upper, grow}

abbrev pub head? : Str → Option ℕ
head? [] = none
head? (c ∷ s) = some c

abbrev pub tail : Str → Str
tail [] = []
tail (c ∷ s) = s

unfoldable pub scan : ℕ → Str → Str → Str → Str → Bool → Outcome Str
scan zero low high l h bounded = unreachable
scan (suc fuel) low high l h bounded = do
  from ← lower (head? l)
  to ← upper low high bounded (head? h)
  let longer = do
    rest ← scan fuel low high (tail l) (tail h) (bounded && (from == to))
    ok (digit_at from ∷ rest)
  if ltb (from + 1) to then ok (digit_at ((from + to) / 2) ∷ []) else longer

get_elem?-drop : (s : Str) (i : ℕ) → get_elem? s i ≡ head? (drop i s)
get_elem?-drop [] zero = refl
get_elem?-drop [] (suc i) = refl
get_elem?-drop (c ∷ s) zero = refl
get_elem?-drop (c ∷ s) (suc i) = get_elem?-drop s i

drop-suc : (s : Str) (i : ℕ) → drop (suc i) s ≡ tail (drop i s)
drop-suc [] zero = refl
drop-suc [] (suc i) = refl
drop-suc (c ∷ s) zero = refl
drop-suc (c ∷ s) (suc i) = drop-suc s i

abbrev prepend : Str → Outcome Str → Outcome Str
prepend rank o = o >>= λ r. ok (rank ++ r)

module _ (rank : Str) where
  round :
      (from to : ℕ) (s : Outcome Str)
      → (if ltb (from + 1) to
          then ok (rank ++ digit_at ((from + to) / 2) ∷ [])
          else prepend (rank ++ digit_at from ∷ []) s)
        ≡ prepend rank (
            if ltb (from + 1) to
            then ok (digit_at ((from + to) / 2) ∷ [])
            else (s >>= λ rest. ok (digit_at from ∷ rest)))
  round from to (ok r) = elim (Bool-cases (ltb (from + 1) to)) [
    | inl mid ↦ rw mid
    | inr deep ↦ rw (deep, append_assoc)
  ]
  round from to (err e) = ground arith
  round from to unreachable = ground arith

  rounds_agree :
      (f t : Outcome ℕ) (g s : ℕ → ℕ → Outcome Str)
      → ((from to : ℕ) → g from to ≡ prepend (rank ++ digit_at from ∷ []) (s from to))
      → (do
        from ← f
        to ← t
        if ltb (from + 1) to then ok (rank ++ digit_at ((from + to) / 2) ∷ []) else g from to)
        ≡ prepend rank (do
          from ← f
          to ← t
          if ltb (from + 1) to
              then ok (digit_at ((from + to) / 2) ∷ [])
              else (s from to >>= λ rest. ok (digit_at from ∷ rest)))
  rounds_agree (err e) t g s h = refl
  rounds_agree unreachable t g s h = refl
  rounds_agree (ok from) (err e) g s h = refl
  rounds_agree (ok from) unreachable g s h = refl
  rounds_agree (ok from) (ok to) g s h = rw (h from to) (round from to (s from to))

-- The loop from `index` on reads what is left of the neighbours there, and only adds to the rank.
pub grow-scan :
    (fuel : ℕ) (low high : Str) (i : ℕ) (bounded : Bool) (rank : Str)
    → grow fuel low high i bounded rank
      ≡ (scan fuel low high (drop i low) (drop i high) bounded >>= λ r. ok (rank ++ r))
unfolding grow scan
grow-scan zero low high i bounded rank = refl
grow-scan (suc fuel) low high i bounded rank =
    rw (get_elem?-drop low i, get_elem?-drop high i, ← drop-suc low i, ← drop-suc high i)
      (rounds_agree rank (lower (head? (drop i low))) (upper low high bounded (head? (drop i high)))
        (λ from to.
          grow fuel low high (suc i) (bounded && (from == to)) (rank ++ digit_at from ∷ []))
        (λ from to.
          scan fuel low high (drop (suc i) low) (drop (suc i) high) (bounded && (from == to)))
        (λ from to.
          grow-scan fuel low high (suc i) (bounded && (from == to)) (rank ++ digit_at from ∷ [])))
