-- ===== src/Sets/Rank/Returns.antt =====
-- That the loop of `rank_between` ends, whatever its neighbours.
use aurum_presenter.Prelude.{
  ℕ, zero, suc, ◌+◌, ◌/◌, ◌≤◌, ◌≡◌, ◌≢◌, refl, inl, inr, Bool, true, false, ◌&&◌, not, Option, none,
  some, [], ◌∷◌, arith, ltb, ◌==◌, if◌then◌else◌, length, unwrap_or, Bool-cases,
}
use aurum_presenter.Prelude.Text.{Str, is_empty, str_ltb}
use aurum_presenter.Sets.Rank.{
  out_of_order, Outcome, ok, err, unreachable, ◌>>=◌, digit_at, digit, lower, upper, grow, rounds,
  rank_between,
}
use aurum_presenter.Sets.Rank.Scan.{head?, tail, scan}
use aurum_presenter.Sets.Rank.Rounds.{tail_shrinks, length-tail}
use aurum_presenter.Sets.Rank.Between.{grow_fresh}

digit_returns : (c : ℕ) → digit c ≢ unreachable
unfolding digit
digit_returns c h = ground arith

lower_returns : (o : Option ℕ) → lower o ≢ unreachable
unfolding lower
lower_returns none h = cc
lower_returns (some c) h = digit_returns c h

upper_returns : (low high : Str) (b : Bool) (o : Option ℕ) → upper low high b o ≢ unreachable
unfolding upper
upper_returns low high false o h = cc
upper_returns low high true none h = cc
upper_returns low high true (some c) h = digit_returns c h

-- How many rounds are left: `high` counts only while it bounds the rank.
abbrev left : Str → Str → Bool → ℕ
left l h true = length l + length h + 1
left l h false = length l + 1

cons_returns : (o : Outcome Str) (c : ℕ) → o ≢ unreachable → (o >>= λ r. ok (c ∷ r)) ≢ unreachable
cons_returns (ok r) c n h = cc
cons_returns (err e) c n h = cc
cons_returns unreachable c n h = n refl

round_returns :
    (f t : Outcome ℕ) (mid : ℕ → ℕ → Str) (next : ℕ → ℕ → Outcome Str)
    → f ≢ unreachable
    → t ≢ unreachable
    → ((i j : ℕ) → f ≡ ok i → t ≡ ok j → ltb (i + 1) j ≡ false → next i j ≢ unreachable)
    → (f >>= λ i.
        t >>= λ j. if ltb (i + 1) j then ok (mid i j) else (next i j >>= λ r. ok (digit_at i ∷ r)))
      ≢ unreachable
round_returns (err e) t mid next p q k h = cc
round_returns unreachable t mid next p q k h = p refl
round_returns (ok i) (err e) mid next p q k h = cc
round_returns (ok i) unreachable mid next p q k h = q refl
round_returns (ok i) (ok j) mid next p q k h = elim (Bool-cases (ltb (i + 1) j)) [
  | inl found ↦ ground arith
  | inr deep ↦ cons_returns (next i j) (digit_at i) (k i j refl refl deep) (rw deep at h)
]

left_falls :
    (fuel : ℕ) (low high l h : Str) (b : Bool) (i j : ℕ)
    → lower (head? l) ≡ ok i
    → upper low high b (head? h) ≡ ok j
    → ltb (i + 1) j ≡ false
    → left l h b ≤ suc fuel
    → left (tail l) (tail h) (b && (i == j)) ≤ fuel
unfolding upper
left_falls fuel low high l h false i j p q d f = omega (arith, tail_shrinks l i p (ground arith))
left_falls fuel low high l [] true i j p q d f = cc
left_falls fuel low high l (c ∷ h) true i j p q d f = elim (Bool-cases (i == j)) [
  | inl tight ↦ rw tight (omega (arith, length-tail l))
  | inr free ↦ rw free (omega (arith, length-tail l))
]

scan_returns :
    (fuel : ℕ) (low high l h : Str) (b : Bool)
    → left l h b ≤ fuel
    → scan fuel low high l h b ≢ unreachable
unfolding scan
scan_returns zero low high l h true f e = omega arith
scan_returns zero low high l h false f e = omega arith
scan_returns (suc fuel) low high l h b f e =
    round_returns (lower (head? l)) (upper low high b (head? h))
      (λ i j. digit_at ((i + j) / 2) ∷ [])
      (λ i j. scan fuel low high (tail l) (tail h) (b && (i == j))) (lower_returns (head? l))
      (upper_returns low high b (head? h))
      (λ i j p q d.
        scan_returns fuel low high (tail l) (tail h) (b && (i == j))
          (left_falls fuel low high l h b i j p q d f))
      e

grow_returns : (low high : Str) (b : Bool) → grow (rounds low high) low high 0 b [] ≢ unreachable
grow_returns low high true =
    rw (grow_fresh low high true)
      (scan_returns (rounds low high) low high low high true (omega arith))
grow_returns low high false =
    rw (grow_fresh low high false)
      (scan_returns (rounds low high) low high low high false (omega arith))

-- Whatever the neighbours, the loop ends: `rank_between` returns a rank or an error.
pub rank_between_returns : (before after : Option Str) → rank_between before after ≢ unreachable
unfolding rank_between
rank_between_returns before after e =
    let low = unwrap_or before [] in
    let high = unwrap_or after [] in
    elim (Bool-cases (not (is_empty low) && not (is_empty high) && not (str_ltb low high))) [
      | inl refused ↦
          (let h : ◌≡◌ {A = Outcome Str} (err (out_of_order low high)) unreachable =
              rw refused at e in
            cc)
      | inr tried ↦ grow_returns low high (not (is_empty high)) (rw tried at e)
    ]
