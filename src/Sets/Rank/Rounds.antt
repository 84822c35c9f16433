-- ===== src/Sets/Rank/Rounds.antt =====
-- One round of the loop of `rank_between`, and all of them, from neighbours that are in order.
use aurum_presenter.Prelude.{
  ℕ, zero, suc, ◌+◌, ◌/◌, ◌≤◌, ◌<◌, ◌≡◌, refl, sym, ap, ◌∙◌, ◌⊎◌, inl, inr, Bool, true, false, ◌&&◌,
  [], ◌∷◌, arith, ltb, ◌==◌, if◌then◌else◌, length, All, Bool-cases,
}
use aurum_presenter.Prelude.Text.{Str}
use aurum_presenter.Sets.Rank.{Outcome, ok, ◌>>=◌, digit_at, digit, lower, upper}
use aurum_presenter.Sets.Rank.Digits.{digit_at_mono, digit_lem}
use aurum_presenter.Sets.Rank.Scan.{head?, tail, scan}
use aurum_presenter.Sets.Rank.Order.{
  IsDigit, HasRoom, IsRank, ◌≺◌, HasRoom-tail, IsRank-cons, IsRank-one, ≺-cons, ≺-head,
  nothing-≺-nil, ≺-nil, ≺-cases,
}

-- What one run of the loop hands back: a rank above `l`, and below `h` while that bounds it.
pub record Fits (l h : Str) (bounded : Bool) (o : Outcome Str) : Type 0 where
  pub rank : Str
  pub returned : o ≡ ok rank
  pub is_rank : IsRank rank
  pub above : l ≺ rank
  pub below : bounded ≡ true → rank ≺ h

-- The digit a round starts from: `lower` of what is left of the lower neighbour.
pub record From (l : Str) (i : ℕ) : Type 0 where
  pub read : lower (head? l) ≡ ok i
  pub small : i < 62
  pub under : (j : ℕ) (t : Str) → i < j → j < 62 → l ≺ (digit_at j ∷ t)
  pub same : (t : Str) → tail l ≺ t → l ≺ (digit_at i ∷ t)

pub From-of : (l : Str) → All IsDigit l → (i : ℕ) × From l i
unfolding lower
From-of [] h = (
  0,
  record {
    read = refl;
    small = omega arith;
    under = λ j t p q. ≺-nil (digit_at j) t;
    same = λ t p. ≺-nil (digit_at 0) t;
  },
)
From-of (c ∷ l) ((i, d), h) =
    let (lt, at) = digit_lem c i d in
    (
      i,
      record {
        read = d;
        small = lt;
        under = λ j t p q. ≺-head c (digit_at j) l t (omega (arith, digit_at_mono i j p q, at));
        same = λ t p. rw at (≺-cons c l t p);
      },
    )

pub All-tail : (l : Str) → All IsDigit l → All IsDigit (tail l)
All-tail [] h = tt
All-tail (c ∷ l) h = h.1

pub scan_round :
    (fuel : ℕ) (low high l h : Str) (b : Bool) (i j : ℕ)
    → lower (head? l) ≡ ok i
    → upper low high b (head? h) ≡ ok j
    → scan (suc fuel) low high l h b ≡ (
        if ltb (i + 1) j
        then ok (digit_at ((i + j) / 2) ∷ [])
        else (scan fuel low high (tail l) (tail h) (b && (i == j)) >>= λ rest.
            ok (digit_at i ∷ rest)))
unfolding scan
scan_round fuel low high l h b i j p q = rw (p, q)

-- A round that finds a midpoint.
pub Fits-mid :
    (l h : Str) (b : Bool) (i j : ℕ)
    → From l i
    → i + 1 < j
    → j ≤ 62
    → (b ≡ true → (digit_at ((i + j) / 2) ∷ []) ≺ h)
    → Fits l h b (ok (digit_at ((i + j) / 2) ∷ []))
Fits-mid l h b i j f p q k = record {
  rank = digit_at ((i + j) / 2) ∷ [];
  returned = refl;
  is_rank = IsRank-one ((i + j) / 2) (omega arith) (omega arith);
  above = f.under ((i + j) / 2) [] (omega arith) (omega arith);
  below = k;
}

-- A round that copies the lower digit and goes on.
pub Fits-next :
    (l h : Str) (b b' : Bool) (i : ℕ) (o : Outcome Str)
    → From l i
    → ((t : Str) → (b' ≡ true → t ≺ tail h) → b ≡ true → (digit_at i ∷ t) ≺ h)
    → Fits (tail l) (tail h) b' o
    → Fits l h b (o >>= λ rest. ok (digit_at i ∷ rest))
Fits-next l h b b' i o f k r = record {
  rank = digit_at i ∷ r.rank;
  returned = rw r.returned;
  is_rank = IsRank-cons i r.rank f.small r.is_rank;
  above = f.same r.rank r.above;
  below = k r.rank r.below;
}

-- What remains of `low` after a digit that leaves no midpoint below the end of the table.
pub tail_shrinks :
    (l : Str) (i : ℕ) → lower (head? l) ≡ ok i → ¬ (i + 1 < 62) → length (tail l) + 1 ≤ length l
unfolding lower
tail_shrinks [] i e n = ground arith
tail_shrinks (c ∷ l) i e n = omega arith

pub length-tail : (l : Str) → length (tail l) ≤ length l
length-tail [] = omega arith
length-tail (c ∷ l) = omega arith

-- Past the point where `high` bounds the rank, what is left needs one round more than `low` has
-- digits.
pub scan-free :
    (fuel : ℕ) (low high l h : Str)
    → length l + 1 ≤ fuel
    → All IsDigit l
    → Fits l h false (scan fuel low high l h false)
scan-free zero low high l h f d = absurd (omega arith)
scan-free (suc fuel) low high l h f d =
    let (i, from) = From-of l d in
    rw (scan_round fuel low high l h false i 62 from.read (unfold upper in refl))
      (elim (Bool-cases (ltb (i + 1) 62)) [
        | inl mid ↦ rw mid (Fits-mid l h false i 62 from (ground arith) (omega arith) (λ e. cc))
        | inr deep ↦ rw deep (
            Fits-next l h false false i (scan fuel low high (tail l) (tail h) false) from
              (λ t p e. cc)
              (scan-free fuel low high (tail l) (tail h)
                (omega (arith, tail_shrinks l i from.read (ground arith))) (All-tail l d)))
      ])

pub ok_eq : (i j : ℕ) → ◌≡◌ {A = Outcome ℕ} (ok i) (ok j) → i ≡ j
ok_eq i j h = cc

pub digit_lt : (c d i j : ℕ) → digit c ≡ ok i → digit d ≡ ok j → c < d → i < j
digit_lt c d i j p q h = ground (arith, digit_lem c i p, digit_lem d j q, digit_at_mono j i)

pub bound_of :
    (l : Str) (d : ℕ) (h : Str) (i j : ℕ)
    → lower (head? l) ≡ ok i
    → digit d ≡ ok j
    → l ≺ (d ∷ h)
    → HasRoom (d ∷ h)
    → (i < j) ⊎ ((i ≡ j) × (tail l ≺ h))
unfolding lower
bound_of [] d [] i zero e k p r = absurd (r (sym ((digit_lem d 0 k).1)))
bound_of [] d (c ∷ h) i zero e k p r = inr (ground arith, ≺-nil c h)
bound_of [] d h i (suc j) e k p r = inl (ground arith)
bound_of (c ∷ l) d h i j e k p r = elim (≺-cases c d l h p) [
  | inl less ↦ inl (digit_lt c d i j e k less)
  | inr (eq, rest) ↦ inr (ok_eq i j (sym e ∙ ap digit eq ∙ k), rest)
]

pub ≺-lower :
    (d : ℕ) (h : Str) (j : ℕ)
    → digit d ≡ ok j
    → (m : ℕ) (t : Str) → m < j
    → (digit_at m ∷ t) ≺ (d ∷ h)
≺-lower d h j e m t p =
    let (lt, at) = digit_lem d j e in
    ≺-head (digit_at m) d t h (omega (arith, digit_at_mono m j p lt, at))

pub ≺-same :
    (d : ℕ) (h : Str) (j : ℕ)
    → digit d ≡ ok j
    → (i : ℕ) (t : Str) → i ≡ j
    → t ≺ h
    → (digit_at i ∷ t) ≺ (d ∷ h)
≺-same d h j e i t q p = rw (q, (digit_lem d j e).1) (≺-cons d t h p)

pub less_ne : (i j : ℕ) → i < j → (i == j) ≡ false
less_ne i j h = ground arith

pub same_eq : (i j : ℕ) → i ≡ j → (i == j) ≡ true
same_eq i j h = ground arith

-- While `high` bounds the rank, and `low` is before it.
pub scan-bounded :
    (fuel : ℕ) (low high l h : Str)
    → length l + length h + 1 ≤ fuel
    → All IsDigit l
    → All IsDigit h
    → HasRoom h
    → l ≺ h
    → Fits l h true (scan fuel low high l h true)
scan-bounded zero low high l h f dl dh r p = absurd (omega arith)
scan-bounded (suc fuel) low high l [] f dl dh r p = absurd (nothing-≺-nil l p)
scan-bounded (suc fuel) low high l (d ∷ h) f dl ((j, dj), dh) r p =
    let (i, from) = From-of l dl in
    rw (scan_round fuel low high l (d ∷ h) true i j from.read (unfold upper in dj))
      (elim (Bool-cases (ltb (i + 1) j)) [
        | inl mid ↦ rw mid (
            Fits-mid l (d ∷ h) true i j from (ground arith) (omega (arith, digit_lem d j dj))
              (λ e. ≺-lower d h j dj ((i + j) / 2) [] (ground arith)))
        | inr deep ↦ elim (bound_of l d h i j from.read dj p r) [
          | inl less ↦
              rw (deep, less_ne i j less)
                (Fits-next l (d ∷ h) true false i (scan fuel low high (tail l) h false) from
                  (λ t p e. ≺-lower d h j dj i t less)
                  (scan-free fuel low high (tail l) h (omega (arith, length-tail l))
                    (All-tail l dl)))
          | inr (eq, rest) ↦
              rw (deep, same_eq i j eq)
                (Fits-next l (d ∷ h) true true i (scan fuel low high (tail l) h true) from
                  (λ t below e. ≺-same d h j dj i t eq (below refl))
                  (scan-bounded fuel low high (tail l) h (omega (arith, length-tail l))
                    (All-tail l dl) dh (HasRoom-tail d h r) rest))
        ]
      ])
