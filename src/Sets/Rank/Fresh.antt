-- ===== src/Sets/Rank/Fresh.antt =====
-- `initial_ranks` of rank.rs: a fresh list of ranks is in strictly ascending order.
use aurum_presenter.Prelude.{
  ℕ, zero, suc, ◌+◌, ◌≡◌, refl, none, List, [], ◌∷◌, ◌++◌, arith, length, get_last?, All,
  All-append, unwrap_or, length-append,
}
use aurum_presenter.Prelude.Text.{Str}
use aurum_presenter.Sets.Rank.{Outcome, ok, rank_between, push_ranks, initial_ranks}
use aurum_presenter.Sets.Rank.Order.{IsDigit, IsRank, ◌≺◌}
use aurum_presenter.Sets.Rank.Between.{IsBetween, rank_between-IsBetween}

-- Each rank is before the next one.
abbrev pub Ascending : List Str → Type 0
Ascending [] = Unit
Ascending (x ∷ []) = Unit
Ascending (x ∷ y ∷ xs) = (x ≺ y) × Ascending (y ∷ xs)

-- Ranks in order.
pub record AreRanks (ranks : List Str) : Type 0 where
  pub ascending : Ascending ranks
  pub all_ranks : All IsRank ranks

-- What pushing `count` ranks onto `ranks` hands back.
pub record Pushed (ranks : List Str) (count : ℕ) (o : Outcome (List Str)) : Type 0 where
  pub list : List Str
  pub returned : o ≡ ok list
  pub size : length list ≡ length ranks + count
  pub are_ranks : AreRanks list

Ascending-snoc :
    (xs : List Str) (r : Str)
    → Ascending xs
    → unwrap_or (get_last? xs) [] ≺ r
    → Ascending (xs ++ r ∷ [])
Ascending-snoc [] r a h = tt
Ascending-snoc (x ∷ []) r a h = (h, tt)
Ascending-snoc (x ∷ y ∷ xs) r a h = (a.0, Ascending-snoc (y ∷ xs) r a.1 h)

last_digits : (xs : List Str) → All IsRank xs → All IsDigit (unwrap_or (get_last? xs) [])
last_digits [] h = tt
last_digits (x ∷ []) h = h.0.all_digits
last_digits (x ∷ y ∷ xs) h = last_digits (y ∷ xs) h.1

next_rank :
    (xs : List Str)
    → All IsRank xs
    → IsBetween (get_last? xs) none (rank_between (get_last? xs) none)
next_rank xs h =
    rank_between-IsBetween (get_last? xs) none (last_digits xs h) tt tt (λ p q. absurd (q refl))

push_ranks-Pushed :
    (count : ℕ) (xs : List Str) → AreRanks xs → Pushed xs count (push_ranks count xs)
unfolding push_ranks
push_ranks-Pushed zero xs r = record {
  list = xs;
  returned = refl;
  size = omega arith;
  are_ranks = r;
}
push_ranks-Pushed (suc count) xs r =
    let next = next_rank xs r.all_ranks in
    let rest = push_ranks-Pushed count (xs ++ next.rank ∷ []) (record {
      ascending = Ascending-snoc xs next.rank r.ascending next.above;
      all_ranks = All-append IsRank xs (next.rank ∷ []) r.all_ranks (next.is_rank, tt);
    }) in
    rw next.returned (record {
      list = rest.list;
      returned = rest.returned;
      size = omega (arith, rest.size, length-append xs (next.rank ∷ []));
      are_ranks = rest.are_ranks;
    })

-- `initial_ranks count` returns `count` ranks, each strictly before the next.
pub initial_ranks-Pushed : (count : ℕ) → Pushed [] count (initial_ranks count)
unfolding initial_ranks
initial_ranks-Pushed count = push_ranks-Pushed count [] (record { ascending = tt; all_ranks = tt })
