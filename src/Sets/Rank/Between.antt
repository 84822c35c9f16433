-- ===== src/Sets/Rank/Between.antt =====
-- What `rank_between` of rank.rs promises: a rank strictly between its neighbours that leaves room
-- before it, for every pair of neighbours that are ranks in order.
use aurum_presenter.Prelude.{
  ◌≡◌, ◌≢◌, refl, Bool, true, false, ◌&&◌, not, Option, [], ◌∷◌, ◌++◌, arith, All, unwrap_or,
}
use aurum_presenter.Prelude.Text.{Str, is_empty, str_ltb}
use aurum_presenter.Sets.Rank.{Outcome, ok, err, unreachable, ◌>>=◌, grow, rounds, rank_between}
use aurum_presenter.Sets.Rank.Scan.{scan, grow-scan}
use aurum_presenter.Sets.Rank.Order.{IsDigit, HasRoom, IsRank, ◌≺◌, ≺-nil}
use aurum_presenter.Sets.Rank.Rounds.{Fits, scan-free, scan-bounded}

-- The rank handed back for neighbours `before` and `after` is a rank strictly between them, where an
-- absent or empty neighbour bounds nothing.
pub record IsBetween (before after : Option Str) (o : Outcome Str) : Type 0 where
  pub rank : Str
  pub returned : o ≡ ok rank
  pub is_rank : IsRank rank
  pub above : unwrap_or before [] ≺ rank
  pub below : unwrap_or after [] ≢ [] → rank ≺ unwrap_or after []

pub grow_fresh :
    (low high : Str) (b : Bool)
    → grow (rounds low high) low high 0 b [] ≡ scan (rounds low high) low high low high b
grow_fresh low high b =
    rw (grow-scan (rounds low high) low high 0 b [])
      (same (scan (rounds low high) low high low high b))
  where
    same : (o : Outcome Str) → (o >>= λ r. ok ([] ++ r)) ≡ o
    same (ok r) = refl
    same (err e) = refl
    same unreachable = refl

grown :
    (low high : Str)
    → All IsDigit low
    → All IsDigit high
    → HasRoom high
    → (high ≢ [] → low ≺ high)
    → Fits low high
        (not (is_empty high))
        (grow (rounds low high) low high 0 (not (is_empty high)) [])
grown low [] dl dh r p =
    rw (grow_fresh low [] false) (scan-free (rounds low []) low [] low [] (omega arith) dl)
grown low (c ∷ h) dl dh r p =
    rw (grow_fresh low (c ∷ h) true) (
      scan-bounded (rounds low (c ∷ h)) low (c ∷ h) low (c ∷ h) (omega arith) dl dh r (p (λ e. cc)))

in_order : (low high : Str) → (low ≢ [] → high ≢ [] → low ≺ high) → high ≢ [] → low ≺ high
in_order [] [] p n = absurd (n refl)
in_order [] (c ∷ h) p n = ≺-nil c h
in_order (c ∷ l) high p n = p (λ e. cc) n

guard_passes :
    (low high : Str)
    → (low ≢ [] → high ≢ [] → low ≺ high)
    → (not (is_empty low) && not (is_empty high) && not (str_ltb low high)) ≡ false
guard_passes [] high p = refl
guard_passes (c ∷ l) [] p = refl
guard_passes (c ∷ l) (d ∷ h) p = rw (p (λ e. cc) (λ e. cc))

not_empty : (s : Str) → s ≢ [] → not (is_empty s) ≡ true
not_empty [] n = absurd (n refl)
not_empty (c ∷ s) n = refl

-- For neighbours made of rank digits, of which the upper one does not end in the lowest digit, and
-- which are in order where both are there, `rank_between` returns a rank: made of digits, not
-- ending in the lowest one, above the lower neighbour and below the upper one.
pub rank_between-IsBetween :
    (before after : Option Str)
    → All IsDigit (unwrap_or before [])
    → All IsDigit (unwrap_or after [])
    → HasRoom (unwrap_or after [])
    → (unwrap_or before [] ≢ []
        → unwrap_or after [] ≢ []
        → unwrap_or before [] ≺ unwrap_or after [])
    → IsBetween before after (rank_between before after)
unfolding rank_between
rank_between-IsBetween before after dl dh r p =
    let low = unwrap_or before [] in
    let high = unwrap_or after [] in
    let fit = grown low high dl dh r (in_order low high p) in
    rw (guard_passes low high p) (record {
      rank = fit.rank;
      returned = fit.returned;
      is_rank = fit.is_rank;
      above = fit.above;
      below = λ n. fit.below (not_empty high n);
    })
