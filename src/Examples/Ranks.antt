-- ===== src/Examples/Ranks.antt =====
-- Ranks of crates/core/src/sets/rank.rs at concrete neighbours.
use aurum_presenter.Prelude.{◌≡◌, refl, some, List, [], ◌∷◌, arith}
use aurum_presenter.Prelude.Text.{Str, str_ltb}
use aurum_presenter.Sets.Rank.{digit_at, digit, ok, rank_between, rank_for_move}
use aurum_presenter.Sets.Rank.Order.{HasRoom, IsRank-one, ◌≺◌}
use aurum_presenter.Sets.Rank.Between.{IsBetween, rank_between-IsBetween}
use aurum_presenter.Sets.Rank.Fresh.{AreRanks}
use aurum_presenter.Sets.Rank.Move.{Moved, rank_for_move-Moved}

abbrev ten : Str
ten = digit_at 10 ∷ []

abbrev twenty : Str
twenty = digit_at 20 ∷ []

abbrev thirty : Str
thirty = digit_at 30 ∷ []

ten_read : digit (digit_at 10) ≡ ok 10
unfolding digit digit_at
ten_read = refl

twenty_read : digit (digit_at 20) ≡ ok 20
unfolding digit digit_at
twenty_read = refl

twenty_room : HasRoom twenty
unfolding digit_at
twenty_room = λ e. omega arith

ten_twenty : ten ≺ twenty
unfolding str_ltb digit_at
ten_twenty = refl

twenty_thirty : twenty ≺ thirty
unfolding str_ltb digit_at
twenty_thirty = refl

rank_between-IsBetween_example :
    IsBetween (some ten) (some twenty) (rank_between (some ten) (some twenty))
rank_between-IsBetween_example =
    rank_between-IsBetween (some ten) (some twenty) ((10, ten_read), tt) ((20, twenty_read), tt)
      twenty_room (λ a b. ten_twenty)

abbrev three : List Str
three = ten ∷ twenty ∷ thirty ∷ []

three-AreRanks : AreRanks three
three-AreRanks = record {
  ascending = (ten_twenty, (twenty_thirty, tt));
  all_ranks = (
    IsRank-one 10 (omega arith) (omega arith),
    (IsRank-one 20 (omega arith) (omega arith), (IsRank-one 30 (omega arith) (omega arith), tt)),
  );
}

rank_for_move-Moved_example : Moved three 0 2 (rank_for_move three 0 2)
rank_for_move-Moved_example =
    rank_for_move-Moved three 0 2 three-AreRanks (omega arith) (λ e. omega arith)
