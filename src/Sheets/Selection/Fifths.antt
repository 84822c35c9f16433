-- ===== src/Sheets/Selection/Fifths.antt =====
-- The distance around the circle of fifths.
use aurum_presenter.Prelude.{
  ℕ, ◌+◌, ◌≤◌, ◌≡◌, refl, ◌↔◌, Bool, true, ◌&&◌, arith, ltb, leb, ◌==◌, if◌then◌else◌, all_below,
  all_below_sound,
}
use aurum_presenter.Chart.Notes.{Key, pitch_class}
use aurum_presenter.Chart.Notes.Transposing.{pitch_class-lt}
use aurum_presenter.Sheets.Selection.{fifths_between, fifths_distance}

close : ℕ → ℕ → Bool
unfolding fifths_between
close a b =
    leb (fifths_between a b) 6
    && (fifths_between a b == fifths_between b a)
    && (if a == b then fifths_between a b == 0 else ltb 0 (fifths_between a b))

close_table : all_below 12 (λ a. all_below 12 (close a)) ≡ true
unfolding all_below close
close_table = refl

read_close :
    (a b d e : ℕ)
    → (leb d 6 && (d == e) && (if a == b then d == 0 else ltb 0 d)) ≡ true
    → (d ≤ 6) × (d ≡ e) × ((d ≡ 0) ↔ (a ≡ b))
read_close a b d e h = ground arith

-- The distance between two keys is at most six, the same both ways, and 0 exactly between keys whose
-- tonics sound the same.
pub fifths_distance_lem :
    (j k : Key)
    → (fifths_distance j k ≤ 6)
      × (fifths_distance j k ≡ fifths_distance k j)
      × ((fifths_distance j k ≡ 0) ↔ (pitch_class j.tonic ≡ pitch_class k.tonic))
fifths_distance_lem j k =
    let a = pitch_class j.tonic in
    let b = pitch_class k.tonic in
    unfold fifths_distance in
    read_close a b (fifths_between a b) (fifths_between b a) (
      unfold close in
      all_below_sound 12 (close a) b
        (all_below_sound 12 (λ a. all_below 12 (close a)) a close_table (pitch_class-lt j.tonic))
        (pitch_class-lt k.tonic))

triangle : ℕ → ℕ → ℕ → Bool
unfolding fifths_between
triangle a b c = leb (fifths_between a c) (fifths_between a b + fifths_between b c)

triangle_table : all_below 12 (λ a. all_below 12 (λ b. all_below 12 (triangle a b))) ≡ true
unfolding all_below triangle
triangle_table = refl

-- Going through a third key is never shorter.
pub fifths_distance_triangle :
    (i j k : Key) → fifths_distance i k ≤ fifths_distance i j + fifths_distance j k
fifths_distance_triangle i j k =
    let a = pitch_class i.tonic in
    let b = pitch_class j.tonic in
    let row =
      all_below_sound 12 (λ b. all_below 12 (triangle a b)) b
        (all_below_sound 12 (λ a. all_below 12 (λ b. all_below 12 (triangle a b))) a triangle_table
          (pitch_class-lt i.tonic))
        (pitch_class-lt j.tonic) in
    unfold fifths_distance in
    read_le (fifths_between a (pitch_class k.tonic))
      (fifths_between a b + fifths_between b (pitch_class k.tonic))
      (unfold triangle in
        all_below_sound 12 (triangle a b) (pitch_class k.tonic) row (pitch_class-lt k.tonic))
  where
    read_le : (x y : ℕ) → leb x y ≡ true → x ≤ y
    read_le x y h = ground arith
