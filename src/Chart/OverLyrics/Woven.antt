-- ===== src/Chart/OverLyrics/Woven.antt =====
-- Where `merge` of crates/core/src/chart/over_lyrics.rs puts the chords.
use aurum_presenter.Prelude.{
  ℕ, zero, suc, ◌+◌, ◌-◌, ◌≤◌, ◌≡◌, refl, ap, ◌∙◌, List, [], ◌∷◌, ◌++◌, arith, length, take, drop,
  length-append, take-append-drop, length-take,
}
use aurum_presenter.Prelude.Text.{Str, repeat}
use mathlib.Core.List.{append_assoc}
use aurum_presenter.Chart.Render.{pad_to}
use aurum_presenter.Chart.OverLyrics.Placing.{Placement, bracket, put_chord, merge}

-- The chords from the left: up to the column of each the lyric, with blanks where it has ended, and
-- then the chord in its brackets.
unfoldable pub weave : ℕ → Str → List Placement → Str
unfolding pad_to
weave from lyric [] = lyric
weave from lyric (placement ∷ more) =
    let gap = placement.column - from in
    let padded = pad_to lyric gap in
    take gap padded ++ (bracket placement.chord ++ weave placement.column (drop gap padded) more)

-- No chord stands left of the one before it.
abbrev pub Ascending : ℕ → List Placement → Type 0
Ascending from [] = Unit
Ascending from (placement ∷ more) = (from ≤ placement.column) × Ascending placement.column more

Ascending-le : (m n : ℕ) (ps : List Placement) → m ≤ n → Ascending n ps → Ascending m ps
Ascending-le m n [] h a = tt
Ascending-le m n (p ∷ ps) h (l, a) = (omega arith, a)

append_nil : (s : Str) → s ++ [] ≡ s
append_nil [] = refl
append_nil (c ∷ s) = ap (λ r. c ∷ r) (append_nil s)

repeat-add : (m n : ℕ) → repeat 32 m ++ repeat 32 n ≡ repeat 32 (m + n)
repeat-add zero n = ap (repeat 32) (let e : n ≡ 0 + n = omega arith in e)
repeat-add (suc m) n =
    let e : suc m + n ≡ suc (m + n) = omega arith in rw e (ap (λ r. 32 ∷ r) (repeat-add m n))

length-repeat : (c n : ℕ) → length (repeat c n) ≡ n
length-repeat c zero = refl
length-repeat c (suc n) = ap (λ m. suc m) (length-repeat c n)

length-pad_to : (s : Str) (n : ℕ) → n ≤ length (pad_to s n)
unfolding pad_to
length-pad_to s n = rw (length-append, length-repeat) (omega arith)

pad_long : (s : Str) (n : ℕ) → n ≤ length s → pad_to s n ≡ s
unfolding pad_to
pad_long s n h = let none_left : n - length s ≡ 0 = omega arith in rw none_left (append_nil s)

pad_to-pad_to : (s : Str) (m n : ℕ) → m ≤ n → pad_to (pad_to s m) n ≡ pad_to s n
unfolding pad_to
pad_to-pad_to s m n h =
    let width : length (s ++ repeat 32 (m - length s)) ≡ length s + (m - length s) =
      rw (length-append, length-repeat) in
    let whole : m - length s + (n - (length s + (m - length s))) ≡ n - length s = omega arith in
    rw (width, append_assoc, repeat-add, whole)

-- Blanks that the lyric is given early are those that it is given anyway.
merge_padded :
    (s : Str) (m : ℕ) (p : Placement) (ps : List Placement)
    → m ≤ p.column
    → Ascending p.column ps
    → merge s (p ∷ ps) ≡ merge (pad_to s m) (p ∷ ps)
unfolding merge put_chord
merge_padded s m p [] h a = rw (pad_to-pad_to s m p.column h)
merge_padded s m p (q ∷ ps) h (l, a) = ap (put_chord p) (merge_padded s m q ps (omega arith) a)

put_padded :
    (s : Str) (p : Placement) (ps : List Placement)
    → Ascending p.column ps
    → put_chord p (merge s ps) ≡ put_chord p (merge (pad_to s p.column) ps)
unfolding put_chord merge
put_padded s p [] a = rw (pad_to-pad_to s p.column p.column (omega arith))
put_padded s p (q ∷ ps) (l, a) = ap (put_chord p) (merge_padded s p.column q ps l a)

take-append : (u w : Str) → take (length u) (u ++ w) ≡ u
take-append [] w = refl
take-append (c ∷ u) w = ap (λ r. c ∷ r) (take-append u w)

drop-append : (u w : Str) → drop (length u) (u ++ w) ≡ w
drop-append [] w = refl
drop-append (c ∷ u) w = drop-append u w

put_front :
    (p : Placement) (u w : Str)
    → length u ≡ p.column
    → put_chord p (u ++ w) ≡ u ++ (bracket p.chord ++ w)
unfolding put_chord
put_front p u w e =
    let long : p.column ≤ length (u ++ w) = rw length-append (omega (arith, e)) in
    rw (pad_long (u ++ w) p.column long, ← e, take-append, drop-append)
      (append_assoc u (bracket p.chord) w)

pad_front : (u v : Str) (n : ℕ) → length u ≤ n → pad_to (u ++ v) n ≡ u ++ pad_to v (n - length u)
unfolding pad_to
pad_front u v n h =
    let rest : n - (length u + length v) ≡ n - length u - length v = omega arith in
    rw (length-append, rest) (append_assoc u v _)

merge_front :
    (u v : Str) (ps : List Placement)
    → Ascending (length u) ps
    → merge (u ++ v) ps ≡ u ++ weave (length u) v ps
unfolding merge weave
merge_front u v [] a = refl
merge_front u v (p ∷ ps) (l, a) =
    let gap = p.column - length u in
    let padded = pad_to v gap in
    let front = u ++ take gap padded in
    let width : length front ≡ p.column =
      rw (length-append, length-take gap padded (length-pad_to v gap)) (omega arith) in
    let split : pad_to (u ++ v) p.column ≡ front ++ drop gap padded =
      rw (pad_front u v p.column l, append_assoc, take-append-drop gap padded) in
    put_padded (u ++ v) p ps a
    ∙ rw
        (
          split,
          merge_front front (drop gap padded) ps (rw width a),
          put_front p front (weave (length front) (drop gap padded) ps) width,
          width,
        )
        (append_assoc u (take gap padded) _)

-- Where no chord stands left of the one before it, putting them in from the right, so that the columns
-- hold, gives what weaving them in from the left gives: every chord stands after as many columns of
-- lyric and blanks as it stood at, and the lyric is whole.
pub merge-weave :
    (lyric : Str) (ps : List Placement) → Ascending 0 ps → merge lyric ps ≡ weave 0 lyric ps
merge-weave lyric ps a = merge_front [] lyric ps a
