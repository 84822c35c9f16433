-- ===== src/Chart/Chord/Quality.antt =====
-- The quality grammar of chord.rs: what `is_quality` accepts is a concatenation of the grammar's
-- atoms, and its loop always ends.
use aurum_presenter.Prelude.{
  ℕ, zero, suc, ◌<◌, ◌≡◌, refl, sym, ap, ◌∙◌, ◌≢◌, ◌⊎◌, inl, inr, true, false, Option, none, some,
  List, [], ◌∷◌, ◌++◌, arith, length, All, length-append,
}
use aurum_presenter.Prelude.Text.{Str, strip_prefix}
use mathlib.Core.List.{Memᴰ, flatten}
use aurum_presenter.Chart.Notes.{first_prefix}
use aurum_presenter.Chart.Chord.{atoms, is_quality_in, is_quality}

strip_prefix_lem : (p s r : Str) → strip_prefix p s ≡ some r → s ≡ p ++ r
unfolding strip_prefix
strip_prefix_lem [] s r h = ground arith
strip_prefix_lem (c ∷ p) [] r h = cc
strip_prefix_lem (c ∷ p) (d ∷ s) r h = ground (arith, strip_prefix_lem p s r)

-- The first of the prefixes, or a later one.
branch :
    (o : Option Str) (q p r : Str) (next : Option (Str × Str))
    → elim o [ none ↦ next | some rest ↦ some (q, rest) ] ≡ some (p, r)
    → ((o ≡ none) × (next ≡ some (p, r))) ⊎ ((o ≡ some r) × (p ≡ q))
branch none q p r next h = inl (refl, h)
branch (some rest) q p r next h = inr (cc, cc)

first_prefix_lem :
    (ps : List Str) (s p r : Str) → first_prefix ps s ≡ some (p, r) → Memᴰ p ps × (s ≡ p ++ r)
unfolding first_prefix
first_prefix_lem [] s p r h = cc
first_prefix_lem (q ∷ ps) s p r h =
    let later = first_prefix_lem ps s p r in
    elim (branch (strip_prefix q s) q p r (first_prefix ps s) h) [
      | inl (_, e) ↦ (Memᴰ.tail (later e).0, (later e).1)
      | inr (there, same) ↦ (Memᴰ.head same, rw same (strip_prefix_lem q s r there))
    ]

-- A text that is the atoms of a list, one after the other.
pub record Spells (ps : List Str) (s : Str) : Type 0 where
  pub parts : List Str
  pub are_atoms : All (λ a. Memᴰ a ps) parts
  pub joined : s ≡ flatten parts

-- No prefix of the list is empty.
abbrev NoneEmpty : List Str → Type 0
NoneEmpty ps = All (λ p. 0 < length p) ps

nonempty : (ps : List Str) (p : Str) → NoneEmpty ps → Memᴰ p ps → 0 < length p
nonempty [] p h m = elim m [ ]
nonempty (q ∷ ps) p h (Memᴰ.head e) = rw e h.0
nonempty (q ∷ ps) p h (Memᴰ.tail m) = nonempty ps p h.1 m

stripped :
    (ps : List Str) (s p r : Str)
    → NoneEmpty ps
    → first_prefix ps s ≡ some (p, r)
    → length r < length s
stripped ps s p r h e =
    let (m, joined) = first_prefix_lem ps s p r e in
    omega (arith, ap length joined, length-append p r, nonempty ps p h m)

cases :
    (o : Option (Str × Str)) (ps : List Str) (fuel : ℕ)
    → (o ≡ none) ⊎ ((p : Str) × (r : Str) × (o ≡ some (p, r)))
cases none ps fuel = inl refl
cases (some (p, r)) ps fuel = inr (p, r, refl)

-- One round of the loop.
round_none :
    (ps : List Str) (fuel c : ℕ) (s : Str)
    → first_prefix ps (c ∷ s) ≡ none
    → is_quality_in ps (suc fuel) (c ∷ s) ≡ some false
unfolding is_quality_in
round_none ps fuel c s h = rw (h, is_quality_in)

round_some :
    (ps : List Str) (fuel c : ℕ) (s p r : Str)
    → first_prefix ps (c ∷ s) ≡ some (p, r)
    → is_quality_in ps (suc fuel) (c ∷ s) ≡ is_quality_in ps fuel r
unfolding is_quality_in
round_some ps fuel c s p r h = ground arith

in_sound : (ps : List Str) (fuel : ℕ) (s : Str) → is_quality_in ps fuel s ≡ some true → Spells ps s
unfolding flatten
in_sound ps zero s h = unfold is_quality_in in cc
in_sound ps (suc fuel) [] h = record { parts = []; are_atoms = tt; joined = refl }
in_sound ps (suc fuel) (c ∷ s) h = elim (cases (first_prefix ps (c ∷ s)) ps fuel) [
  | inl e ↦ (let no_way : some false ≡ some true = sym (round_none ps fuel c s e) ∙ h in cc)
  | inr (p, r, e) ↦
      let rest = in_sound ps fuel r (sym (round_some ps fuel c s p r e) ∙ h) in
      let (m, joined) = first_prefix_lem ps (c ∷ s) p r e in
      record {
        parts = p ∷ rest.parts;
        are_atoms = (m, rest.are_atoms);
        joined = joined ∙ ap (λ t. p ++ t) rest.joined;
      }
]

in_returns :
    (ps : List Str) (fuel : ℕ) (s : Str)
    → NoneEmpty ps
    → length s < fuel
    → is_quality_in ps fuel s ≢ none
in_returns ps zero s n f h = omega arith
in_returns ps (suc fuel) [] n f h = unfold is_quality_in in cc
in_returns ps (suc fuel) (c ∷ s) n f h = elim (cases (first_prefix ps (c ∷ s)) ps fuel) [
  | inl e ↦ (let no_way : some false ≡ none = sym (round_none ps fuel c s e) ∙ h in cc)
  | inr (p, r, e) ↦
      in_returns ps fuel r n (omega (arith, stripped ps (c ∷ s) p r n e))
        (sym (round_some ps fuel c s p r e) ∙ h)
]

atoms_nonempty : NoneEmpty atoms
unfolding atoms
atoms_nonempty = omega arith

-- `is_quality` ends with an answer on every text, and a text that it accepts is a sequence of atoms.
pub is_quality_lem : (s : Str) → (is_quality s ≢ none) × (is_quality s ≡ some true → Spells atoms s)
unfolding is_quality
is_quality_lem s = (
  in_returns atoms (suc (length s)) s atoms_nonempty (omega arith),
  in_sound atoms (suc (length s)) s,
)
