-- ===== src/Sheets/Selection/Nearest.antt =====
-- The nearest key of selection.rs: what `min_by_key` over the sheets with a key finds.
use aurum_presenter.Prelude.{
  ℕ, ◌≤◌, ◌≡◌, refl, sym, ap, ◌∙◌, inl, inr, Bool, true, false, Option, none, some, List, [], ◌∷◌,
  arith, ltb, if◌then◌else◌, ltb→lt, Bool-cases, Option-cases,
}
use mathlib.Core.List.{Memᴰ}
use aurum_presenter.Chart.Notes.{Key}
use aurum_presenter.Sheets.Selection.{
  Part, SheetChoice, is_part, nearest_to, nearest, nearest_of, fifths_distance, keyed, key_of,
}

abbrev away : Key → SheetChoice × Key → ℕ
away wanted x = fifths_distance wanted x.1

-- The winner of two stands for both.
cover :
    (wanted : Key) (b c w : SheetChoice × Key) (more : List (SheetChoice × Key)) (r : ℕ)
    → away wanted w ≤ away wanted b
    → away wanted w ≤ away wanted c
    → ((x : SheetChoice × Key) → Memᴰ x (w ∷ more) → r ≤ away wanted x)
    → (x : SheetChoice × Key) → Memᴰ x (b ∷ c ∷ more)
    → r ≤ away wanted x
cover wanted b c w more r p q h x (Memᴰ.head e) = rw e (omega (arith, h w (Memᴰ.head refl)))
cover wanted b c w more r p q h x (Memᴰ.tail (Memᴰ.head e)) =
    rw e (omega (arith, h w (Memᴰ.head refl)))
cover wanted b c w more r p q h x (Memᴰ.tail (Memᴰ.tail m)) = h x (Memᴰ.tail m)

put_back :
    (p : Bool) (x b c : SheetChoice × Key) (more : List (SheetChoice × Key))
    → Memᴰ x ((if p then c else b) ∷ more)
    → Memᴰ x (b ∷ c ∷ more)
put_back true x b c more m = Memᴰ.tail m
put_back false x b c more (Memᴰ.head e) = Memᴰ.head e
put_back false x b c more (Memᴰ.tail m) = Memᴰ.tail (Memᴰ.tail m)

-- The nearer of two, an earlier one before a later one as near.
abbrev winner : Key → SheetChoice × Key → SheetChoice × Key → SheetChoice × Key
winner wanted b c = if ltb (away wanted c) (away wanted b) then c else b

winner_lem :
    (wanted : Key) (b c : SheetChoice × Key)
    → (away wanted (winner wanted b c) ≤ away wanted b)
      × (away wanted (winner wanted b c) ≤ away wanted c)
winner_lem wanted b c = least (away wanted b) (away wanted c) refl refl
  where
    least :
        (m n : ℕ)
        → away wanted b ≡ m
        → away wanted c ≡ n
        → (away wanted (if ltb n m then c else b) ≤ m)
          × (away wanted (if ltb n m then c else b) ≤ n)
    least m n e f = elim (Bool-cases (ltb n m)) [
      | inl q ↦ (let lt = ltb→lt n m q in rw (q, f) (omega arith, omega arith))
      | inr q ↦ rw (q, e) (omega arith, ground arith)
    ]

alone : (wanted : Key) (b x : SheetChoice × Key) → Memᴰ x (b ∷ []) → away wanted b ≤ away wanted x
alone wanted b x (Memᴰ.head e) = rw e (omega arith)
alone wanted b x (Memᴰ.tail m) = elim m [ ]

-- The best so far only gets nearer, and ends no further away than any of the others.
nearest_of_lem :
    (wanted : Key) (best : SheetChoice × Key) (more : List (SheetChoice × Key))
    → Memᴰ (nearest_of wanted best more) (best ∷ more)
      × ((x : SheetChoice × Key)
          → Memᴰ x (best ∷ more)
          → away wanted (nearest_of wanted best more) ≤ away wanted x)
unfolding nearest_of
nearest_of_lem wanted best [] = (Memᴰ.head refl, alone wanted best)
nearest_of_lem wanted best (next ∷ more) =
    let rest = nearest_of_lem wanted (winner wanted best next) more in
    let le = winner_lem wanted best next in
    (
      put_back (ltb (away wanted next) (away wanted best))
          (nearest_of wanted (winner wanted best next) more) best next more rest.0,
      cover wanted best next (winner wanted best next) more
          (away wanted (nearest_of wanted (winner wanted best next) more)) le.0 le.1 rest.1,
    )

keyed_lem :
    (part : Option Part) (sheets : List SheetChoice) (x : SheetChoice × Key)
    → Memᴰ x (keyed part sheets)
    → Memᴰ x.0 sheets × (is_part part x.0 ≡ true) × (key_of x.0 ≡ some x.1)
unfolding keyed
keyed_lem part [] x m = elim m [ ]
keyed_lem part (s ∷ sheets) x m = elim (Bool-cases (is_part part s)) [
  | inr other ↦ later (keyed_lem part sheets x (rw other at m))
  | inl fits ↦ elim (Option-cases (key_of s)) [
    | inl keyless ↦ later (keyed_lem part sheets x (rw (fits, keyless) at m))
    | inr (key, e) ↦ here fits key e (keyed_lem part sheets x) (rw (fits, e) at m)
  ]
]
  where
    later :
        Memᴰ x.0 sheets × (is_part part x.0 ≡ true) × (key_of x.0 ≡ some x.1)
        → Memᴰ x.0 (s ∷ sheets) × (is_part part x.0 ≡ true) × (key_of x.0 ≡ some x.1)
    later (k, p, q) = (Memᴰ.tail k, p, q)

    here :
        is_part part s ≡ true
        → (key : Key) → key_of s ≡ some key
        → (Memᴰ x (keyed part sheets)
            → Memᴰ x.0 sheets × (is_part part x.0 ≡ true) × (key_of x.0 ≡ some x.1))
        → Memᴰ x ((s, key) ∷ keyed part sheets)
        → Memᴰ x.0 (s ∷ sheets) × (is_part part x.0 ≡ true) × (key_of x.0 ≡ some x.1)
    here fits key e ih (Memᴰ.head q) = (
      Memᴰ.head (ap (λ (p : SheetChoice × Key). p.0) q),
      rw (ap (λ (p : SheetChoice × Key). p.0) q) fits,
      ap (λ (p : SheetChoice × Key). key_of p.0) q
          ∙ e
          ∙ sym (ap (λ (p : SheetChoice × Key). some p.1) q),
    )
    here fits key e ih (Memᴰ.tail m) = later (ih m)

-- A sheet that `nearest` hands back is one of the keyed ones, and no keyed one is nearer.
nearest_lem :
    (wanted : Key) (xs : List (SheetChoice × Key)) (x : SheetChoice × Key)
    → nearest wanted xs ≡ some x
    → Memᴰ x xs × ((y : SheetChoice × Key) → Memᴰ y xs → away wanted x ≤ away wanted y)
unfolding nearest
nearest_lem wanted [] x h = cc
nearest_lem wanted (y ∷ ys) x h =
    let same : nearest_of wanted y ys ≡ x = cc in rw same at (nearest_of_lem wanted y ys)

mem_keyed :
    (part : Option Part) (sheets : List SheetChoice) (s : SheetChoice) (key : Key)
    → Memᴰ s sheets
    → is_part part s ≡ true
    → key_of s ≡ some key
    → Memᴰ (s, key) (keyed part sheets)
unfolding keyed
mem_keyed part [] s key m p q = elim m [ ]
mem_keyed part (t ∷ sheets) s key (Memᴰ.head e) p q =
    let p' : is_part part t ≡ true = rw (← e) p in
    let q' : key_of t ≡ some key = rw (← e) q in rw (p', q') (Memᴰ.head (ap (λ x. (x, key)) e))
mem_keyed part (t ∷ sheets) s key (Memᴰ.tail m) p q = elim (Bool-cases (is_part part t)) [
  | inr other ↦ rw other (mem_keyed part sheets s key m p q)
  | inl fits ↦ elim (Option-cases (key_of t)) [
    | inl keyless ↦ rw (fits, keyless) (mem_keyed part sheets s key m p q)
    | inr (k, e) ↦ rw (fits, e) (Memᴰ.tail (mem_keyed part sheets s key m p q))
  ]
]

-- With a wanted key, the sheet that `nearest_to` finds is one of the sheets, for the part, with a
-- key, and no other sheet for the part with a key is nearer on the circle of fifths.
pub nearest_to_lem :
    (wanted : Key) (part : Option Part) (sheets : List SheetChoice) (s : SheetChoice)
    → nearest_to (some wanted) part sheets ≡ some s
    → Memᴰ s sheets
      × (is_part part s ≡ true)
      × (key : Key) × (key_of s ≡ some key)
      × ((t : SheetChoice) (other : Key)
          → Memᴰ t sheets
          → is_part part t ≡ true
          → key_of t ≡ some other
          → fifths_distance wanted key ≤ fifths_distance wanted other)
nearest_to_lem wanted part sheets s h = elim (Option-cases (nearest wanted (keyed part sheets))) [
  | inl e ↦ (let absurd : none ≡ some s = rw e at h in cc)
  | inr (x, e) ↦ answer x e (rw e at h)
]
  where
    answer :
        (x : SheetChoice × Key)
        → nearest wanted (keyed part sheets) ≡ some x
        → some x.0 ≡ some s
        → Memᴰ s sheets
          × (is_part part s ≡ true)
          × (key : Key) × (key_of s ≡ some key)
          × ((t : SheetChoice) (other : Key)
              → Memᴰ t sheets
              → is_part part t ≡ true
              → key_of t ≡ some other
              → fifths_distance wanted key ≤ fifths_distance wanted other)
    answer x e q =
        let same : x.0 ≡ s = cc in
        let (m, least) = nearest_lem wanted (keyed part sheets) x e in
        let (k, p, r) = keyed_lem part sheets x m in
        rw (← same)
          (k, p, x.1, r, λ t other n a b. least (t, other) (mem_keyed part sheets t other n a b))

pub nearest_mem :
    (key : Option Key) (part : Option Part) (sheets : List SheetChoice) (s : SheetChoice)
    → nearest_to key part sheets ≡ some s
    → Memᴰ s sheets
nearest_mem none part sheets s h = cc
nearest_mem (some wanted) part sheets s h = (nearest_to_lem wanted part sheets s h).0
