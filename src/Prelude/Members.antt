-- ===== src/Prelude/Members.antt =====
-- Membership in the lists that iterators build: `filter`, `find` and a stable sort.
use mathlib.Core.List.{Memᴰ}
use aurum_presenter.Prelude.{
  ◌≡◌, ◌⊎◌, inl, inr, Bool, true, false, none, some, List, [], ◌∷◌, arith, if◌then◌else◌,
  Bool-cases, keep, find,
}

module _ {ℓ} {A : Type ℓ} where
  pub find-some :
      (p : A → Bool) (xs : List A) (x : A) → find p xs ≡ some x → Memᴰ x xs × (p x ≡ true)
  find-some p [] x h = cc
  find-some p (y ∷ xs) x h = elim (Bool-cases (p y)) [
    | inl here ↦ found here (rw here at h)
    | inr later ↦ (let (m, e) = find-some p xs x (rw later at h) in (Memᴰ.tail m, e))
  ]
    where
      found : p y ≡ true → some y ≡ some x → Memᴰ x (y ∷ xs) × (p x ≡ true)
      found e s = (Memᴰ.head (cc), (let same : y ≡ x = cc in rw (← same) e))

  pub find-none : (p : A → Bool) (xs : List A) (x : A) → find p xs ≡ none → Memᴰ x xs → p x ≡ false
  find-none p [] x h m = elim m [ ]
  find-none p (y ∷ xs) x h (Memᴰ.head e) = rw e (ground arith)
  find-none p (y ∷ xs) x h (Memᴰ.tail m) = find-none p xs x (ground arith) m

  pub keep_mem :
      (p : A → Bool) (xs : List A) (x : A) → Memᴰ x (keep p xs) → Memᴰ x xs × (p x ≡ true)
  keep_mem p [] x m = elim m [ ]
  keep_mem p (y ∷ xs) x m = elim (Bool-cases (p y)) [
    | inl kept ↦ among kept (keep_mem p xs x) (rw kept at m)
    | inr gone ↦ (let (n, e) = keep_mem p xs x (rw gone at m) in (Memᴰ.tail n, e))
  ]
    where
      among :
          p y ≡ true
          → (Memᴰ x (keep p xs) → Memᴰ x xs × (p x ≡ true))
          → Memᴰ x (y ∷ keep p xs)
          → Memᴰ x (y ∷ xs) × (p x ≡ true)
      among e ih (Memᴰ.head s) = (Memᴰ.head s, rw s e)
      among e ih (Memᴰ.tail n) = (let (k, q) = ih n in (Memᴰ.tail k, q))

  pub mem_keep : (p : A → Bool) (xs : List A) (x : A) → Memᴰ x xs → p x ≡ true → Memᴰ x (keep p xs)
  mem_keep p [] x m e = elim m [ ]
  mem_keep p (y ∷ xs) x (Memᴰ.head s) e = (let k : p y ≡ true = rw (← s) e in rw k (Memᴰ.head s))
  mem_keep p (y ∷ xs) x (Memᴰ.tail m) e = elim (Bool-cases (p y)) [
    | inl kept ↦ rw kept (Memᴰ.tail (mem_keep p xs x m e))
    | inr gone ↦ rw gone (mem_keep p xs x m e)
  ]

module _ {ℓ} {A : Type ℓ} (le : A → A → Bool) where
  -- `sort_by`: stable, since an element goes in front of the later ones that compare equal.
  unfoldable pub insert_sorted : A → List A → List A
  insert_sorted x [] = x ∷ []
  insert_sorted x (y ∷ ys) =
      let rest = insert_sorted x ys in if le x y then x ∷ y ∷ ys else y ∷ rest

  unfoldable pub sort : List A → List A
  unfolding insert_sorted
  sort [] = []
  sort (x ∷ xs) = insert_sorted x (sort xs)

  abbrev pub Sorted : List A → Type 0
  Sorted [] = Unit
  Sorted (x ∷ []) = Unit
  Sorted (x ∷ y ∷ xs) = (le x y ≡ true) × Sorted (y ∷ xs)

  mem_insert : (x y : A) (ys : List A) → (x ≡ y) ⊎ Memᴰ x ys → Memᴰ x (insert_sorted y ys)
  unfolding insert_sorted
  mem_insert x y [] (inl e) = Memᴰ.head e
  mem_insert x y [] (inr m) = elim m [ ]
  mem_insert x y (z ∷ ys) (inl e) = elim (Bool-cases (le y z)) [
    | inl here ↦ rw here (Memᴰ.head e)
    | inr later ↦ rw later (Memᴰ.tail (mem_insert x y ys (inl e)))
  ]
  mem_insert x y (z ∷ ys) (inr (Memᴰ.head e)) = elim (Bool-cases (le y z)) [
    | inl here ↦ rw here (Memᴰ.tail (Memᴰ.head e))
    | inr later ↦ rw later (Memᴰ.head e)
  ]
  mem_insert x y (z ∷ ys) (inr (Memᴰ.tail m)) = elim (Bool-cases (le y z)) [
    | inl here ↦ rw here (Memᴰ.tail (Memᴰ.tail m))
    | inr later ↦ rw later (Memᴰ.tail (mem_insert x y ys (inr m)))
  ]

  insert_mem : (x y : A) (ys : List A) → Memᴰ x (insert_sorted y ys) → (x ≡ y) ⊎ Memᴰ x ys
  unfolding insert_sorted
  insert_mem x y [] (Memᴰ.head e) = inl e
  insert_mem x y [] (Memᴰ.tail m) = elim m [ ]
  insert_mem x y (z ∷ ys) m = elim (Bool-cases (le y z)) [
    | inl here ↦ front (rw here at m)
    | inr later ↦ back (insert_mem x y ys) (rw later at m)
  ]
    where
      front : Memᴰ x (y ∷ z ∷ ys) → (x ≡ y) ⊎ Memᴰ x (z ∷ ys)
      front (Memᴰ.head e) = inl e
      front (Memᴰ.tail n) = inr n

      back :
          (Memᴰ x (insert_sorted y ys) → (x ≡ y) ⊎ Memᴰ x ys)
          → Memᴰ x (z ∷ insert_sorted y ys)
          → (x ≡ y) ⊎ Memᴰ x (z ∷ ys)
      back ih (Memᴰ.head e) = inr (Memᴰ.head e)
      back ih (Memᴰ.tail n) = elim (ih n) [ inl e ↦ inl e | inr k ↦ inr (Memᴰ.tail k) ]

  pub mem_sort : (x : A) (xs : List A) → Memᴰ x xs → Memᴰ x (sort xs)
  unfolding sort
  mem_sort x [] m = m
  mem_sort x (y ∷ xs) (Memᴰ.head e) = mem_insert x y (sort xs) (inl e)
  mem_sort x (y ∷ xs) (Memᴰ.tail m) = mem_insert x y (sort xs) (inr (mem_sort x xs m))

  pub sort_mem : (x : A) (xs : List A) → Memᴰ x (sort xs) → Memᴰ x xs
  unfolding sort
  sort_mem x [] m = m
  sort_mem x (y ∷ xs) m = elim (insert_mem x y (sort xs) m) [
    | inl e ↦ Memᴰ.head e
    | inr n ↦ Memᴰ.tail (sort_mem x xs n)
  ]
