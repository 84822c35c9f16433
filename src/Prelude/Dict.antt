-- ===== src/Prelude/Dict.antt =====
-- A `HashMap` with string keys as an association list: at most one entry for a key is read.
use aurum_presenter.Prelude.{
  ◌≡◌, refl, Bool, true, false, Option, none, some, List, [], ◌∷◌, if◌then◌else◌, Bool-cases, inl,
  inr, sym, ◌∙◌,
}
use aurum_presenter.Prelude.Text.{Str, str_eq, str_eq-true, str_eq_refl}

module _ {ℓ} {V : Type ℓ} where
  -- `get`
  unfoldable pub lookup : Str → List (Str × V) → Option V
  lookup key [] = none
  lookup key ((other, value) ∷ rest) =
      let later = lookup key rest in if str_eq other key then some value else later

  -- `remove`
  unfoldable pub remove : Str → List (Str × V) → List (Str × V)
  remove key [] = []
  remove key ((other, value) ∷ rest) =
      let later = remove key rest in if str_eq other key then later else (other, value) ∷ later

  -- `insert`, which replaces
  unfoldable pub insert : Str → V → List (Str × V) → List (Str × V)
  insert key value rest = (key, value) ∷ remove key rest

  abbrev pub Unique : List (Str × V) → Type ℓ
  Unique [] = Unit
  Unique ((key, value) ∷ rest) = (lookup key rest ≡ none) × Unique rest

  lookup_step :
      (c k : Str) (v : V) (rest : List (Str × V))
      → lookup c ((k, v) ∷ rest) ≡ (if str_eq k c then some v else lookup c rest)
  unfolding lookup
  lookup_step c k v rest = refl

  pub lookup-remove :
      (c k : Str) (rest : List (Str × V))
      → lookup c (remove k rest) ≡ (if str_eq k c then none else lookup c rest)
  unfolding lookup remove
  lookup-remove c k [] = elim (Bool-cases (str_eq k c)) [ inl e ↦ rw e refl | inr e ↦ rw e refl ]
  lookup-remove c k ((j, v) ∷ rest) =
      let ih = lookup-remove c k rest in
      elim (Bool-cases (str_eq j k)) [
        | inl e ↦ (let same : j ≡ k = str_eq-true j k e in rw (e, ih, same) (twice (str_eq k c) v))
        | inr e ↦
            rw (e, ih)
              (elim (Bool-cases (str_eq j c)) [
                | inl f ↦ rw (f, apart f e) refl
                | inr f ↦ rw f refl
              ])
      ]
    where
      twice :
          (b : Bool) (w : V)
          → (if b then none else lookup c rest)
            ≡ (if b then none else (if b then some w else lookup c rest))
      twice true w = refl
      twice false w = refl

      apart : str_eq j c ≡ true → str_eq j k ≡ false → str_eq k c ≡ false
      apart f e = elim (Bool-cases (str_eq k c)) [
        | inr g ↦ g
        | inl g ↦
            (let same : j ≡ k = str_eq-true j c f ∙ sym (str_eq-true k c g) in
              let absurd : str_eq k k ≡ false = rw same at e in let yes = str_eq_refl k in cc)
      ]

  pub lookup-insert :
      (c k : Str) (v : V) (rest : List (Str × V))
      → lookup c (insert k v rest) ≡ (if str_eq k c then some v else lookup c rest)
  unfolding insert
  lookup-insert c k v rest =
      rw (lookup_step c k v (remove k rest), lookup-remove c k rest) (twice (str_eq k c))
    where
      twice :
          (b : Bool)
          → (if b then some v else (if b then none else lookup c rest))
            ≡ (if b then some v else lookup c rest)
      twice true = refl
      twice false = refl

  pub remove-Unique : (k : Str) (rest : List (Str × V)) → Unique rest → Unique (remove k rest)
  unfolding remove
  remove-Unique k [] u = u
  remove-Unique k ((j, v) ∷ rest) (n, u) = elim (Bool-cases (str_eq j k)) [
    | inl e ↦ rw e (remove-Unique k rest u)
    | inr e ↦ rw e (
      rw (lookup-remove j k rest) (nothing (str_eq k j) (lookup j rest) n),
      remove-Unique k rest u,
    )
  ]
    where
      nothing : (b : Bool) (o : Option V) → o ≡ none → (if b then none else o) ≡ none
      nothing true o e = refl
      nothing false o e = e

  pub insert-Unique :
      (k : Str) (v : V) (rest : List (Str × V)) → Unique rest → Unique (insert k v rest)
  unfolding insert
  insert-Unique k v rest u =
      (rw (lookup-remove k k rest, str_eq_refl k) refl, remove-Unique k rest u)
