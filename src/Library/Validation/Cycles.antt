-- ===== src/Library/Validation/Cycles.antt =====
-- What `would_cycle` of crates/core/src/library/validation.rs decides, on a tree or on one that is looped.
use aurum_presenter.Prelude.{
  ℕ, zero, suc, ◌+◌, ◌≤◌, ◌<◌, ◌≡◌, refl, ap, ◌≢◌, ◌⊎◌, inl, inr, Bool, true, false, ◌||◌, Option,
  none, some, List, [], ◌∷◌, ◌++◌, arith, if◌then◌else◌, Bool-cases, Option-cases, length, find,
  any,
}
use aurum_presenter.Prelude.Text.{Str, str_eq, str_eq-true, str_eq_refl}
use aurum_presenter.Library.Validation.{parent_of, cycle_loop, would_cycle}

any-append : {A : Type 0} (p : A → Bool) (xs ys : List A) → any p (xs ++ ys) ≡ any p xs || any p ys
any-append p [] ys = refl
any-append p (x ∷ xs) ys = rw (any-append p xs ys) (or_assoc (p x) (any p xs) (any p ys))
  where
    or_assoc : (a b c : Bool) → a || (b || c) ≡ (a || b) || c
    or_assoc true b c = refl
    or_assoc false b c = refl

str_eq_sym : (s t : Str) → str_eq s t ≡ true → str_eq t s ≡ true
str_eq_sym s t e = rw (str_eq-true s t e, str_eq_refl t)

module _ (folders : List (Str × Option Str)) where
  -- The folder that is some number of parents away.
  unfoldable pub walk : ℕ → Option Str → Option Str
  walk zero walker = walker
  walk (suc n) none = none
  walk (suc n) (some current) = walk n (parent_of folders current)

  -- The folder is the one that the walk starts from, or one above it.
  abbrev pub Reaches : Option Str → Str → Type 0
  Reaches walker id = (n : ℕ) × (walk n walker ≡ some id)

  walk-none : (n : ℕ) (id : Str) → walk n none ≢ some id
  unfolding walk
  walk-none zero id e = cc
  walk-none (suc n) id e = cc

  abbrev is_in : List Str → Str → Bool
  is_in seen c = any (str_eq c) seen

  abbrev unseen : List Str → List (Str × Option Str) → ℕ
  unseen seen [] = 0
  unseen seen (folder ∷ more) =
      if is_in seen folder.0 then unseen seen more else suc (unseen seen more)

  unseen_le :
      (seen : List Str) (c : Str) (fs : List (Str × Option Str))
      → unseen (seen ++ c ∷ []) fs ≤ unseen seen fs
  unseen_le seen c [] = omega arith
  unseen_le seen c (f ∷ fs) =
      let h = unseen_le seen c fs in rw (any-append (str_eq f.0) seen (c ∷ [])) (ground arith)

  -- One folder fewer is unseen after a step from a folder of the list.
  unseen_lt :
      (seen : List Str) (c : Str) (fs : List (Str × Option Str)) (found : Str × Option Str)
      → is_in seen c ≡ false
      → find (λ (folder : Str × Option Str). str_eq folder.0 c) fs ≡ some found
      → unseen (seen ++ c ∷ []) fs < unseen seen fs
  unseen_lt seen c [] found h e = cc
  unseen_lt seen c (f ∷ fs) found h e = elim (Bool-cases (str_eq f.0 c)) [
    | inl here ↦
        (let same : f.0 ≡ c = str_eq-true f.0 c here in
          let le = unseen_le seen c fs in
          rw (any-append (str_eq f.0) seen (c ∷ []), same, h, str_eq_refl c) (omega (arith, le)))
    | inr later ↦
        (let less = unseen_lt seen c fs found h (rw later at e) in
          rw (any-append (str_eq f.0) seen (c ∷ []), later) (ground (arith, less)))
  ]

  module _ (id : Str) where
    -- What has been seen is not the folder that is moved, and its parents are seen too, but for the one
    -- that the walk comes to.
    abbrev Seen : List Str → Option Str → Type 0
    Seen seen walker =
        (c : Str)
        → is_in seen c ≡ true
        → (c ≢ id)
          × ((parent_of folders c ≡ walker)
              ⊎ ((d : Str) × (parent_of folders c ≡ some d) × (is_in seen d ≡ true)))

    stays :
        (seen : List Str) (current : Str)
        → Seen seen (some current)
        → is_in seen current ≡ true
        → (n : ℕ) (c : Str) → is_in seen c ≡ true
        → walk n (some c) ≢ some id
    unfolding walk
    stays seen current s i zero c j e = (s c j).0 (cc)
    stays seen current s i (suc n) c j e = elim (s c j).1 [
      | inl p ↦ stays seen current s i n current i (rw p at e)
      | inr (d, p, k) ↦ stays seen current s i n d k (rw p at e)
    ]

    Seen-step :
        (seen : List Str) (current : Str)
        → Seen seen (some current)
        → current ≢ id
        → Seen (seen ++ current ∷ []) (parent_of folders current)
    Seen-step seen current s n c j =
        let grown : (x : Str)
            → is_in (seen ++ current ∷ []) x ≡ is_in seen x || (str_eq x current || false) =
          λ x. any-append (str_eq x) seen (current ∷ []) in
        elim (Bool-cases (str_eq c current)) [
          | inl e ↦ (let same : c ≡ current = str_eq-true c current e in (rw same n, inl (rw same)))
          | inr e ↦
              (let before : is_in seen c ≡ true = elim (Bool-cases (is_in seen c)) [
                | inl y ↦ y
                | inr out ↦ (let bad : false ≡ true = rw (grown c, e, out) at j in cc)
              ] in
                (
                  (s c before).0,
                  inr (elim (s c before).1 [
                    | inl p ↦ (current, p, rw (grown current, str_eq_refl current) (or_true _))
                    | inr (d, p, k) ↦ (d, p, rw (grown d, k) refl)
                  ]),
                ))
        ]
      where
        or_true : (b : Bool) → b || true ≡ true
        or_true true = refl
        or_true false = refl

    abbrev pub Decided : Option Str → Option Bool → Type 0
    Decided walker answer =
        ((answer ≡ some true) × Reaches walker id)
        ⊎ ((answer ≡ some false) × (Reaches walker id → ⊥))

    abbrev Enough : ℕ → List Str → Option Str → Type 0
    Enough fuel seen none = 1 ≤ fuel
    Enough fuel seen (some current) = unseen seen folders + 2 ≤ fuel

    Enough-after :
        (fuel : ℕ) (seen : List Str) (current : Str)
        → is_in seen current ≡ false
        → unseen seen folders + 2 ≤ suc fuel
        → Enough fuel (seen ++ current ∷ []) (parent_of folders current)
    unfolding parent_of
    Enough-after fuel seen current h l =
        elim (Option-cases
          (find (λ (folder : Str × Option Str). str_eq folder.0 current) folders)) [
            | inl e ↦ rw e (omega arith)
            | inr (found, e) ↦
                (let less = unseen_lt seen current folders found h e in rw e (from found.1 less))
          ]
      where
        from :
            (parent : Option Str)
            → unseen (seen ++ current ∷ []) folders < unseen seen folders
            → Enough fuel (seen ++ current ∷ []) parent
        from none less = omega arith
        from (some d) less = omega arith

    apart : (current : Str) → str_eq current id ≡ false → current ≢ id
    apart current other e =
        let same = str_eq_refl id in let bad : str_eq id id ≡ false = rw e at other in cc

    onward :
        (current : Str) {answer : Option Bool}
        → str_eq current id ≡ false
        → Decided (parent_of folders current) answer
        → Decided (some current) answer
    unfolding walk
    onward current other (inl (e, (n, r))) = inl (e, (suc n, r))
    onward current other (inr (e, never)) = inr (e, λ (n, r). later n r)
      where
        later : (n : ℕ) → walk n (some current) ≡ some id → ⊥
        later zero r = apart current other cc
        later (suc n) r = never (n, r)

    cycle_loop_lem :
        (fuel : ℕ) (seen : List Str) (walker : Option Str)
        → Enough fuel seen walker
        → Seen seen walker
        → Decided walker (cycle_loop folders id fuel seen walker)
    unfolding cycle_loop walk
    cycle_loop_lem zero seen none l s = absurd (omega arith)
    cycle_loop_lem zero seen (some current) l s = absurd (omega arith)
    cycle_loop_lem (suc fuel) seen none l s = inr (refl, λ (n, e). walk-none n id e)
    cycle_loop_lem (suc fuel) seen (some current) l s = elim (Bool-cases (is_in seen current)) [
      | inl met ↦ rw met (inr (refl, λ (n, e). stays seen current s met n current met e))
      | inr new ↦ elim (Bool-cases (str_eq current id)) [
        | inl same ↦
            rw (new, same) (inl (refl, (0, ap (λ c. some c) (str_eq-true current id same))))
        | inr other ↦
            rw (new, other)
              (onward current other (
                cycle_loop_lem fuel (seen ++ current ∷ []) (parent_of folders current)
                  (Enough-after fuel seen current new l)
                  (Seen-step seen current s (apart current other))))
      ]
    ]

    unseen-length : (fs : List (Str × Option Str)) → unseen [] fs ≡ length fs
    unseen-length [] = refl
    unseen-length (f ∷ fs) = ap (λ n. suc n) (unseen-length fs)

  -- The walk always ends, on a list of folders that is looped too, and what it answers is whether the
  -- folder that is moved is the new parent or a folder above it.
  pub would_cycle-Decided :
      (id : Str) (parent_id : Option Str) → Decided id parent_id (would_cycle folders id parent_id)
  unfolding would_cycle
  would_cycle-Decided id none = inr (refl, λ (n, e). walk-none n id e)
  would_cycle-Decided id (some parent_id) =
      let count = unseen-length id folders in
      cycle_loop_lem id (length folders + 2) [] (some parent_id) (omega (arith, count)) (λ c h. cc)
