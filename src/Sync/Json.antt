-- ===== src/Sync/Json.antt =====
-- serde_json as far as the sync rules read it. A number and a structured value (an array or an
-- object) are parameters, and so is the text that serde_json writes for each; an object is the list
-- of its fields in the order that `iter` gives them, each name once.
use mathlib.Core.Option
use aurum_presenter.Prelude.{
  ◌≡◌, refl, Bool, Option, none, some, List, [], ◌∷◌, arith, if◌then◌else◌,
}
use aurum_presenter.Prelude.Text.{Str, str_eq, str_eq_iff}

pub data Value (Number Structured : Type 0) : Type 0 where
  null : Value Number Structured
  bool : Bool → Value Number Structured
  number : Number → Value Number Structured
  string : Str → Value Number Structured
  structured : Structured → Value Number Structured

abbrev pub Fields : Type 0 → Type 0
Fields V = List (Str × V)

module _ {V : Type 0} where
  -- `Map::get`
  unfoldable pub get : Str → Fields V → Option V
  get name [] = none
  get name ((k, v) ∷ fields) = if str_eq k name then some v else get name fields

  -- `iter().filter(|(field, _)| …).collect()`
  unfoldable pub keep_fields : (Str → Bool) → Fields V → Fields V
  keep_fields p [] = []
  keep_fields p ((k, v) ∷ fields) =
      let rest = keep_fields p fields in if p k then (k, v) ∷ rest else rest

  -- `iter().map(|(field, value)| …).collect()`
  unfoldable pub map_fields : (V → V) → Fields V → Fields V
  map_fields f [] = []
  map_fields f ((k, v) ∷ fields) = (k, f v) ∷ map_fields f fields

  pub get-keep_fields :
      (p : Str → Bool) (name : Str) (fields : Fields V)
      → get name (keep_fields p fields) ≡ (if p name then get name fields else none)
  unfolding get keep_fields
  get-keep_fields p name [] = ground arith
  get-keep_fields p name ((k, v) ∷ fields) =
      ground (arith, get-keep_fields p name fields, str_eq_iff k name)

  pub get-map_fields :
      (f : V → V) (name : Str) (fields : Fields V)
      → get name (map_fields f fields) ≡ Option.map f (get name fields)
  unfolding get map_fields
  get-map_fields f name [] = refl
  get-map_fields f name ((k, v) ∷ fields) = ground (arith, get-map_fields f name fields)
