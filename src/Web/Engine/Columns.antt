-- ===== src/Web/Engine/Columns.antt =====
-- The columns of the row that a local change of engine.rs writes.
use aurum_presenter.Prelude.{
  ◌≡◌, refl, sym, ap, ◌∙◌, inl, inr, Bool, true, false, Option, none, some, List, [], ◌∷◌, map,
  if◌then◌else◌, Bool-cases, unwrap_or, any,
}
use aurum_presenter.Prelude.Text.{Str, codes, str_eq, str_eq-true, str_eq_refl}
use aurum_presenter.Prelude.Int.{pos}
use aurum_presenter.Sync.Json.{Value, Fields, get}
use aurum_presenter.Api.Store.{Serde, Json, assign, assign_all}
use aurum_presenter.Web.Engine.{blank_columns, changed_row, is_delete}

module _ {V : Type 0} where
  get-assign :
      (k field : Str) (value : V) (row : Fields V)
      → get k (assign field value row) ≡ (if str_eq field k then some value else get k row)
  unfolding get assign
  get-assign k field value [] = refl
  get-assign k field value ((other, old) ∷ row) = elim (Bool-cases (str_eq other field)) [
    | inl e ↦ rw (e, str_eq-true other field e) (twice (str_eq field k))
    | inr e ↦
        rw (e, get-assign k field value row)
          (elim (Bool-cases (str_eq other k)) [
            | inl f ↦ rw (f, apart f e) refl
            | inr f ↦ rw f refl
          ])
  ]
    where
      twice :
          (b : Bool)
          → (if b then some value else get k row)
            ≡ (if b then some value else (if b then some old else get k row))
      twice true = refl
      twice false = refl

      apart : str_eq other k ≡ true → str_eq other field ≡ false → str_eq field k ≡ false
      apart f e = elim (Bool-cases (str_eq field k)) [
        | inl g ↦
            (let same : other ≡ field = str_eq-true other k f ∙ sym (str_eq-true field k g) in
              let bad : true ≡ false = sym (rw same (str_eq_refl field)) ∙ e in cc)
        | inr g ↦ g
      ]

  -- The last value that a payload gives a column, or what there was.
  abbrev pub last_given : Str → Fields V → Option V → Option V
  last_given k [] old = old
  last_given k ((field, value) ∷ payload) old =
      last_given k payload (if str_eq field k then some value else old)

  get-assign_all :
      (k : Str) (payload row : Fields V)
      → get k (assign_all payload row) ≡ last_given k payload (get k row)
  unfolding assign_all
  get-assign_all k [] row = refl
  get-assign_all k ((field, value) ∷ payload) row =
      get-assign_all k payload (assign field value row) ∙ rw (get-assign k field value row) refl

  get-same :
      (k : Str) (value : V) (names : List Str)
      → get k (map (λ c. (c, value)) names)
        ≡ (if any (λ c. str_eq c k) names then some value else none)
  unfolding get
  get-same k value [] = refl
  get-same k value (name ∷ names) = elim (Bool-cases (str_eq name k)) [
    | inl e ↦ rw e refl
    | inr e ↦ rw (e, get-same k value names) refl
  ]

  -- A column of a row that may not be there.
  abbrev pub column : Str → Option (Fields V) → Option V
  column k none = none
  column k (some row) = get k row

module _ (S : Serde) where
  -- The columns that a new row has from the start with null.
  abbrev pub null_columns : Str → List Str
  null_columns table =
      codes "updated_by"
      ∷ (if str_eq table (codes "sheets")
          then codes "sha256"
            ∷ codes "size"
            ∷ codes "uploaded_at"
            ∷ codes "page_count"
            ∷ codes "pages_changed_at"
            ∷ []
          else [])

  abbrev pub blank_column : Str → Str → Option (Json S)
  blank_column table k =
      if str_eq (codes "change_seq") k
      then some (Value.number (S.of_i64 (pos 0)))
      else if any (λ c. str_eq c k) (null_columns table)
      then some Value.null
      else none

  abbrev pub column_before : Str → Str → Option (Fields (Json S)) → Option (Json S)
  column_before table k none = blank_column table k
  column_before table k (some row) = get k row

  -- A column after the change: the times and the id are written by the device, a deletion changes no
  -- other column, and a write gives the others what the payload says.
  abbrev pub column_after :
      Str → Str → Str → Str → Fields (Json S) → Option (Fields (Json S)) → Str → Option (Json S)
  column_after now table record_id op payload existing k =
      let deleted = str_eq op (codes "delete") in
      if str_eq (codes "updated_at") k
      then some (Value.string now)
      else if str_eq (codes "deleted_at") k
      then some (if deleted then Value.string now else Value.null)
      else if str_eq (codes "id") k
      then some (Value.string record_id)
      else if deleted
      then column_before table k existing
      else last_given k payload (column_before table k existing)

  get-blank_columns : (table k : Str) → get k (blank_columns S table) ≡ blank_column table k
  unfolding blank_columns get
  get-blank_columns table k = elim (Bool-cases (str_eq table (codes "sheets"))) [
    | inl e ↦ rw e (
        front (
          get-same k Value.null (
            codes "updated_by"
            ∷ codes "sha256"
            ∷ codes "size"
            ∷ codes "uploaded_at"
            ∷ codes "page_count"
            ∷ codes "pages_changed_at"
            ∷ [])))
    | inr e ↦ rw e (front (get-same k Value.null (codes "updated_by" ∷ [])))
  ]
    where
      front :
          {x y : Option (Json S)}
          → x ≡ y
          → (if str_eq (codes "change_seq") k then some (Value.number (S.of_i64 (pos 0))) else x)
            ≡ (if str_eq (codes "change_seq") k then some (Value.number (S.of_i64 (pos 0))) else y)
      front e =
          ap
            (λ r.
              if str_eq (codes "change_seq") k then some (Value.number (S.of_i64 (pos 0))) else r)
            e

  get-old :
      (table k : Str) (existing : Option (Fields (Json S)))
      → get k (unwrap_or existing (blank_columns S table)) ≡ column_before table k existing
  get-old table k none = get-blank_columns table k
  get-old table k (some row) = refl

  either_first :
      {A : Type 0} (k : Str) (a b d : A)
      → (if str_eq (codes "deleted_at") k
          then b
          else (if str_eq (codes "updated_at") k then a else d))
        ≡ (if str_eq (codes "updated_at") k
            then a
            else (if str_eq (codes "deleted_at") k then b else d))
  unfolding str_eq
  either_first k a b d = elim (Bool-cases (str_eq (codes "updated_at") k)) [
    | inl e ↦ rw (← str_eq-true (codes "updated_at") k e) refl
    | inr e ↦ rw e refl
  ]

  pub get-changed_row :
      (now table record_id op : Str) (payload : Fields (Json S))
      (existing : Option (Fields (Json S))) (k : Str)
      → get k (changed_row S now record_id op payload (unwrap_or existing (blank_columns S table)))
        ≡ column_after now table record_id op payload existing k
  unfolding changed_row
  get-changed_row now table record_id op payload existing k =
      let row = unwrap_or existing (blank_columns S table) in
      elim (Bool-cases (is_delete S op)) [
        | inl e ↦ rw e (
            rw
              (
                get-assign k (codes "updated_at") (Value.string now) (
                    assign (codes "deleted_at") (Value.string now)
                      (assign (codes "id") (Value.string record_id) row)),
                get-assign k (codes "deleted_at") (Value.string now)
                    (assign (codes "id") (Value.string record_id) row),
                get-assign k (codes "id") (Value.string record_id) row,
                get-old table k existing,
              )
              refl)
        | inr e ↦ rw e (
            rw
              (
                get-assign k (codes "deleted_at") Value.null (
                    assign (codes "updated_at") (Value.string now)
                      (assign (codes "id") (Value.string record_id) (assign_all payload row))),
                get-assign k (codes "updated_at") (Value.string now)
                    (assign (codes "id") (Value.string record_id) (assign_all payload row)),
                get-assign k (codes "id") (Value.string record_id) (assign_all payload row),
                get-assign_all k payload row,
                get-old table k existing,
              )
              (either_first k _ _ _))
      ]
