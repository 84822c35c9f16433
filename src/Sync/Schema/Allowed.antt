-- ===== src/Sync/Schema/Allowed.antt =====
-- What passes the allowlist of schema.rs, and what never does.
use aurum_presenter.Prelude.{
  ◌≡◌, refl, ◌∙◌, ◌↔◌, inl, inr, Bool, true, false, ◌&&◌, not, Option, none, some, List, [], ◌∷◌,
  arith, if◌then◌else◌, Bool-cases, any, all,
}
use aurum_presenter.Prelude.Text.{Str, codes, str_eq, str_eq_iff}
use aurum_presenter.Sync.Json.{Fields, get, get-keep_fields}
use aurum_presenter.Sync.Schema.{
  columns, columns_in, contains, allowed, filter, filter_by, allowed_by, is_synced_table, schema,
  sync_columns,
}

get-nil : {V : Type 0} (name : Str) → get {V = V} name [] ≡ none
unfolding get
get-nil name = refl

get-filter_by :
    {V : Type 0} (c : Option (List Str)) (name : Str) (payload : Fields V)
    → get name (filter_by c payload) ≡ (if allowed_by c name then get name payload else none)
unfolding filter_by allowed_by
get-filter_by none name payload = get-nil name
get-filter_by (some names) name payload = get-keep_fields (contains names) name payload

-- A field survives the filter exactly when the table lists it, and then with its value unchanged.
pub get-filter :
    {V : Type 0} (table name : Str) (payload : Fields V)
    → get name (filter table payload) ≡ (if allowed table name then get name payload else none)
unfolding filter allowed
get-filter table name payload = get-filter_by (columns table) name payload

-- No table of the list allows a name.
none_allows : Str → List (Str × List Str) → Bool
none_allows name [] = true
none_allows name ((t, names) ∷ rest) = not (contains names name) && none_allows name rest

none_allows_sound :
    (name table : Str) (rows : List (Str × List Str)) (names : List Str)
    → none_allows name rows ≡ true
    → columns_in rows table ≡ some names
    → contains names name ≡ false
unfolding none_allows columns_in
none_allows_sound name table [] names h e = cc
none_allows_sound name table ((t, ns) ∷ rest) names h e =
    ground (arith, none_allows_sound name table rest names)

allowed_by_none :
    (name table : Str) (c : Option (List Str))
    → none_allows name schema ≡ true
    → columns_in schema table ≡ c
    → allowed_by c name ≡ false
allowed_by_none name table none h e = unfold allowed_by in refl
allowed_by_none name table (some names) h e =
    unfold allowed_by in none_allows_sound name table schema names h e

allowed_none : (name table : Str) → none_allows name schema ≡ true → allowed table name ≡ false
unfolding allowed columns
allowed_none name table h = allowed_by_none name table (columns_in schema table) h refl

checked :
    (p : Str → Bool) (names : List Str) (name : Str)
    → all p names ≡ true
    → contains names name ≡ true
    → p name ≡ true
unfolding contains
checked p [] name h e = cc
checked p (n ∷ names) name h e = ground (arith, checked p names name, str_eq_iff n name)

owned_table : all (λ name. none_allows name schema) sync_columns ≡ true
unfolding none_allows contains
owned_table = refl

-- No table lists a column that the server owns.
pub owned_column :
    (table name : Str) → contains sync_columns name ≡ true → allowed table name ≡ false
owned_column table name h =
    allowed_none name table (checked (λ n. none_allows n schema) sync_columns name owned_table h)

-- Whatever a client pushes, to whatever table, none of the columns that the server owns is written.
pub filter_owned :
    {V : Type 0} (table name : Str) (payload : Fields V)
    → contains sync_columns name ≡ true
    → get name (filter table payload) ≡ none
filter_owned table name payload h = get-filter table name payload ∙ rw (owned_column table name h)

-- The columns that are set once an upload has been verified.
abbrev pub file_columns : List Str
file_columns = codes "sha256" ∷ codes "size" ∷ codes "uploaded_at" ∷ []

file_table : all (λ name. none_allows name schema) file_columns ≡ true
unfolding none_allows contains
file_table = refl

-- A push, to whatever table, sets none of the columns that state what file a sheet has.
pub filter-file_columns :
    {V : Type 0} (table name : Str) (payload : Fields V)
    → contains file_columns name ≡ true
    → get name (filter table payload) ≡ none
filter-file_columns table name payload h =
    get-filter table name payload
    ∙ rw (
        allowed_none name table
          (checked (λ n. none_allows n schema) file_columns name file_table h))

synced_in :
    (table : Str) (rows : List (Str × List Str))
    → (any (λ row. str_eq row.0 table) rows ≡ true)
      ↔ ((names : List Str) × (columns_in rows table ≡ some names))
unfolding columns_in
synced_in table [] = (λ h. cc, λ (names, e). cc)
synced_in table ((t, names) ∷ rest) = elim (Bool-cases (str_eq t table)) [
  | inl here ↦ (λ h. (names, rw here), λ e. rw here)
  | inr later ↦ rw (later, columns_in) (synced_in table rest)
]

-- A table is synced exactly when it has columns that a client may write.
pub is_synced_table_lem :
    (table : Str)
    → (is_synced_table table ≡ true) ↔ ((names : List Str) × (columns table ≡ some names))
unfolding is_synced_table columns
is_synced_table_lem table = synced_in table schema
