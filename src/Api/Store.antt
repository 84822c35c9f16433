-- ===== src/Api/Store.antt =====
-- The workspace database that crates/api/src/handlers/sync.rs reads and writes: rows, the counter of
-- crates/api/src/db.rs, and the effect of each SQL statement. What serde_json and SQLite do with a
-- number are parameters, and so are the constraints by which SQLite refuses a statement and the
-- defaults of the columns that an INSERT leaves out.
use aurum_presenter.Prelude.{
  ℕ, ◌+◌, max, Bool, true, false, Option, none, some, List, [], ◌∷◌, if◌then◌else◌,
}
use aurum_presenter.Prelude.Text.{Str, codes, str_eq}
use aurum_presenter.Prelude.Int.{ℤ, pos}
use aurum_presenter.Sync.Json.{Value, Fields, get}

-- serde_json, and SQLite's floating-point numbers.
pub record Serde : Type 1 where
  pub Number : Type 0
  pub Structured : Type 0
  pub Real : Type 0
  pub number_text : Number → Str
  pub json_text : Structured → Str
  pub as_i64 : Number → Option ℤ
  pub as_f64 : Number → Real
  pub of_i64 : ℤ → Number
  pub of_f64 : Real → Number
  pub as_object : Structured → Option (Fields (Value Number Structured))

pub data Sql (Real : Type 0) : Type 0 where
  null : Sql Real
  integer : ℤ → Sql Real
  real : Real → Sql Real
  text : Str → Sql Real

-- A row: the columns that the server owns, and the columns of its table. A column that is not among
-- its cells is null.
pub record Row (Real : Type 0) : Type 0 where
  pub id : Str
  pub updated_at : Str
  pub change_seq : ℤ
  pub updated_by : Option Str
  pub deleted_at : Option Str
  pub cells : Fields (Sql Real)

pub record ConflictRow (Real : Type 0) : Type 0 where
  pub table_name : Str
  pub record_id : Str
  pub field : Str
  pub losing_value : Sql Real
  pub losing_user : Option Str
  pub at_time : Str

pub record AppliedOp : Type 0 where
  pub op_id : Str
  pub user_id : Str
  pub applied_at : Str

pub record Db (Real : Type 0) : Type 0 where
  pub rows : Str → List (Row Real)
  pub seq : ℕ
  pub applied_ops : List AppliedOp
  pub sync_conflicts : List (ConflictRow Real)

-- The tables that SQLite lets a statement leave behind, and the defaults of a table's columns.
pub record Constraints (Real : Type 0) : Type 0 where
  pub admits : Str → List (Row Real) → Bool
  pub defaults : Str → Fields (Sql Real)

module _ {V : Type 0} where
  -- `SET field = value`, and the value of a column in an INSERT.
  unfoldable pub assign : Str → V → Fields V → Fields V
  assign field value [] = (field, value) ∷ []
  assign field value ((other, old) ∷ cells) =
      let rest = assign field value cells in
      if str_eq other field then (field, value) ∷ cells else (other, old) ∷ rest

  unfoldable pub assign_all : Fields V → Fields V → Fields V
  unfolding assign
  assign_all [] cells = cells
  assign_all ((field, value) ∷ payload) cells = assign_all payload (assign field value cells)

module _ {Real : Type 0} where
  -- A table is replaced by what a statement makes of it.
  abbrev pub with_table : Str → List (Row Real) → Db Real → Db Real
  with_table table rows db = record db { rows = λ t. if str_eq t table then rows else db.rows t }

  -- `WHERE id = ?1`
  abbrev pub has_id : Str → Row Real → Bool
  has_id id row = str_eq row.id id

  -- The rows of an UPDATE: those that its condition takes are changed.
  abbrev pub change : (Row Real → Bool) → (Row Real → Row Real) → List (Row Real) → List (Row Real)
  change p f [] = []
  change p f (row ∷ rows) = (if p row then f row else row) ∷ change p f rows

  -- A statement leaves the table that it makes, or fails and leaves the database as it was.
  abbrev pub statement : Constraints Real → Str → List (Row Real) → Db Real → Db Real × Bool
  statement sqlite table rows db =
      if sqlite.admits table rows then (with_table table rows db, true) else (db, false)

  -- `UPDATE sync_counter SET seq = seq + ?1`, with the first number of the batch.
  unfoldable pub write_batch : ℕ → Db Real → ℕ × Db Real
  write_batch count db = (db.seq + 1, record db { seq = db.seq + max count 1 })

module _ (S : Serde) where
  abbrev pub Json : Type 0
  Json = Value S.Number S.Structured

  unfoldable pub sql_to_json : Sql S.Real → Json
  sql_to_json Sql.null = Value.null
  sql_to_json (Sql.integer n) = Value.number (S.of_i64 n)
  sql_to_json (Sql.real r) = Value.number (S.of_f64 r)
  sql_to_json (Sql.text s) = Value.string s

  abbrev pub number_to_sql : S.Number → Option ℤ → Sql S.Real
  number_to_sql n none = Sql.real (S.as_f64 n)
  number_to_sql n (some i) = Sql.integer i

  unfoldable pub json_to_sql : Json → Sql S.Real
  json_to_sql Value.null = Sql.null
  json_to_sql (Value.bool flag) = Sql.integer (if flag then pos 1 else pos 0)
  json_to_sql (Value.number n) = number_to_sql n (S.as_i64 n)
  json_to_sql (Value.string s) = Sql.text s
  json_to_sql (Value.structured v) = Sql.text (S.json_text v)

  abbrev text_or_null : Option Str → Json
  text_or_null none = Value.null
  text_or_null (some s) = Value.string s

  abbrev cells_of : Fields (Sql S.Real) → Fields Json
  cells_of [] = []
  cells_of ((field, value) ∷ cells) = (field, sql_to_json value) ∷ cells_of cells

  -- `read_rows`: a row as a JSON object, column by column.
  unfoldable pub object_of : Row S.Real → Fields Json
  unfolding sql_to_json
  object_of row =
      (codes "id", Value.string row.id)
      ∷ (codes "updated_at", Value.string row.updated_at)
      ∷ (codes "change_seq", Value.number (S.of_i64 row.change_seq))
      ∷ (codes "updated_by", text_or_null row.updated_by)
      ∷ (codes "deleted_at", text_or_null row.deleted_at)
      ∷ cells_of row.cells

  -- `Value::as_str`
  abbrev pub as_str : Option Json → Option Str
  as_str (some (Value.string s)) = some s
  as_str _ = none

  -- `op.get(key).and_then(Value::as_str)`
  abbrev pub get_str : Str → Fields Json → Option Str
  get_str key fields = as_str (get key fields)

  -- `encode`d payloads become the cells of a statement.
  abbrev pub sql_cells : Fields Json → Fields (Sql S.Real)
  sql_cells [] = []
  sql_cells ((field, value) ∷ payload) = (field, json_to_sql value) ∷ sql_cells payload
