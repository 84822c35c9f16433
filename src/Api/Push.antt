-- ===== src/Api/Push.antt =====
-- crates/api/src/handlers/sync.rs, `push`: the operations of a client's outbox, applied one after the
-- other in one transaction. An operation that fails leaves what its earlier statements wrote, as in
-- the source, where only the whole batch is a transaction. The random id of a conflict row is left out.
pub mod Once
pub mod Stamps
use aurum_presenter.Prelude.{
  ℕ, suc, ◌+◌, Bool, true, false, ◌&&◌, not, Option, none, some, List, [], ◌∷◌, ◌++◌, ltb, ◌==◌,
  if◌then◌else◌, unwrap_or, length, find, any,
}
use aurum_presenter.Prelude.Text.{Str, codes, str_eq}
use aurum_presenter.Prelude.Int.{pos, eqb_ℤ}
use aurum_presenter.Sync.Json.{Fields, get}
use aurum_presenter.Sync.Merge.{
  Existing, Conflict, Action, Plan, insert, update, remove, skip, plan,
}
use aurum_presenter.Api.Request.{
  Role, ApiError, database, batch_too_large, Outcome, ok, err, Request, checked,
}
use aurum_presenter.Api.Store.{
  assign, Serde, Json, Sql, Row, ConflictRow, AppliedOp, Db, Constraints, assign_all, has_id,
  change, statement, write_batch, json_to_sql, object_of, get_str, sql_cells,
}

-- `status`: what the client is told of one operation.
pub data Status : Type 0 where
  applied : Str → ℕ → List Str → Status
  duplicate : Str → Status

-- An operation is named by its id, or by its place in the batch where it has none.
pub data OpName : Type 0 where
  named : Str → OpName
  nth : ℕ → OpName

pub data PushResult : Type 0 where
  accepted : Status → PushResult
  rejected : OpName → ApiError → PushResult

-- `SELECT 1 FROM applied_ops WHERE op_id = ?1`
abbrev pub has_applied : {Real : Type 0} → Str → Db Real → Bool
has_applied op_id db = any (λ (a : AppliedOp). str_eq a.op_id op_id) db.applied_ops

module _ (S : Serde) where
  abbrev pub existing_in : Row S.Real → Existing (Json S)
  existing_in row =
      let fields = object_of S row in
      record {
        updated_at = unwrap_or (get_str S (codes "updated_at") fields) [];
        deleted_at = get_str S (codes "deleted_at") fields;
        updated_by = get_str S (codes "updated_by") fields;
        fields = fields;
      }

  -- `read_row`, and what the plan is given of the row.
  unfoldable pub existing_of : Option (Row S.Real) → Option (Existing (Json S))
  unfolding object_of get
  existing_of none = none
  existing_of (some row) = some (existing_in row)

  unfoldable pub plan_for : Request S → Db S.Real → Plan (Json S)
  unfolding existing_of plan
  plan_for r db =
      plan S.number_text S.json_text
        (record {
          table = r.table;
          kind = r.kind;
          payload = r.payload;
          base_updated_at = r.base_updated_at;
        })
        (existing_of (find (has_id r.record_id) (db.rows r.table)))

  abbrev pub conflict_rows : Request S → Str → List (Conflict (Json S)) → List (ConflictRow S.Real)
  conflict_rows r now [] = []
  conflict_rows r now (c ∷ conflicts) =
      (record {
        table_name = r.table;
        record_id = r.record_id;
        field = c.field;
        losing_value = json_to_sql S c.losing_value;
        losing_user = c.losing_user;
        at_time = now;
      })
      ∷ conflict_rows r now conflicts

  abbrev pub fields_of : List (Conflict (Json S)) → List Str
  fields_of [] = []
  fields_of (c ∷ conflicts) = c.field ∷ fields_of conflicts

  -- The statement that demotes the other defaults of a song, where the plan asks for it.
  abbrev pub demoted_row : Str → Str → ℕ → Row S.Real → Row S.Real
  demoted_row now user_id seq row = record row {
    updated_at = now;
    change_seq = pos seq;
    updated_by = some user_id;
    cells = assign (codes "is_default") (Sql.integer (pos 0)) row.cells;
  }

  abbrev is_text : Str → Option (Sql S.Real) → Bool
  is_text s (some (Sql.text t)) = str_eq t s
  is_text s _ = false

  abbrev is_one : Option (Sql S.Real) → Bool
  is_one (some (Sql.integer n)) = eqb_ℤ n (pos 1)
  is_one _ = false

  -- `WHERE song_id = ?4 AND id <> ?5 AND is_default = 1`
  unfoldable pub is_other_default : Str → Str → Row S.Real → Bool
  unfolding get
  is_other_default song_id record_id row =
      is_text song_id (get (codes "song_id") row.cells)
      && (not (str_eq row.id record_id) && is_one (get (codes "is_default") row.cells))

  unfoldable pub inserted_row :
      Constraints S.Real → Request S → Str → Str → ℕ → Fields (Json S) → Row S.Real
  unfolding assign_all
  inserted_row sqlite r user_id now seq payload = record {
    id = r.record_id;
    updated_at = now;
    change_seq = pos seq;
    updated_by = some user_id;
    deleted_at = none;
    cells = assign_all (sql_cells S payload) (sqlite.defaults r.table);
  }

  unfoldable pub updated_row : Str → Str → ℕ → Fields (Json S) → Row S.Real → Row S.Real
  unfolding assign_all
  updated_row user_id now seq payload row = record {
    id = row.id;
    updated_at = now;
    change_seq = pos seq;
    updated_by = some user_id;
    deleted_at = none;
    cells = assign_all (sql_cells S payload) row.cells;
  }

  unfoldable pub deleted_row : Str → Str → ℕ → Row S.Real → Row S.Real
  deleted_row user_id now seq row = record row {
    updated_at = now;
    change_seq = pos seq;
    updated_by = some user_id;
    deleted_at = some now;
  }

  module _ (sqlite : Constraints S.Real) (user_id : Str) (now : Str) (seq : ℕ) where
    abbrev pub recorded : Request S → List (Conflict (Json S)) → Db S.Real → Db S.Real
    recorded r conflicts db = record db {
      sync_conflicts = db.sync_conflicts ++ conflict_rows r now conflicts;
    }

    -- `if let Some(song_id) = &plan.demote_defaults_of`
    unfoldable pub demote : Request S → Option Str → Db S.Real → Db S.Real × Bool
    unfolding is_other_default
    demote r none db = (db, true)
    demote r (some song_id) db =
        statement sqlite (codes "arrangements")
          (change (is_other_default song_id r.record_id) (demoted_row now user_id seq)
            (db.rows (codes "arrangements")))
          db

    -- `match &plan.action`
    unfoldable pub act : Request S → Action (Json S) → Db S.Real → Db S.Real × Bool
    unfolding inserted_row updated_row deleted_row
    act r (insert payload) db =
        statement sqlite r.table
          (db.rows r.table ++ inserted_row sqlite r user_id now seq payload ∷ []) db
    act r (update payload) db =
        statement sqlite r.table
          (change (has_id r.record_id) (updated_row user_id now seq payload) (db.rows r.table)) db
    act r remove db =
        statement sqlite r.table
          (change (has_id r.record_id) (deleted_row user_id now seq) (db.rows r.table)) db
    act r (skip _) db = (db, true)

    abbrev pub act_after : Request S → Action (Json S) → Db S.Real × Bool → Db S.Real × Bool
    act_after r action (db, true) = act r action db
    act_after r action (db, false) = (db, false)

    -- The statements of `apply_one` up to the one that remembers the operation.
    unfoldable pub written : Request S → Db S.Real → Db S.Real × Bool
    unfolding demote act plan_for
    written r db =
        let p = plan_for r db in
        act_after r p.action (demote r p.demote_defaults_of (recorded r p.conflicts db))

    abbrev pub remembered : Request S → Db S.Real → Db S.Real
    remembered r db = record db {
      applied_ops =
          (record { op_id = r.op_id; user_id = user_id; applied_at = now }) ∷ db.applied_ops;
    }

    abbrev pub finish : Request S → List Str → Db S.Real × Bool → Db S.Real × Outcome Status
    finish r fields (db, true) = (remembered r db, ok (applied r.op_id seq fields))
    finish r fields (db, false) = (db, err database)

    unfoldable pub apply_request : Request S → Db S.Real → Db S.Real × Outcome Status
    unfolding written plan_for
    apply_request r db =
        if has_applied r.op_id db
        then (db, ok (duplicate r.op_id))
        else finish r (fields_of (plan_for r db).conflicts) (written r db)

    abbrev pub apply_checked : Outcome (Request S) → Db S.Real → Db S.Real × Outcome Status
    apply_checked (ok r) db = apply_request r db
    apply_checked (err e) db = (db, err e)

    unfoldable pub apply_one : Role → Fields (Json S) → Db S.Real → Db S.Real × Outcome Status
    unfolding checked apply_request
    apply_one role op db = apply_checked (checked S role user_id op) db

  abbrev pub op_name : ℕ → Fields (Json S) → OpName
  op_name place op = elim (get_str S (codes "op_id") op) [ none ↦ nth place | some id ↦ named id ]

  abbrev pub result_of : ℕ → Fields (Json S) → Outcome Status → PushResult
  result_of place op (ok status) = accepted status
  result_of place op (err e) = rejected (op_name place op) e

  module _ (sqlite : Constraints S.Real) (user_id : Str) (now : Str) (role : Role) where
    -- The loop over the batch, from the place of its first operation.
    unfoldable pub apply_all :
        ℕ → ℕ → List (Fields (Json S)) → Db S.Real → Db S.Real × List PushResult
    unfolding apply_one
    apply_all first place [] db = (db, [])
    apply_all first place (op ∷ ops) db =
        let (db', outcome) = apply_one sqlite user_id now (first + place) role op db in
        let (last, results) = apply_all first (suc place) ops db' in
        (last, result_of place op outcome ∷ results)

    abbrev pub max_ops : ℕ
    max_ops = 500

    -- The results and the `change_seq` of the answer.
    abbrev pub answered : Db S.Real × List PushResult → Db S.Real × Outcome (List PushResult × ℕ)
    answered (db, results) = (db, ok (results, db.seq))

    unfoldable pub push_batch :
        List (Fields (Json S)) → Db S.Real → Db S.Real × Outcome (List PushResult × ℕ)
    unfolding apply_all write_batch
    push_batch [] db = (db, ok ([], db.seq))
    push_batch (op ∷ ops) db =
        let (first, counted) = write_batch (suc (length ops)) db in
        answered (apply_all first 0 (op ∷ ops) counted)

    unfoldable pub push :
        List (Fields (Json S)) → Db S.Real → Db S.Real × Outcome (List PushResult × ℕ)
    unfolding push_batch
    push ops db = if ltb max_ops (length ops) then (db, err batch_too_large) else push_batch ops db
