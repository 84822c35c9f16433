-- ===== src/Web/Engine/Records.antt =====
-- What `record` of crates/web/src/sync/engine.rs leaves on the device: the row and the entry of the outbox.
use aurum_presenter.Prelude.{
  ◌∙◌, Option, ℕ, ◌+◌, ◌<◌, ◌≡◌, refl, ◌≢◌, ◌⊎◌, inl, inr, true, false, ◌&&◌, none, some, List, [],
  ◌∷◌, ◌++◌, arith, ◌==◌, if◌then◌else◌, Bool-cases, unwrap_or, All, All-append,
}
use aurum_presenter.Prelude.Text.{Str, codes, str_eq}
use aurum_presenter.Prelude.Dict.{lookup, insert, lookup-insert}
use aurum_presenter.Sync.Json.{Value, Fields, get}
use aurum_presenter.Api.Store.{Serde, Json, as_str}
use aurum_presenter.Web.Outbox.{OutboxOp, pending, Device, entry}
use aurum_presenter.Web.Outbox.Entries.{Distinct}
use aurum_presenter.Web.Engine.Columns.{column, column_after, get-changed_row}
use aurum_presenter.Web.Engine.{blank_columns, changed_row, base_of, record_change}

module _ {V : Type 0} where
  -- The keys of the outbox are different, and the next one is larger than each of them.
  abbrev pub Keyed : ℕ → List (OutboxOp V) → Type 0
  Keyed next ops = Distinct ops × All (λ (o : OutboxOp V). o.seq < next) ops

  entry-append :
      (n : ℕ) (op : OutboxOp V) (ops : List (OutboxOp V))
      → All (λ (o : OutboxOp V). o.seq < op.seq) ops
      → entry n (ops ++ op ∷ []) ≡ (if op.seq == n then some op else entry n ops)
  unfolding entry
  entry-append n op [] a = refl
  entry-append n op (o ∷ ops) (h, a) = ground (arith, entry-append n op ops a)

  fresh :
      (n : ℕ) (ops : List (OutboxOp V))
      → All (λ (o : OutboxOp V). o.seq < n) ops
      → All (λ (o : OutboxOp V). n ≢ o.seq) ops
  fresh n [] a = tt
  fresh n (o ∷ ops) (h, a) = (omega arith, fresh n ops a)

  later :
      (n : ℕ) (ops : List (OutboxOp V))
      → All (λ (o : OutboxOp V). o.seq < n) ops
      → All (λ (o : OutboxOp V). o.seq < n + 1) ops
  later n [] a = tt
  later n (o ∷ ops) (h, a) = (omega arith, later n ops a)

  append-Distinct :
      (op : OutboxOp V) (ops : List (OutboxOp V))
      → All (λ (o : OutboxOp V). op.seq ≢ o.seq) ops
      → Distinct ops
      → Distinct (ops ++ op ∷ [])
  append-Distinct op [] a d = (tt, tt)
  append-Distinct op (o ∷ ops) (n, a) (b, d) = (
    All-append (λ (q : OutboxOp V). q.seq ≢ o.seq) ops (op ∷ []) b (n, tt),
    append-Distinct op ops a d,
  )

  append-Keyed :
      (op : OutboxOp V) (ops : List (OutboxOp V))
      → Keyed op.seq ops
      → Keyed (op.seq + 1) (ops ++ op ∷ [])
  append-Keyed op ops (d, a) = (
    append-Distinct op ops (fresh op.seq ops a) d,
    All-append (λ (q : OutboxOp V). q.seq < op.seq + 1) ops (op ∷ []) (later op.seq ops a)
        (omega arith, tt),
  )

module _ (S : Serde) where
  -- The operation that a change leaves in the outbox.
  abbrev pub recorded_op :
      Str → Str → Str → Str → Str → Fields (Json S) → Device (Json S) → OutboxOp (Json S)
  recorded_op now op_id table record_id op payload device = record {
    seq = device.next_seq;
    op_id = op_id;
    table = table;
    record_id = record_id;
    op = op;
    payload = payload;
    base_updated_at = base_of S (lookup record_id (device.rows table));
    attempts = 0;
    last_error = none;
    status = pending;
    created_at = now;
  }

  -- The text of a value that is a text.
  abbrev pub text_in : Option (Json S) → Option Str
  text_in (some (Value.string text)) = some text
  text_in _ = none

  base_lem :
      (existing : Option (Fields (Json S)))
      → base_of S existing ≡ text_in (column (codes "updated_at") existing)
  base_lem none = refl
  base_lem (some row) = by_value (get (codes "updated_at") row)
    where
      by_value : (value : Option (Json S)) → as_str S value ≡ text_in value
      by_value none = refl
      by_value (some Value.null) = refl
      by_value (some (Value.bool flag)) = refl
      by_value (some (Value.number n)) = refl
      by_value (some (Value.string text)) = refl
      by_value (some (Value.structured value)) = refl

  -- A local change adds one operation to the outbox under a new key, larger than every other: it waits,
  -- carries the payload and, where the record was there, the time in its column updated_at. Every other
  -- operation is as it was. The record has a row, whose columns are given: its id, now as updated_at,
  -- deleted_at as now for a deletion and as null otherwise, and in every other column what the payload
  -- says, except in a deletion, or what it had, which for a new record is the blank columns of its
  -- table. Every other record of every table has the row it had.
  pub record_change_lem :
      (now op_id table record_id op : Str) (payload : Fields (Json S)) (device : Device (Json S))
      → Keyed device.next_seq device.outbox
      → let next = record_change S now op_id table record_id op payload device in
        let existing = lookup record_id (device.rows table) in
        Keyed next.next_seq next.outbox
        × ((n : ℕ)
            → entry n next.outbox ≡ (
                if device.next_seq == n
                then some (record {
                  seq = n;
                  op_id = op_id;
                  table = table;
                  record_id = record_id;
                  op = op;
                  payload = payload;
                  base_updated_at = text_in (column (codes "updated_at") existing);
                  attempts = 0;
                  last_error = none;
                  status = pending;
                  created_at = now;
                })
                else entry n device.outbox))
        × ((row : Fields (Json S)) × ((k : Str)
              → get k row ≡ column_after S now table record_id op payload existing k)
            × ((t id : Str)
                → lookup id (next.rows t) ≡ (
                    if str_eq t table && str_eq record_id id
                    then some row
                    else lookup id (device.rows t))))
  unfolding record_change
  record_change_lem now op_id table record_id op payload device (d, a) = (
    append-Keyed (recorded_op now op_id table record_id op payload device) device.outbox (d, a),
    λ n.
        entry-append n (recorded_op now op_id table record_id op payload device) device.outbox a
        ∙ at_key n (Bool-cases (device.next_seq == n)),
    (
      row,
      get-changed_row S now table record_id op payload (lookup record_id (device.rows table)),
      λ t id. at_row t id (Bool-cases (str_eq t table)),
    ),
  )
    where
      row : Fields (Json S)
      row =
          changed_row S now record_id op payload
            (unwrap_or (lookup record_id (device.rows table)) (blank_columns S table))

      at_key :
          (n : ℕ)
          → ((device.next_seq == n) ≡ true) ⊎ ((device.next_seq == n) ≡ false)
          → (if device.next_seq == n
              then some (recorded_op now op_id table record_id op payload device)
              else entry n device.outbox)
            ≡ (if device.next_seq == n
                then some (record {
                  seq = n;
                  op_id = op_id;
                  table = table;
                  record_id = record_id;
                  op = op;
                  payload = payload;
                  base_updated_at =
                      text_in (column (codes "updated_at") (lookup record_id (device.rows table)));
                  attempts = 0;
                  last_error = none;
                  status = pending;
                  created_at = now;
                })
                else entry n device.outbox)
      at_key n (inl e) =
          (let same : device.next_seq ≡ n = ground arith in
            rw (e, same, base_lem (lookup record_id (device.rows table))) refl)
      at_key n (inr e) = rw e refl

      at_row :
          (t id : Str)
          → (str_eq t table ≡ true) ⊎ (str_eq t table ≡ false)
          → lookup id
              (if str_eq t table then insert record_id row (device.rows t) else device.rows t)
            ≡ (if str_eq t table && str_eq record_id id
                then some row
                else lookup id (device.rows t))
      at_row t id (inl e) = rw e (lookup-insert id record_id row (device.rows t))
      at_row t id (inr e) = rw e refl
