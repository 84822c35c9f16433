-- ===== src/Web/Engine.antt =====
-- crates/web/src/sync/engine.rs: the changes that a device records, and the pull. The clock, fresh ids
-- and the answers of the server are arguments, and a response names its tables in their order.
pub mod Columns
pub mod Records
pub mod Pulls
use aurum_presenter.Prelude.{
  ℕ, zero, suc, ◌+◌, ◌-◌, ◌*◌, ◌/◌, ◌%◌, ◌≤◌, ◌<◌, min, max, ◌≡◌, refl, sym, ap, ◌∙◌, subst, ◌≢◌,
  ◌↔◌, ◌⊎◌, inl, inr, Bool, true, false, ◌&&◌, ◌||◌, not, Option, none, some, List, [], ◌∷◌, ◌++◌,
  map, arith, ltb, leb, ◌==◌, if◌then◌else◌, ltb→lt, lt→ltb, ==_iff, Bool-cases, Option-cases,
  unwrap_or, all_below, all_below_sound, length, get_elem?, get_or, take, drop, get_last?, keep,
  find, any, all, position, All, length-append, take-append-drop, length-take, length-drop,
  All-append, All-map,
}
use aurum_presenter.Prelude.Text.{
  Str, codes, str_eq, str_ltb, is_empty, str_eq-true, str_eq_refl, str_eq_iff, str_ltb_irrefl,
  str_ltb_trans, str_ltb_total, is_whitespace, trim_start, trim_end, trim, ascii_upper, ascii_lower,
  lowercase, strip_prefix, repeat,
}
use aurum_presenter.Prelude.Int.{
  ℤ, pos, negsuc, pos_part, neg_part, sub_ℕ, ◌+ℤ◌, ◌-ℤ◌, ◌≤ℤ◌, ltb_ℤ, leb_ℤ, eqb_ℤ, rem12,
  div_euclid, rem_euclid, +ℤ_parts, -ℤ_parts, eq_of_parts, int_laws, rem12-lt, rem12-add, +ℤ_assoc,
}
use aurum_presenter.Prelude.Dict.{lookup, insert}
use aurum_presenter.Sync.Json.{Value, Fields, get}
use aurum_presenter.Api.Store.{Serde, Json, assign, assign_all, as_str, get_str}
use aurum_presenter.Web.Outbox.{OutboxOp, pending, Device}

module _ (S : Serde) where
  -- Server-owned columns, which a row that is made on a device has as null from the start.
  unfoldable pub blank_columns : Str → Fields (Json S)
  unfolding str_eq
  blank_columns table =
      (codes "change_seq", Value.number (S.of_i64 (pos 0)))
      ∷ (codes "updated_by", Value.null)
      ∷ (if str_eq table (codes "sheets")
          then (codes "sha256", Value.null)
            ∷ (codes "size", Value.null)
            ∷ (codes "uploaded_at", Value.null)
            ∷ (codes "page_count", Value.null)
            ∷ (codes "pages_changed_at", Value.null)
            ∷ []
          else [])

  abbrev pub is_delete : Str → Bool
  is_delete op = str_eq op (codes "delete")

  -- The row that `record` writes over an earlier one, or over a blank one.
  unfoldable pub changed_row : Str → Str → Str → Fields (Json S) → Fields (Json S) → Fields (Json S)
  unfolding assign assign_all str_eq
  changed_row now record_id op payload row =
      if is_delete op
      then assign (codes "updated_at") (Value.string now) (
          assign (codes "deleted_at") (Value.string now)
            (assign (codes "id") (Value.string record_id) row))
      else assign (codes "deleted_at") Value.null (
          assign (codes "updated_at") (Value.string now)
            (assign (codes "id") (Value.string record_id) (assign_all payload row)))

  abbrev pub base_of : Option (Fields (Json S)) → Option Str
  base_of none = none
  base_of (some row) = get_str S (codes "updated_at") row

  abbrev pub put_row : Str → Str → Fields (Json S) → Device (Json S) → Device (Json S)
  put_row table id row device = record device {
    rows = λ t. if str_eq t table then insert id row (device.rows t) else device.rows t;
  }

  -- A local change: the row and its entry in the outbox, together.
  unfoldable pub record_change :
      Str → Str → Str → Str → Str → Fields (Json S) → Device (Json S) → Device (Json S)
  unfolding changed_row blank_columns
  record_change now op_id table record_id op payload device =
      let existing = lookup record_id (device.rows table) in
      let put =
        put_row table record_id
          (changed_row now record_id op payload (unwrap_or existing (blank_columns table)))
          device in
      record put {
        outbox =
            device.outbox
            ++ (record {
              seq = device.next_seq;
              op_id = op_id;
              table = table;
              record_id = record_id;
              op = op;
              payload = payload;
              base_updated_at = base_of existing;
              attempts = 0;
              last_error = none;
              status = pending;
              created_at = now;
            })
              ∷ [];
        next_seq = device.next_seq + 1;
      }

  -- `put_all(table, rows)`: each row by its `id`.
  unfoldable pub put_all : Str → List (Fields (Json S)) → Device (Json S) → Device (Json S)
  unfolding insert get
  put_all table [] device = device
  put_all table (row ∷ rows) device =
      put_all table rows (put_row table (unwrap_or (get_str S (codes "id") row) []) row device)

  -- The tables of an answer, and how many rows there were.
  unfoldable pub put_tables :
      List (Str × List (Fields (Json S))) → Device (Json S) → Device (Json S) × ℕ
  unfolding put_all
  put_tables [] device = (device, 0)
  put_tables ((table, rows) ∷ more) device =
      let (after, count) = put_tables more (put_all table rows device) in
      (after, length rows + count)

  -- An answer of the server to a pull.
  pub record PullResponse : Type 0 where
    pub change_seq : ℕ
    pub tables : List (Str × List (Fields (Json S)))
    pub has_more : Bool

  abbrev watermarked : Str → PullResponse → Device (Json S) → Device (Json S)
  watermarked now response device = record device {
    sync_state = record {
      change_seq = response.change_seq;
      last_pull_at = some now;
      last_push_at = device.sync_state.last_push_at;
    };
  }

  -- The loop of `pull`, against a server that answers a number; `none` where the fuel has run out.
  unfoldable pub pull_loop :
      Str → (ℕ → PullResponse) → ℕ → Device (Json S) × ℕ → Option (Device (Json S) × ℕ)
  unfolding put_tables
  pull_loop now answer zero state = none
  pull_loop now answer (suc fuel) (device, applied) =
      let response = answer device.sync_state.change_seq in
      let (after, count) = put_tables response.tables device in
      let next : Device (Json S) × ℕ = (watermarked now response after, applied + count) in
      let again = pull_loop now answer fuel next in if response.has_more then again else some next
