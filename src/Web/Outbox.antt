-- ===== src/Web/Outbox.antt =====
-- crates/web/src/sync/engine.rs, over the records of crates/web/src/db/records.rs and the failures of
-- crates/web/src/api/client.rs: the outbox of a device and its drain. A store of IndexedDB is a map by
-- its key, and its writes do not fail here. The clock and the answers of the server are arguments.
pub mod Entries
pub mod Batch
pub mod Drain
pub mod Failed
use aurum_presenter.Prelude.{
  ℕ, zero, suc, ◌+◌, ◌-◌, ◌*◌, ◌/◌, ◌%◌, ◌≤◌, ◌<◌, min, max, ◌≡◌, refl, sym, ap, ◌∙◌, subst, ◌≢◌,
  ◌↔◌, ◌⊎◌, inl, inr, Bool, true, false, ◌&&◌, ◌||◌, not, Option, none, some, List, [], ◌∷◌, ◌++◌,
  map, arith, ltb, leb, ◌==◌, if◌then◌else◌, ltb→lt, lt→ltb, ==_iff, Bool-cases, Option-cases,
  unwrap_or, all_below, all_below_sound, length, get_elem?, get_or, take, drop, get_last?, keep,
  find, any, all, position, All, length-append, take-append-drop, length-take, length-drop,
  All-append, All-map,
}
use aurum_presenter.Prelude.Text.{
  Str, codes, str_eq, str_ltb, is_empty, str_eq-true, str_eq_refl, str_eq_iff, str_ltb_irrefl,
  str_ltb_trans, str_ltb_total, is_whitespace, trim_start, trim_end, trim, ascii_upper, ascii_lower,
  lowercase, strip_prefix, repeat,
}
use aurum_presenter.Prelude.Int.{
  ℤ, pos, negsuc, pos_part, neg_part, sub_ℕ, ◌+ℤ◌, ◌-ℤ◌, ◌≤ℤ◌, ltb_ℤ, leb_ℤ, eqb_ℤ, rem12,
  div_euclid, rem_euclid, +ℤ_parts, -ℤ_parts, eq_of_parts, int_laws, rem12-lt, rem12-add, +ℤ_assoc,
}
use aurum_presenter.Prelude.Members.{sort}
use aurum_presenter.Sync.Json.{Fields}

pub data OpState : Type 0 where
  pending parked : OpState

pub record OutboxOp (V : Type 0) : Type 0 where
  pub seq : ℕ
  pub op_id : Str
  pub table : Str
  pub record_id : Str
  pub op : Str
  pub payload : Fields V
  pub base_updated_at : Option Str
  pub attempts : ℕ
  pub last_error : Option Str
  pub status : OpState
  pub created_at : Str

pub record ConflictRecord : Type 0 where
  pub table : Str
  pub record_id : Str
  pub field : Str
  pub at_time : Str

pub record SyncState : Type 0 where
  pub change_seq : ℕ
  pub last_pull_at : Option Str
  pub last_push_at : Option Str

-- The stores of a device, and the key that the outbox gives next.
pub record Device (V : Type 0) : Type 0 where
  pub rows : Str → List (Str × Fields V)
  pub outbox : List (OutboxOp V)
  pub next_seq : ℕ
  pub conflicts : List ConflictRecord
  pub sync_state : SyncState

-- What the server said of one operation.
pub record PushResult : Type 0 where
  pub op_id : Str
  pub status : Str
  pub conflicts : List Str
  pub code : Option Str
  pub error : Option Str

pub data Failure : Type 0 where
  server : ℕ → Str → Failure
  offline : Failure
  malformed : Str → Failure

pub data Reply : Type 0 where
  replied : List PushResult → Reply
  failed : Failure → Reply

-- `ApiError::is_retryable`
unfoldable pub is_retryable : Failure → Bool
is_retryable (server status message) = leb 500 status || (status == 429)
is_retryable offline = true
is_retryable (malformed why) = false

-- `ApiError::status`, 0 where the server gave none.
abbrev pub status_of : Failure → ℕ
status_of (server status message) = status
status_of _ = 0

abbrev pub message_of : Failure → Str
message_of (server status message) = message
message_of offline = codes "the network is unreachable"
message_of (malformed why) = codes "the server sent something this client could not read: " ++ why

abbrev pub batch_size : ℕ
batch_size = 200

-- `result.error.as_deref().or(result.code.as_deref()).unwrap_or("rejected")`
abbrev pub reason_of : PushResult → Str
reason_of result = elim result.error [
  | some error ↦ error
  | none ↦ unwrap_or result.code (codes "rejected")
]

abbrev pub is_rejected : PushResult → Bool
is_rejected result = str_eq result.status (codes "rejected")

module _ {V : Type 0} where
  abbrev pub is_pending : OutboxOp V → Bool
  is_pending op = elim op.status [ pending ↦ true | parked ↦ false ]

  abbrev pub in_order : OutboxOp V → OutboxOp V → Bool
  in_order a b = leb a.seq b.seq

  -- `outbox("pending")`
  unfoldable pub pending_ops : Device V → List (OutboxOp V)
  unfolding sort
  pending_ops device = sort in_order (keep is_pending device.outbox)

  -- `outbox("parked")`
  unfoldable pub parked_ops : Device V → List (OutboxOp V)
  unfolding sort
  parked_ops device = sort in_order (keep (λ op. not (is_pending op)) device.outbox)

  -- `put("outbox", op)` of an operation that is there, by its key.
  unfoldable pub put_op : OutboxOp V → List (OutboxOp V) → List (OutboxOp V)
  put_op op [] = op ∷ []
  put_op op (other ∷ ops) =
      let rest = put_op op ops in if other.seq == op.seq then op ∷ ops else other ∷ rest

  unfoldable pub drop_op : ℕ → List (OutboxOp V) → List (OutboxOp V)
  drop_op seq [] = []
  drop_op seq (op ∷ ops) = let rest = drop_op seq ops in if op.seq == seq then rest else op ∷ rest

  unfoldable pub entry : ℕ → List (OutboxOp V) → Option (OutboxOp V)
  entry seq [] = none
  entry seq (op ∷ ops) = let rest = entry seq ops in if op.seq == seq then some op else rest

  unfoldable pub discard : ℕ → Device V → Device V
  unfolding drop_op
  discard seq device = record device { outbox = drop_op seq device.outbox }

  abbrev pub parked_op : Str → OutboxOp V → OutboxOp V
  parked_op error op = record op {
    status = parked;
    last_error = some error;
    attempts = op.attempts + 1;
  }

  unfoldable pub park : Str → OutboxOp V → Device V → Device V
  unfolding put_op
  park error op device = record device { outbox = put_op (parked_op error op) device.outbox }

  abbrev retried : Option (OutboxOp V) → Device V → Device V
  retried none device = device
  retried (some op) device = record device {
    outbox = put_op (record op { status = pending; last_error = none }) device.outbox;
  }

  unfoldable pub retry : ℕ → Device V → Device V
  unfolding entry put_op
  retry seq device = retried (entry seq device.outbox) device

  abbrev conflict_records : Str → OutboxOp V → List Str → List ConflictRecord
  conflict_records now op [] = []
  conflict_records now op (field ∷ fields) =
      (record { table = op.table; record_id = op.record_id; field = field; at_time = now })
      ∷ conflict_records now op fields

  abbrev pub result_for : OutboxOp V → List PushResult → Option PushResult
  result_for op results = find (λ (r : PushResult). str_eq r.op_id op.op_id) results

  -- One round of the loop over the batch, with how many have been applied.
  abbrev pub settle : Str → OutboxOp V → Option PushResult → Device V × ℕ → Device V × ℕ
  settle now op none (device, applied) = (device, applied)
  settle now op (some result) (device, applied) =
      if is_rejected result then (park (reason_of result) op device, applied) else (
        discard op.seq (record device {
          conflicts = device.conflicts ++ conflict_records now op result.conflicts;
        }),
        applied + 1,
      )

  unfoldable pub settle_all :
      Str → List (OutboxOp V) → List PushResult → Device V × ℕ → Device V × ℕ
  unfolding discard park
  settle_all now [] results state = state
  settle_all now (op ∷ batch) results state =
      settle_all now batch results (settle now op (result_for op results) state)

  unfoldable pub park_all : Str → List (OutboxOp V) → Device V → Device V
  unfolding park
  park_all error [] device = device
  park_all error (op ∷ batch) device = park_all error batch (park error op device)

  abbrev pub pushed : Str → Device V × ℕ → Device V × ℕ
  pushed now (device, applied) = (
    if ltb 0 applied
        then record device { sync_state = record device.sync_state { last_push_at = some now } }
        else device,
    applied,
  )

  abbrev pub batch_of : Device V → List (OutboxOp V)
  batch_of device = take batch_size (pending_ops device)

  -- The answer of the server, and what is left of the device; with the number of operations applied,
  -- or the failure that is handed on.
  abbrev pub drain_reply : Str → List (OutboxOp V) → Reply → Device V → Device V × (ℕ ⊎ Failure)
  drain_reply now batch (replied results) device =
      let (after, applied) = pushed now (settle_all now batch results (device, 0)) in
      (after, inl applied)
  drain_reply now batch (failed why) device = (
    if not (is_retryable why) && not (status_of why == 401)
        then park_all (message_of why) batch device
        else device,
    inr why,
  )

  abbrev pub drain_pending : Str → Reply → Device V → List (OutboxOp V) → Device V × (ℕ ⊎ Failure)
  drain_pending now reply device [] = (device, inl 0)
  drain_pending now reply device (op ∷ ops) = drain_reply now (batch_of device) reply device

  unfoldable pub drain : Str → Reply → Device V → Device V × (ℕ ⊎ Failure)
  drain now reply device = drain_pending now reply device (pending_ops device)
