-- ===== src/Examples/Syncing.antt =====
-- A device and the server at concrete inputs: crates/api/src/handlers/sync.rs and
-- crates/web/src/sync/engine.rs.
use aurum_presenter.Prelude.{
  ℕ, ◌+◌, ◌≡◌, refl, true, ◌&&◌, Option, none, some, List, [], ◌∷◌, ltb, ◌==◌, if◌then◌else◌,
  length,
}
use aurum_presenter.Prelude.Text.{Str, codes, str_eq}
use aurum_presenter.Prelude.Int.{ℤ, pos}
use aurum_presenter.Sync.Json.{Value, Fields, get}
use aurum_presenter.Api.Store.{Serde, Row, Db, Constraints}
use mathlib.Core.List.{Memᴰ}
use aurum_presenter.Ids.{is_uuid}
use aurum_presenter.Sync.Merge.{demoted_song, writable}
use aurum_presenter.Api.Store.{Sql, json_to_sql}
use aurum_presenter.Api.Pull.{pull, is_visible}
use aurum_presenter.Api.Pull.Pages.{Holds, pull_complete}
use aurum_presenter.Web.Outbox.{
  OutboxOp, pending, parked, Device, SyncState, replied, failed, server, malformed, drain,
  is_retryable, entry, batch_of, result_for, parked_op, message_of,
}
use mathlib.Core.Option
use aurum_presenter.Web.Outbox.Drain.{drain_replied, answered_by}
use aurum_presenter.Web.Outbox.Batch.{before, if_next, entry-batch_of}
use aurum_presenter.Web.Outbox.Failed.{left_of, drain-failed}
use aurum_presenter.Web.Engine.Columns.{column_after}
use aurum_presenter.Web.Engine.{record_change, pull_loop, put_tables}
use aurum_presenter.Web.Engine.Pulls.{pull_loop_lem, answer}
use aurum_presenter.Web.Engine.Records.{Keyed, recorded_op, record_change_lem}
use aurum_presenter.Prelude.Dict.{lookup}
use aurum_presenter.Web.Outbox
use aurum_presenter.Api.Request.{editor, ok}
use aurum_presenter.Api.Push.{accepted, applied, push}
use aurum_presenter.Api.Push.Once.{push-push}
use aurum_presenter.Api.Push.Stamps.{InSeq, push-InSeq}

-- Numbers are integers, and a structured value is an object that has a title and nothing else.
abbrev json : Serde
json = record {
  Number = ℤ;
  Structured = Str;
  Real = ℤ;
  number_text = λ n. [];
  json_text = λ s. s;
  as_i64 = λ n. some n;
  as_f64 = λ n. n;
  of_i64 = λ n. n;
  of_f64 = λ n. n;
  as_object = λ s. some ((codes "title", Value.string s) ∷ []);
}

abbrev sqlite : Constraints ℤ
sqlite = record { admits = λ table rows. true; defaults = λ table. [] }

abbrev empty : Db ℤ
empty = record { rows = λ table. []; seq = 7; applied_ops = []; sync_conflicts = [] }

abbrev op_id : Str
op_id = codes "0192f0c1-2a3b-7c4d-8e5f-0123456789ab"

abbrev song_id : Str
song_id = codes "0192f0c1-0000-7000-8000-00000000cafe"

abbrev ops : List (Fields (Value ℤ Str))
ops =
    ((codes "op_id", Value.string op_id)
      ∷ (codes "record_id", Value.string song_id)
      ∷ (codes "table", Value.string (codes "songs"))
      ∷ (codes "op", Value.string (codes "upsert"))
      ∷ (codes "payload", Value.structured (codes "Amazing Grace"))
      ∷ [])
    ∷ []

abbrev now : Str
now = codes "2026-09-08T14:30:00.000Z"

abbrev later : Str
later = codes "2026-09-08T14:31:00.000Z"

abbrev saved : Db ℤ
saved = (push json sqlite (codes "alice") now editor ops empty).0

abbrev song : Row ℤ
song = record {
  id = song_id;
  updated_at = now;
  change_seq = pos 8;
  updated_by = some (codes "alice");
  deleted_at = none;
  cells = (codes "title", Sql.text (codes "Amazing Grace")) ∷ [];
}

pushed :
    push json sqlite (codes "alice") now editor ops empty
    ≡ (saved, ok (accepted (applied op_id 8 []) ∷ [], 8))
unfolding push is_uuid demoted_song
pushed = refl

rows_pushed : saved.rows (codes "songs") ≡ song ∷ []
unfolding push str_eq is_uuid demoted_song writable json_to_sql
rows_pushed = refl

push-push_example :
    (push json sqlite (codes "alice") later editor ops saved).0
    ≡ record saved { seq = saved.seq + length ops }
push-push_example =
    push-push json sqlite (codes "alice") editor now later ops empty saved
      (accepted (applied op_id 8 []) ∷ []) 8 pushed (tt, tt)

push-InSeq_example : InSeq saved × (saved.seq ≡ (if ltb 500 1 then 7 else 7 + 1))
push-InSeq_example = push-InSeq json sqlite (codes "alice") editor now ops empty (λ table. tt)

numbered : InSeq saved
numbered = (push-InSeq json sqlite (codes "alice") editor now ops empty (λ table. tt)).0

abbrev songs : Option Str
songs = some (codes "songs")

abbrev pulled : List (Str × List (Row ℤ))
pulled = (pull songs none (pos 7) (codes "bob") saved).tables

pull_complete_example : Holds pulled (codes "songs") song
unfolding push pull is_uuid demoted_song is_visible writable json_to_sql
pull_complete_example =
    pull_complete saved (codes "bob") (pos 7) songs none (codes "songs") song refl (Memᴰ.head refl)
      (Memᴰ.head refl) refl refl

abbrev device : Device (Value ℤ Str)
device = record {
  rows = λ table. [];
  outbox = [];
  next_seq = 1;
  conflicts = [];
  sync_state = record { change_seq = 0; last_pull_at = none; last_push_at = none };
}

pull_loop_lem_example :
    (x : Device (Value ℤ Str) × ℕ) × (pull_loop json now
        (answer json saved (codes "bob") none none now)
        2
        (device, 0)
      ≡ some x)
    × (x.0.rows
        ≡ (put_tables json (answer json saved (codes "bob") none none now 0).tables device).0.rows)
    × (x.0.sync_state.change_seq ≡ saved.seq)
pull_loop_lem_example = pull_loop_lem json saved (codes "bob") none none now 0 device 0 numbered

abbrev title : Fields (Value ℤ Str)
title = (codes "title", Value.string (codes "Amazing Grace")) ∷ []

abbrev changed : Device (Value ℤ Str)
changed = record_change json now op_id (codes "songs") song_id (codes "upsert") title device

-- The song is new, so its columns are the blank ones, the title and what the device writes.
record_change_lem_example :
    Keyed changed.next_seq changed.outbox
    × ((n : ℕ)
        → entry n changed.outbox ≡ (
            if 1 == n
            then some (record {
              seq = n;
              op_id = op_id;
              table = codes "songs";
              record_id = song_id;
              op = codes "upsert";
              payload = title;
              base_updated_at = none;
              attempts = 0;
              last_error = none;
              status = pending;
              created_at = now;
            })
            else entry n []))
    × ((row : Fields (Value ℤ Str)) × ((k : Str)
          → get k row ≡ column_after json now (codes "songs") song_id (codes "upsert") title none k)
        × ((t id : Str)
            → lookup id (changed.rows t)
              ≡ (if str_eq t (codes "songs") && str_eq song_id id then some row else lookup id [])))
unfolding lookup
record_change_lem_example =
    record_change_lem json now op_id (codes "songs") song_id (codes "upsert") title device (tt, tt)

-- One operation waits.
abbrev waiting : OutboxOp (Value ℤ Str)
waiting = recorded_op json now op_id (codes "songs") song_id (codes "upsert") title device

abbrev busy : Device (Value ℤ Str)
busy = record device { outbox = waiting ∷ []; next_seq = 2 }

abbrev refused : List Outbox.PushResult
refused =
    (record {
      op_id = op_id;
      status = codes "rejected";
      conflicts = [];
      code = some (codes "insufficient_role");
      error = none;
    })
    ∷ []

drain_replied_example :
    entry 1 (drain now (replied refused) busy).0.outbox
    ≡ answered_by refused (entry 1 (batch_of busy)) (entry 1 busy.outbox)
drain_replied_example = drain_replied now 1 refused busy (tt, tt)

entry-batch_of_example : entry 1 (batch_of busy) ≡ if_next 1 busy.outbox (entry 1 busy.outbox)
entry-batch_of_example = entry-batch_of 1 busy (tt, tt)

-- The server refuses for good, so that the operation is parked.
drain-failed_example :
    ((drain now (failed (server 422 (codes "No."))) busy).0
      ≡ record busy { outbox = (drain now (failed (server 422 (codes "No."))) busy).0.outbox })
    × (entry 1 (drain now (failed (server 422 (codes "No."))) busy).0.outbox
        ≡ Option.map
            (left_of (server 422 (codes "No.")) (before 1 busy.outbox))
            (entry 1 busy.outbox))
drain-failed_example = drain-failed now 1 (server 422 (codes "No.")) busy (tt, tt)

parked_run :
    Option.map (left_of (server 422 (codes "No.")) (before 1 busy.outbox)) (entry 1 busy.outbox)
    ≡ some (record waiting { status = parked; last_error = some (codes "No."); attempts = 1 })
unfolding entry
parked_run = refl
