-- ===== src/Api/Request.antt =====
-- crates/api/src/handlers/sync.rs: what an operation of a push asks for, and who may ask for it. These
-- checks read no row.
use aurum_presenter.Prelude.{
  Bool, true, false, ◌&&◌, not, Option, none, some, [], if◌then◌else◌, unwrap_or,
}
use aurum_presenter.Prelude.Text.{Str, codes, str_eq}
use aurum_presenter.Ids.{is_uuid}
use aurum_presenter.Sync.Json.{Value, Fields, get}
use aurum_presenter.Sync.Schema.{is_synced_table, is_viewer_writable}
use aurum_presenter.Sync.Merge.{OpKind, upsert, delete}
use aurum_presenter.Api.Store.{Serde, Json, get_str}

pub data Role : Type 0 where
  owner editor viewer : Role

pub data ApiError : Type 0 where
  validation : Str → ApiError
  unknown_table not_your_row insufficient_role database batch_too_large : ApiError

pub data Outcome (A : Type 0) : Type 0 where
  ok : A → Outcome A
  err : ApiError → Outcome A

infixl 5 ◌>>=◌ ◌>>◌
abbrev pub ◌>>=◌ : {A B : Type 0} → Outcome A → (A → Outcome B) → Outcome B
ok a >>= f = f a
err e >>= f = err e

abbrev pub ◌>>◌ : {B : Type 0} → Outcome (Unit {0}) → Outcome B → Outcome B
m >> k = m >>= λ _. k

abbrev pub guard : Bool → ApiError → Outcome (Unit {0})
guard true e = ok tt
guard false e = err e

abbrev pub is_viewer : Role → Bool
is_viewer viewer = true
is_viewer _ = false

module _ (S : Serde) where
  -- What an operation asks for, once it has been read.
  pub record Request : Type 0 where
    pub op_id : Str
    pub record_id : Str
    pub table : Str
    pub kind : OpKind
    pub payload : Fields (Json S)
    pub base_updated_at : Option Str

  abbrev uuid_or_error : Str → Option Str → Outcome Str
  uuid_or_error key none = err (validation key)
  uuid_or_error key (some value) = if is_uuid value then ok value else err (validation key)

  unfoldable pub require_uuid : Fields (Json S) → Str → Outcome Str
  require_uuid op key = uuid_or_error key (get_str S key op)

  abbrev fields_or_none : Option (Fields (Json S)) → Fields (Json S)
  fields_or_none none = []
  fields_or_none (some fields) = fields

  -- `op.get("payload").and_then(Value::as_object).cloned().unwrap_or_default()`
  abbrev object_or_none : Option (Json S) → Fields (Json S)
  object_or_none (some (Value.structured v)) = fields_or_none (S.as_object v)
  object_or_none _ = []

  -- `payload.get(field).and_then(Value::as_str).is_none_or(|value| value == user_id)`
  abbrev is_none_or_user : Str → Option Str → Bool
  is_none_or_user user_id none = true
  is_none_or_user user_id (some value) = str_eq value user_id

  unfoldable pub owns : Fields (Json S) → Str → Str → Bool
  owns payload user_id field = is_none_or_user user_id (get_str S field payload)

  unfoldable pub annotation_check : Fields (Json S) → Str → Outcome (Unit {0})
  unfolding owns
  annotation_check payload user_id = do
    guard
        (str_eq (unwrap_or (get_str S (codes "scope") payload) (codes "personal"))
          (codes "personal"))
        insufficient_role
    guard (owns payload user_id (codes "author_id")) not_your_row

  unfoldable pub viewer_check : Str → Fields (Json S) → Str → Outcome (Unit {0})
  unfolding annotation_check is_viewer_writable
  viewer_check table payload user_id =
      guard (is_viewer_writable table) insufficient_role
      >> (if str_eq table (codes "annotations") then annotation_check payload user_id else ok tt)

  unfoldable pub assert_may_write : Str → Role → Fields (Json S) → Str → Outcome (Unit {0})
  unfolding viewer_check
  assert_may_write table role payload user_id =
      guard
        (not (str_eq table (codes "preferences") && not (owns payload user_id (codes "user_id"))))
        not_your_row
      >> (if is_viewer role then viewer_check table payload user_id else ok tt)

  abbrev kind_of : Option Str → OpKind
  kind_of none = upsert
  kind_of (some text) = if str_eq text (codes "delete") then delete else upsert

  -- The checks of `apply_one` that come before it reads the database.
  unfoldable pub checked : Role → Str → Fields (Json S) → Outcome Request
  unfolding require_uuid assert_may_write is_synced_table
  checked role user_id op = do
    op_id ← require_uuid op (codes "op_id")
    record_id ← require_uuid op (codes "record_id")
    let table = unwrap_or (get_str S (codes "table") op) []
    let payload = object_or_none (get (codes "payload") op)
    guard (is_synced_table table) unknown_table
    assert_may_write table role payload user_id
    ok (record {
      op_id = op_id;
      record_id = record_id;
      table = table;
      kind = kind_of (get_str S (codes "op") op);
      payload = payload;
      base_updated_at = get_str S (codes "base_updated_at") op;
    })
