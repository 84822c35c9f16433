-- ===== src/Sync/Merge.antt =====
-- crates/core/src/sync/merge.rs: what one operation of a client's outbox does to one row. Times are
-- compared as texts. What serde_json writes for a number and for a structured value are parameters.
pub mod Conflicts
pub mod Payload
use aurum_presenter.Prelude.{
  ℕ, zero, suc, ◌+◌, ◌-◌, ◌*◌, ◌/◌, ◌%◌, ◌≤◌, ◌<◌, min, max, ◌≡◌, refl, sym, ap, ◌∙◌, subst, ◌≢◌,
  ◌↔◌, ◌⊎◌, inl, inr, Bool, true, false, ◌&&◌, ◌||◌, not, Option, none, some, List, [], ◌∷◌, ◌++◌,
  map, arith, ltb, leb, ◌==◌, if◌then◌else◌, ltb→lt, lt→ltb, ==_iff, Bool-cases, Option-cases,
  unwrap_or, all_below, all_below_sound, length, get_elem?, get_or, take, drop, get_last?, keep,
  find, any, all, position, All, length-append, take-append-drop, length-take, length-drop,
  All-append, All-map,
}
use aurum_presenter.Prelude.Text.{
  Str, codes, str_eq, str_ltb, is_empty, str_eq-true, str_eq_refl, str_eq_iff, str_ltb_irrefl,
  str_ltb_trans, str_ltb_total, is_whitespace, trim_start, trim_end, trim, ascii_upper, ascii_lower,
  lowercase, strip_prefix, repeat,
}
use aurum_presenter.Prelude.Int.{
  ℤ, pos, negsuc, pos_part, neg_part, sub_ℕ, ◌+ℤ◌, ◌-ℤ◌, ◌≤ℤ◌, ltb_ℤ, leb_ℤ, eqb_ℤ, rem12,
  div_euclid, rem_euclid, +ℤ_parts, -ℤ_parts, eq_of_parts, int_laws, rem12-lt, rem12-add, +ℤ_assoc,
}
use aurum_presenter.Sync.Json.{
  Value, null, bool, number, string, structured, Fields, get, map_fields,
}
use aurum_presenter.Sync.Schema.{filter}

pub data OpKind : Type 0 where
  upsert delete : OpKind

pub data Skipped : Type 0 where
  tombstoned already_gone : Skipped

pub record Op (V : Type 0) : Type 0 where
  pub table : Str
  pub kind : OpKind
  pub payload : Fields V
  pub base_updated_at : Option Str

pub record Existing (V : Type 0) : Type 0 where
  pub updated_at : Str
  pub deleted_at : Option Str
  pub updated_by : Option Str
  pub fields : Fields V

pub record Conflict (V : Type 0) : Type 0 where
  pub field : Str
  pub losing_value : V
  pub losing_user : Option Str

pub data Action (V : Type 0) : Type 0 where
  insert update : Fields V → Action V
  remove : Action V
  skip : Skipped → Action V

pub record Plan (V : Type 0) : Type 0 where
  pub action : Action V
  pub conflicts : List (Conflict V)
  pub demote_defaults_of : Option Str

infixl 5 ◌>>=◌
abbrev pub ◌>>=◌ {ℓ κ} : {A : Type ℓ} {B : Type κ} → Option A → (A → Option B) → Option B
none >>= f = none
some x >>= f = f x

abbrev pub or_else {ℓ} : {A : Type ℓ} → Option A → Option A → Option A
or_else none b = b
or_else (some a) b = some a

-- `nothing`, and a plan that loses no value and demotes nothing.
abbrev pub quietly : {V : Type 0} → Action V → Plan V
quietly action = record { action = action; conflicts = []; demote_defaults_of = none }

module _ {Number Structured : Type 0} (number_text : Number → Str)
    (json_text : Structured → Str) where
  unfoldable pub encode_value : Value Number Structured → Value Number Structured
  encode_value (structured value) = string (json_text value)
  encode_value (null) = null
  encode_value (bool b) = bool b
  encode_value (number n) = number n
  encode_value (string s) = string s

  unfoldable pub encode : Fields (Value Number Structured) → Fields (Value Number Structured)
  unfolding encode_value map_fields
  encode payload = map_fields encode_value payload

  -- How a value compares once it is in a TEXT column.
  unfoldable pub as_text : Value Number Structured → Str
  as_text null = []
  as_text (bool true) = codes "1"
  as_text (bool false) = []
  as_text (string text) = text
  as_text (number n) = number_text n
  as_text (structured value) = json_text value

  -- The row has not moved since the client read it, or the client claims no base.
  unfoldable pub not_moved : Option Str → Existing (Value Number Structured) → Bool
  unfolding str_ltb
  not_moved none existing = true
  not_moved (some base) existing = not (str_ltb base existing.updated_at)

  unfoldable pub current_of : Existing (Value Number Structured) → Str → Value Number Structured
  unfolding get
  current_of existing field = unwrap_or (get field existing.fields) null

  -- The closure of `conflicts`, over the fields of the payload.
  unfoldable pub displaced :
      Existing (Value Number Structured)
      → Fields (Value Number Structured)
      → List (Conflict (Value Number Structured))
  unfolding as_text current_of str_eq
  displaced existing [] = []
  displaced existing ((field, incoming) ∷ payload) =
      let current = current_of existing field in
      let rest = displaced existing payload in
      if str_eq (as_text current) (as_text incoming)
      then rest
      else (record { field = field; losing_value = current; losing_user = existing.updated_by })
        ∷ rest

  unfoldable pub conflicts :
      Fields (Value Number Structured)
      → Option Str
      → Existing (Value Number Structured)
      → List (Conflict (Value Number Structured))
  unfolding not_moved displaced
  conflicts payload base existing =
      if not_moved base existing then [] else displaced existing payload

  -- `match song { Value::String(id) if !id.is_empty() => Some(id), _ => None }`
  unfoldable pub song_id_of : Value Number Structured → Option Str
  song_id_of (string id) = if is_empty id then none else some id
  song_id_of _ = none

  -- `payload.get("song_id").or_else(|| existing?.fields.get("song_id"))?`
  unfoldable pub song_of :
      Fields (Value Number Structured) → Option (Existing (Value Number Structured)) → Option Str
  song_of payload existing =
      or_else (get (codes "song_id") payload) (existing >>= λ row. get (codes "song_id") row.fields)
      >>= song_id_of

  unfoldable pub demoted_song :
      Str
      → Fields (Value Number Structured)
      → Option (Existing (Value Number Structured))
      → Option Str
  demoted_song table payload existing =
      if not (str_eq table (codes "arrangements"))
      then none
      else (get (codes "is_default") payload >>= λ flag.
          if not (str_eq (as_text flag) (codes "1")) then none else song_of payload existing)

  -- The payload that `plan` writes.
  unfoldable pub writable : Op (Value Number Structured) → Fields (Value Number Structured)
  unfolding encode filter
  writable op = encode (filter op.table op.payload)

  unfoldable pub plan_upsert :
      Op (Value Number Structured)
      → Option (Existing (Value Number Structured))
      → Plan (Value Number Structured)
  plan_upsert op none = record {
    action = insert (writable op);
    conflicts = [];
    demote_defaults_of = demoted_song op.table (writable op) none;
  }
  plan_upsert op (some existing) = elim existing.deleted_at [
    | some at ↦ quietly (skip tombstoned)
    | none ↦ record {
      action = update (writable op);
      conflicts = conflicts (writable op) op.base_updated_at existing;
      demote_defaults_of = demoted_song op.table (writable op) (some existing);
    }
  ]

  unfoldable pub plan :
      Op (Value Number Structured)
      → Option (Existing (Value Number Structured))
      → Plan (Value Number Structured)
  unfolding plan_upsert
  plan op existing = elim op.kind [
    | delete ↦ elim existing [ none ↦ quietly (skip already_gone) | some row ↦ quietly remove ]
    | upsert ↦ plan_upsert op existing
  ]
