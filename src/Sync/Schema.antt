-- ===== src/Sync/Schema.antt =====
-- crates/core/src/sync/schema.rs: the allowlist of synced tables and of their client-writable
-- columns.
pub mod Allowed
use aurum_presenter.Prelude.{
  ℕ, zero, suc, ◌+◌, ◌-◌, ◌*◌, ◌/◌, ◌%◌, ◌≤◌, ◌<◌, min, max, ◌≡◌, refl, sym, ap, ◌∙◌, subst, ◌≢◌,
  ◌↔◌, ◌⊎◌, inl, inr, Bool, true, false, ◌&&◌, ◌||◌, not, Option, none, some, List, [], ◌∷◌, ◌++◌,
  map, arith, ltb, leb, ◌==◌, if◌then◌else◌, ltb→lt, lt→ltb, ==_iff, Bool-cases, Option-cases,
  unwrap_or, all_below, all_below_sound, length, get_elem?, get_or, take, drop, get_last?, keep,
  find, any, all, position, All, length-append, take-append-drop, length-take, length-drop,
  All-append, All-map,
}
use aurum_presenter.Prelude.Text.{
  Str, codes, str_eq, str_ltb, is_empty, str_eq-true, str_eq_refl, str_eq_iff, str_ltb_irrefl,
  str_ltb_trans, str_ltb_total, is_whitespace, trim_start, trim_end, trim, ascii_upper, ascii_lower,
  lowercase, strip_prefix, repeat,
}
use aurum_presenter.Prelude.Int.{
  ℤ, pos, negsuc, pos_part, neg_part, sub_ℕ, ◌+ℤ◌, ◌-ℤ◌, ◌≤ℤ◌, ltb_ℤ, leb_ℤ, eqb_ℤ, rem12,
  div_euclid, rem_euclid, +ℤ_parts, -ℤ_parts, eq_of_parts, int_laws, rem12-lt, rem12-add, +ℤ_assoc,
}
use aurum_presenter.Sync.Json.{Fields, keep_fields}

abbrev pub sync_columns : List Str
sync_columns =
    codes "updated_at" ∷ codes "change_seq" ∷ codes "deleted_at" ∷ codes "updated_by" ∷ []

abbrev folders_columns : List Str
folders_columns = codes "parent_id" ∷ codes "name" ∷ codes "position" ∷ []

abbrev songs_columns : List Str
songs_columns =
    codes "folder_id"
    ∷ codes "title"
    ∷ codes "subtitle"
    ∷ codes "authors"
    ∷ codes "ccli_number"
    ∷ codes "copyright"
    ∷ codes "notes"
    ∷ codes "original_key"
    ∷ codes "tempo"
    ∷ codes "time_signature"
    ∷ codes "tags"
    ∷ codes "artist"
    ∷ codes "alt_titles"
    ∷ codes "duration_sec"
    ∷ codes "archived"
    ∷ []

abbrev arrangements_columns : List Str
arrangements_columns =
    codes "song_id"
    ∷ codes "name"
    ∷ codes "body"
    ∷ codes "default_key"
    ∷ codes "is_default"
    ∷ codes "position"
    ∷ codes "source_notation"
    ∷ codes "source_text"
    ∷ codes "capo_hint"
    ∷ []

abbrev song_placements_columns : List Str
song_placements_columns = codes "song_id" ∷ codes "folder_id" ∷ []

abbrev sheets_columns : List Str
sheets_columns =
    codes "song_id"
    ∷ codes "sheet_key"
    ∷ codes "part"
    ∷ codes "position"
    ∷ codes "page_count"
    ∷ codes "mime_type"
    ∷ codes "arrangement_id"
    ∷ codes "label"
    ∷ codes "filename"
    ∷ codes "pages_changed_at"
    ∷ []

abbrev annotations_columns : List Str
annotations_columns =
    codes "sheet_id" ∷ codes "page" ∷ codes "strokes" ∷ codes "scope" ∷ codes "author_id" ∷ []

abbrev sets_columns : List Str
sets_columns =
    codes "name"
    ∷ codes "scheduled_for"
    ∷ codes "notes"
    ∷ codes "venue"
    ∷ codes "assigned_members"
    ∷ codes "pinned"
    ∷ []

abbrev set_items_columns : List Str
set_items_columns =
    codes "set_id"
    ∷ codes "rank"
    ∷ codes "song_id"
    ∷ codes "item_type"
    ∷ codes "content"
    ∷ codes "title_snapshot"
    ∷ codes "key_override"
    ∷ codes "capo_override"
    ∷ codes "arrangement_id"
    ∷ codes "sheet_part_override"
    ∷ codes "sections"
    ∷ codes "note"
    ∷ []

abbrev preferences_columns : List Str
preferences_columns =
    codes "user_id" ∷ codes "scope_type" ∷ codes "scope_id" ∷ codes "name" ∷ codes "value" ∷ []

abbrev presenter_themes_columns : List Str
presenter_themes_columns =
    codes "name"
    ∷ codes "is_default"
    ∷ codes "font_family"
    ∷ codes "font_size_vh"
    ∷ codes "text_color"
    ∷ codes "background_kind"
    ∷ codes "background_value"
    ∷ codes "align"
    ∷ codes "safe_area_pct"
    ∷ codes "show_section_labels"
    ∷ []

abbrev pub schema : List (Str × List Str)
schema =
    (codes "folders", folders_columns)
    ∷ (codes "songs", songs_columns)
    ∷ (codes "arrangements", arrangements_columns)
    ∷ (codes "song_placements", song_placements_columns)
    ∷ (codes "sheets", sheets_columns)
    ∷ (codes "annotations", annotations_columns)
    ∷ (codes "sets", sets_columns)
    ∷ (codes "set_items", set_items_columns)
    ∷ (codes "preferences", preferences_columns)
    ∷ (codes "presenter_themes", presenter_themes_columns)
    ∷ []

abbrev viewer_writable : List Str
viewer_writable = codes "preferences" ∷ codes "annotations" ∷ []

-- `contains(&name)`
unfoldable pub contains : List Str → Str → Bool
unfolding str_eq
contains names name = any (λ n. str_eq n name) names

-- `iter().find(|(name, _)| *name == table).map(|(_, columns)| *columns)`
unfoldable pub columns_in : List (Str × List Str) → Str → Option (List Str)
unfolding str_eq
columns_in [] table = none
columns_in ((name, columns) ∷ rest) table =
    if str_eq name table then some columns else columns_in rest table

unfoldable pub columns : Str → Option (List Str)
unfolding columns_in
columns table = columns_in schema table

unfoldable pub tables : List Str
tables = map (λ row. row.0) schema

unfoldable pub is_synced_table : Str → Bool
unfolding str_eq
is_synced_table table = any (λ (row : Str × List Str). str_eq row.0 table) schema

unfoldable pub is_viewer_writable : Str → Bool
unfolding contains
is_viewer_writable table = contains viewer_writable table

-- `allowed.contains(field)`, where a table that is not synced allows nothing.
unfoldable pub allowed_by : Option (List Str) → Str → Bool
unfolding contains
allowed_by none field = false
allowed_by (some names) field = contains names field

unfoldable pub filter_by : {V : Type 0} → Option (List Str) → Fields V → Fields V
unfolding contains keep_fields
filter_by none payload = []
filter_by (some names) payload = keep_fields (contains names) payload

unfoldable pub allowed : Str → Str → Bool
unfolding columns allowed_by
allowed table field = allowed_by (columns table) field

unfoldable pub filter : {V : Type 0} → Str → Fields V → Fields V
unfolding columns filter_by
filter table payload = filter_by (columns table) payload
