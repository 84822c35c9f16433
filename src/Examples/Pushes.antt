-- ===== src/Examples/Pushes.antt =====
-- The operations that a client pushes, and the files that are kept, at concrete inputs:
-- crates/core/src/sync and crates/core/src/storage.
use aurum_presenter.Prelude.{
  ℕ, ◌+◌, ◌≡◌, refl, ◌↔◌, ◌⊎◌, inr, true, false, none, some, List, [], ◌∷◌, map,
}
use aurum_presenter.Prelude.Text.{Str, codes, str_eq, ascii_lower}
use aurum_presenter.Prelude.Int.{pos}
use mathlib.Core.List.{Memᴰ}
use aurum_presenter.Sync.Json.{Value, bool, string, Fields, get}
use aurum_presenter.Sync.Schema.{contains, sync_columns}
use aurum_presenter.Sync.Schema.Allowed.{file_columns}
use aurum_presenter.Sync.Merge.{
  Op, upsert, Existing, Conflict, update, as_text, song_id_of, demoted_song, song_of, writable,
  plan,
}
use aurum_presenter.Sync.Merge.Conflicts.{Displaces, moved_on, plan_conflicts}
use aurum_presenter.Sync.Merge.Payload.{plan_owned}
use aurum_presenter.Storage.Keys.{
  StoredObject, is_valid_sha256, sheet_key, hash_of, orphans, after_last, before_last,
}
use aurum_presenter.Storage.Keys.Paths.{LowerAscii}
use aurum_presenter.Storage.Keys.Orphans.{orphans_referenced}

-- Numbers are below ten, and a structured value is its text.
abbrev digits : ℕ → Str
digits n = (48 + n) ∷ []

abbrev itself : Str → Str
itself text = text

abbrev payload : Fields (Value ℕ Str)
payload =
    (codes "song_id", string (codes "song-1"))
    ∷ (codes "is_default", bool true)
    ∷ (codes "name", string (codes "Acoustic"))
    ∷ (codes "updated_by", string (codes "mallory"))
    ∷ []

abbrev op : Op (Value ℕ Str)
op = record {
  table = codes "arrangements";
  kind = upsert;
  payload = payload;
  base_updated_at = some (codes "2026-09-05T10:00:00.000Z");
}

abbrev row : Existing (Value ℕ Str)
row = record {
  updated_at = codes "2026-09-06T10:00:00.000Z";
  deleted_at = none;
  updated_by = some (codes "alice");
  fields =
      (codes "name", string (codes "Default")) ∷ (codes "song_id", string (codes "song-1")) ∷ [];
}

plan_conflicts_example :
    ((plan digits itself op (some row)).action ≡ update (writable digits itself op))
    × (((moved_on op.base_updated_at row.updated_at ≡ false)
          × ((plan digits itself op (some row)).conflicts ≡ []))
        ⊎ ((moved_on op.base_updated_at row.updated_at ≡ true)
            × ((c : Conflict (Value ℕ Str))
                → (Memᴰ c (plan digits itself op (some row)).conflicts
                    ↔ Displaces digits itself row (writable digits itself op) c))))
plan_conflicts_example = plan_conflicts digits itself op row refl refl

owned : contains sync_columns (codes "updated_by") ≡ true
unfolding contains str_eq
owned = refl

updates : (plan digits itself op (some row)).action ≡ update (writable digits itself op)
unfolding plan
updates = refl

plan_owned_example : get (codes "updated_by") (writable digits itself op) ≡ none
plan_owned_example =
    plan_owned digits itself op (some row) (writable digits itself op) (codes "updated_by") owned
      (inr updates)

demotes :
    demoted_song digits itself (codes "arrangements") payload (some row) ≡ some (codes "song-1")
unfolding demoted_song song_of song_id_of as_text get str_eq
demotes = refl

abbrev sheet_payload : Fields (Value ℕ Str)
sheet_payload =
    (codes "sha256", string (codes "00")) ∷ (codes "name", string (codes "Lead sheet")) ∷ []

sheet_file : contains file_columns (codes "sha256") ≡ true
unfolding contains str_eq
sheet_file = refl

abbrev hash : Str
hash = codes "E3B0C44298FC1C149AFBF4C8996FB92427AE41E4649B934CA495991B7852B855"

hash_valid : is_valid_sha256 hash ≡ true
unfolding is_valid_sha256
hash_valid = refl

lower_ascii : LowerAscii (map ascii_lower)
lower_ascii s h = refl

abbrev stored : List StoredObject
stored =
    (record { key = sheet_key (map ascii_lower) (codes "ws-1") hash; modified_ms = pos 5 })
    ∷ (record { key = codes "sheets/ws-1/00.pdf"; modified_ms = pos 5 })
    ∷ []

orphans_referenced_example : ¬ (
    Memᴰ
      (sheet_key (map ascii_lower) (codes "ws-1") hash)
      (orphans (map ascii_lower) stored (hash ∷ []) (pos 10)))
orphans_referenced_example =
    orphans_referenced (map ascii_lower) stored (hash ∷ []) (pos 10) (codes "ws-1") hash lower_ascii
      hash_valid (Memᴰ.head refl)

-- The sheet that no row names is swept.
orphans_run :
    orphans (map ascii_lower) stored (hash ∷ []) (pos 10) ≡ codes "sheets/ws-1/00.pdf" ∷ []
unfolding orphans sheet_key hash_of after_last before_last ascii_lower str_eq
orphans_run = refl
