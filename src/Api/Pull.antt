-- ===== src/Api/Pull.antt =====
-- crates/api/src/handlers/sync.rs, `pull`: what has changed since a sequence number, a page of each
-- table.
pub mod Pages
use aurum_presenter.Prelude.{
  ℕ, ◌+◌, min, max, Bool, true, false, ◌&&◌, ◌||◌, Option, none, some, List, [], ◌∷◌, map, ltb,
  if◌then◌else◌, length, take, keep,
}
use aurum_presenter.Prelude.Text.{Str, codes, str_eq, is_empty, trim}
use aurum_presenter.Prelude.Int.{ℤ, pos_part, ltb_ℤ, leb_ℤ}
use aurum_presenter.Prelude.Members.{sort}
use aurum_presenter.Sync.Json.{get}
use aurum_presenter.Sync.Schema.{tables, is_synced_table}
use aurum_presenter.Ids.{split_from}
use aurum_presenter.Api.Store.{Sql, Row, Db}

-- The tables of the answer with their rows, and whether a table had more.
pub record PullAnswer (Real : Type 0) : Type 0 where
  pub change_seq : ℕ
  pub tables : List (Str × List (Row Real))
  pub has_more : Bool

-- `query.limit.unwrap_or(1000).clamp(1, 5000)`
unfoldable pub limit_of : Option ℤ → ℕ
limit_of none = 1_000
limit_of (some limit) = min (max (pos_part limit) 1) 5_000

-- `query.tables`, of which only the synced ones are read.
unfoldable pub requested : Option Str → List Str
unfolding tables is_synced_table split_from trim
requested none = tables
requested (some list) =
    if is_empty list then tables else keep is_synced_table (map trim (split_from b',' [] list))

abbrev pub by_seq : {Real : Type 0} → Row Real → Row Real → Bool
by_seq a b = leb_ℤ a.change_seq b.change_seq

module _ {Real : Type 0} where
  -- `AND user_id = ?3`
  abbrev pub is_text : Str → Option (Sql Real) → Bool
  is_text s (some (Sql.text t)) = str_eq t s
  is_text s _ = false

  unfoldable pub is_visible : Str → Str → Row Real → Bool
  unfolding get
  is_visible table user_id row =
      if str_eq table (codes "preferences")
      then is_text user_id (get (codes "user_id") row.cells)
      else true

  abbrev pub is_newer : ℤ → Row Real → Bool
  is_newer since row = ltb_ℤ since row.change_seq

  -- `SELECT * … WHERE change_seq > ?1 … ORDER BY change_seq`
  unfoldable pub selected : Db Real → Str → ℤ → Str → List (Row Real)
  unfolding sort is_visible
  selected db user_id since table =
      sort by_seq (keep (λ row. is_newer since row && is_visible table user_id row) (db.rows table))

  -- The page of a table: `LIMIT limit + 1`, and the last of them dropped where it is one too many.
  unfoldable pub page : ℕ → List (Row Real) → List (Row Real) × Bool
  page limit rows =
      let read = take (limit + 1) rows in
      if ltb limit (length read) then (take limit read, true) else (read, false)

  unfoldable pub pages : Db Real → Str → ℤ → ℕ → List Str → List (Str × List (Row Real)) × Bool
  unfolding selected page
  pages db user_id since limit [] = ([], false)
  pages db user_id since limit (table ∷ more) =
      let (rows, capped) = page limit (selected db user_id since table) in
      let (later, has_more) = pages db user_id since limit more in
      ((table, rows) ∷ later, capped || has_more)

  unfoldable pub pull : Option Str → Option ℤ → ℤ → Str → Db Real → PullAnswer Real
  unfolding pages requested limit_of
  pull list limit since user_id db =
      let (found, has_more) = pages db user_id since (limit_of limit) (requested list) in
      record { change_seq = db.seq; tables = found; has_more = has_more }
