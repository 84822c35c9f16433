-- ===== src/Api/Pull/Pages.antt =====
-- Which rows a pull brings, and which it never brings.
use aurum_presenter.Prelude.{
  ℕ, zero, suc, ◌+◌, ◌≤◌, ◌≡◌, refl, ap, inl, inr, Bool, true, false, ◌&&◌, List, [], ◌∷◌, arith,
  ltb, Bool-cases, length, take, keep, All,
}
use aurum_presenter.Prelude.Text.{Str}
use aurum_presenter.Prelude.Int.{ℤ, pos, ◌≤ℤ◌}
use mathlib.Core.List.{Memᴰ}
use aurum_presenter.Prelude.Members.{sort, mem_sort, mem_keep}
use aurum_presenter.Api.Store.{Row, Db}
use aurum_presenter.Api.Pull.{
  by_seq, is_newer, is_visible, selected, page, pages, pull, Option, requested, limit_of,
}
use aurum_presenter.Api.Push.Stamps.{InSeq}

module _ {Real : Type 0} where
  take_all : (n : ℕ) (xs : List (Row Real)) → length (take (suc n) xs) ≤ n → take (suc n) xs ≡ xs
  take_all n [] h = refl
  take_all zero (x ∷ xs) h = absurd (omega arith)
  take_all (suc n) (x ∷ xs) h = ap (λ r. x ∷ r) (take_all n xs (omega arith))

  -- A page that is not capped has every row.
  page_whole :
      (limit : ℕ) (rows : List (Row Real))
      → (page limit rows).1 ≡ false
      → (page limit rows).0 ≡ rows
  unfolding page
  page_whole limit rows h = elim (Bool-cases (ltb limit (length (take (limit + 1) rows)))) [
    | inl over ↦ (let capped : true ≡ false = rw over at h in cc)
    | inr fits ↦ rw fits (
        let e : limit + 1 ≡ suc limit = omega arith in
        rw e (take_all limit rows (rw (← e) (ground arith))))
  ]

  page_nil : (limit : ℕ) → page {Real = Real} limit [] ≡ ([], false)
  unfolding page
  page_nil limit = let e : limit + 1 ≡ suc limit = omega arith in rw e (ground arith)

  none_newer :
      (n : ℕ) (p : Row Real → Bool) (rows : List (Row Real))
      → All (λ (row : Row Real). row.change_seq ≤ℤ pos n) rows
      → keep (λ row. is_newer (pos n) row && p row) rows ≡ []
  none_newer n p [] a = refl
  none_newer n p (row ∷ rows) (b, a) =
      let old : is_newer (pos n) row ≡ false = ground arith in rw (old, none_newer n p rows a)

  selected_nil :
      (db : Db Real) (user_id table : Str) → InSeq db → selected db user_id (pos db.seq) table ≡ []
  unfolding selected sort
  selected_nil db user_id table h =
      rw (none_newer db.seq (is_visible table user_id) (db.rows table) (h table))

  mem_selected :
      (db : Db Real) (user_id table : Str) (since : ℤ) (row : Row Real)
      → Memᴰ row (db.rows table)
      → is_newer since row ≡ true
      → is_visible table user_id row ≡ true
      → Memᴰ row (selected db user_id since table)
  unfolding selected
  mem_selected db user_id table since row m newer visible = mem_sort by_seq row _ (
      mem_keep (λ r. is_newer since r && is_visible table user_id r) (db.rows table) row m
        (rw (newer, visible)))

  -- What an answer holds of a table that was asked for.
  abbrev pub Holds : List (Str × List (Row Real)) → Str → Row Real → Type 0
  Holds found table row = (rows : List (Row Real)) × Memᴰ (table, rows) found × Memᴰ row rows

  pages_complete :
      (db : Db Real) (user_id : Str) (since : ℤ) (limit : ℕ) (asked : List Str) (table : Str)
      (row : Row Real)
      → (pages db user_id since limit asked).1 ≡ false
      → Memᴰ table asked
      → Memᴰ row (selected db user_id since table)
      → Holds (pages db user_id since limit asked).0 table row
  unfolding pages
  pages_complete db user_id since limit [] table row h m r = elim m [ ]
  pages_complete db user_id since limit (t ∷ asked) table row h (Memᴰ.head e) r =
      let whole = page_whole limit (selected db user_id since t) (ground arith) in
      (
        (page limit (selected db user_id since t)).0,
        Memᴰ.head (ap (λ n. (n, (page limit (selected db user_id since t)).0)) e),
        rw whole (rw e at r),
      )
  pages_complete db user_id since limit (t ∷ asked) table row h (Memᴰ.tail m) r =
      let (rows, k, n) = pages_complete db user_id since limit asked table row (ground arith) m r in
      (rows, Memᴰ.tail k, n)

  -- An answer that says that there is no more holds every row that is newer than asked and that the
  -- user may see, of every table that was asked for.
  pub pull_complete :
      (db : Db Real) (user_id : Str) (since : ℤ) (list : Option Str) (limit : Option ℤ)
      (table : Str) (row : Row Real)
      → (pull list limit since user_id db).has_more ≡ false
      → Memᴰ table (requested list)
      → Memᴰ row (db.rows table)
      → is_newer since row ≡ true
      → is_visible table user_id row ≡ true
      → Holds (pull list limit since user_id db).tables table row
  unfolding pull
  pull_complete db user_id since list limit table row h m r newer visible =
      pages_complete db user_id since (limit_of limit) (requested list) table row h m
        (mem_selected db user_id table since row r newer visible)

  pages_nil :
      (db : Db Real) (user_id : Str) (limit : ℕ) (asked : List Str)
      → InSeq db
      → All (λ (x : Str × List (Row Real)). x.1 ≡ []) (pages db user_id (pos db.seq) limit asked).0
        × ((pages db user_id (pos db.seq) limit asked).1 ≡ false)
  unfolding pages
  pages_nil db user_id limit [] h = (tt, refl)
  pages_nil db user_id limit (t ∷ asked) h =
      let (a, e) = pages_nil db user_id limit asked h in
      let nothing = selected_nil db user_id t h in rw (nothing, page_nil limit, e) ((refl, a), refl)

  -- Whatever was asked for first, and whether or not there was more, a pull from the number that the
  -- answer gives brings no row at all: a row that a full page left out is not brought by the next one.
  pub pull-pull :
      (db : Db Real) (user_id : Str) (since : ℤ) (list : Option Str) (limit : Option ℤ)
      → InSeq db
      → let next = pull list limit (pos (pull list limit since user_id db).change_seq) user_id db in
        All (λ (x : Str × List (Row Real)). x.1 ≡ []) next.tables × (next.has_more ≡ false)
  unfolding pull
  pull-pull db user_id since list limit h = pages_nil db user_id (limit_of limit) (requested list) h
