-- ===== src/Api/Push/Stamps.antt =====
-- The sequence numbers that a push puts on the rows, which a pull goes by.
use aurum_presenter.Prelude.{
  ℕ, suc, ◌+◌, ◌≤◌, ◌≡◌, refl, ◌∙◌, inl, inr, Bool, true, false, Option, none, some, List, [], ◌∷◌,
  arith, ltb, if◌then◌else◌, Bool-cases, length, All, All-append,
}
use aurum_presenter.Prelude.Text.{Str, codes, str_eq}
use aurum_presenter.Prelude.Int.{pos, ◌≤ℤ◌}
use aurum_presenter.Sync.Json.{Fields}
use aurum_presenter.Sync.Merge.{Action, insert, update, remove, skip}
use aurum_presenter.Api.Store.{
  has_id, Serde, Json, Row, Db, Constraints, statement, with_table, change,
}
use aurum_presenter.Api.Request.{Role, Outcome, ok, err, Request, checked}
use aurum_presenter.Api.Push.{
  demote, act, act_after, written, plan_for, fields_of, has_applied, finish, apply_request,
  apply_checked, apply_one, apply_all, push_batch, push, recorded, demoted_row, inserted_row,
  updated_row, deleted_row,
}
use aurum_presenter.Api.Push.Once.{demote-Same, written-Same, push_lem, push_batch_nil}

abbrev Below : {Real : Type 0} → ℕ → Row Real → Type 0
Below n row = row.change_seq ≤ℤ pos n

-- No row has a number that the counter has not reached.
abbrev pub InSeq : {Real : Type 0} → Db Real → Type 0
InSeq db = (table : Str) → All (Below db.seq) (db.rows table)

change-All :
    {Real : Type 0} (n : ℕ) (p : Row Real → Bool) (f : Row Real → Row Real) (rows : List (Row Real))
    → ((row : Row Real) → Below n (f row))
    → All (Below n) rows
    → All (Below n) (change p f rows)
change-All n p f [] h a = tt
change-All n p f (row ∷ rows) h (b, a) = (either (p row), change-All n p f rows h a)
  where
    either : (t : Bool) → Below n (if t then f row else row)
    either true = h row
    either false = b

statement-InSeq :
    {Real : Type 0} (sqlite : Constraints Real) (table : Str) (rows : List (Row Real))
    (db : Db Real)
    → All (Below db.seq) rows
    → InSeq db
    → InSeq (statement sqlite table rows db).0
statement-InSeq sqlite table rows db a h = elim (Bool-cases (sqlite.admits table rows)) [
  | inl e ↦ rw e replaced
  | inr e ↦ rw e h
]
  where
    replaced : InSeq (with_table table rows db)
    replaced t = elim (Bool-cases (str_eq t table)) [ inl e ↦ rw e a | inr e ↦ rw e (h t) ]

module _ (S : Serde) (sqlite : Constraints S.Real) (user_id : Str) (role : Role) where
  demote-InSeq :
      (now : Str) (seq : ℕ) (r : Request S) (song : Option Str) (db : Db S.Real)
      → seq ≤ db.seq
      → InSeq db
      → InSeq (demote S sqlite user_id now seq r song db).0
  unfolding demote
  demote-InSeq now seq r none db l h = h
  demote-InSeq now seq r (some song_id) db l h =
      statement-InSeq sqlite _ _ db
        (change-All db.seq _ (demoted_row S now user_id seq) (db.rows (codes "arrangements"))
          (λ row. omega arith) (h (codes "arrangements")))
        h

  act-InSeq :
      (now : Str) (seq : ℕ) (r : Request S) (action : Action (Json S)) (db : Db S.Real)
      → seq ≤ db.seq
      → InSeq db
      → InSeq (act S sqlite user_id now seq r action db).0
  unfolding act inserted_row updated_row deleted_row
  act-InSeq now seq r (insert payload) db l h =
      statement-InSeq sqlite _ _ db
        (All-append (Below db.seq) (db.rows r.table) _ (h r.table) (omega arith, tt)) h
  act-InSeq now seq r (update payload) db l h =
      statement-InSeq sqlite _ _ db
        (change-All db.seq (has_id r.record_id) (updated_row S user_id now seq payload)
          (db.rows r.table) (λ row. omega arith) (h r.table))
        h
  act-InSeq now seq r remove db l h =
      statement-InSeq sqlite _ _ db
        (change-All db.seq (has_id r.record_id) (deleted_row S user_id now seq) (db.rows r.table)
          (λ row. omega arith) (h r.table))
        h
  act-InSeq now seq r (skip why) db l h = h

  act_after-InSeq :
      (now : Str) (seq : ℕ) (r : Request S) (action : Action (Json S)) (x : Db S.Real × Bool)
      → seq ≤ x.0.seq
      → InSeq x.0
      → InSeq (act_after S sqlite user_id now seq r action x).0
  act_after-InSeq now seq r action (db, true) l h = act-InSeq now seq r action db l h
  act_after-InSeq now seq r action (db, false) l h = h

  written-InSeq :
      (now : Str) (seq : ℕ) (r : Request S) (db : Db S.Real)
      → seq ≤ db.seq
      → InSeq db
      → InSeq (written S sqlite user_id now seq r db).0
  unfolding written
  written-InSeq now seq r db l h =
      let noted = recorded S sqlite user_id now seq r (plan_for S r db).conflicts db in
      let demotion = (plan_for S r db).demote_defaults_of in
      let (_, e) = demote-Same S sqlite user_id role now seq r demotion noted in
      act_after-InSeq now seq r (plan_for S r db).action
        (demote S sqlite user_id now seq r demotion noted) (rw e l)
        (demote-InSeq now seq r demotion noted l h)

  finish-InSeq :
      (now : Str) (seq : ℕ) (r : Request S) (fields : List Str) (x : Db S.Real × Bool) (n : ℕ)
      → InSeq x.0
      → x.0.seq ≡ n
      → InSeq (finish S sqlite user_id now seq r fields x).0
        × ((finish S sqlite user_id now seq r fields x).0.seq ≡ n)
  finish-InSeq now seq r fields (db, true) n h e = (h, e)
  finish-InSeq now seq r fields (db, false) n h e = (h, e)

  apply_one-InSeq :
      (now : Str) (seq : ℕ) (op : Fields (Json S)) (db : Db S.Real)
      → seq ≤ db.seq
      → InSeq db
      → InSeq (apply_one S sqlite user_id now seq role op db).0
        × ((apply_one S sqlite user_id now seq role op db).0.seq ≡ db.seq)
  unfolding apply_one apply_request
  apply_one-InSeq now seq op db l h = by_check (checked S role user_id op)
    where
      by_request :
          (r : Request S)
          → InSeq (apply_request S sqlite user_id now seq r db).0
            × ((apply_request S sqlite user_id now seq r db).0.seq ≡ db.seq)
      by_request r = elim (Bool-cases (has_applied r.op_id db)) [
        | inl e ↦ rw e (h, refl)
        | inr e ↦ rw e (
            finish-InSeq now seq r (fields_of S (plan_for S r db).conflicts)
              (written S sqlite user_id now seq r db) db.seq (written-InSeq now seq r db l h)
              (written-Same S sqlite user_id role now seq r db).1)
      ]

      by_check :
          (c : Outcome (Request S))
          → InSeq (apply_checked S sqlite user_id now seq c db).0
            × ((apply_checked S sqlite user_id now seq c db).0.seq ≡ db.seq)
      by_check (ok r) = by_request r
      by_check (err e) = (h, refl)

  apply_all-InSeq :
      (now : Str) (first place : ℕ) (ops : List (Fields (Json S))) (db : Db S.Real)
      → first + place + length ops ≤ db.seq + 1
      → InSeq db
      → InSeq (apply_all S sqlite user_id now role first place ops db).0
        × ((apply_all S sqlite user_id now role first place ops db).0.seq ≡ db.seq)
  unfolding apply_all
  apply_all-InSeq now first place [] db l h = (h, refl)
  apply_all-InSeq now first place (op ∷ ops) db l h =
      let (k, e) = apply_one-InSeq now (first + place) op db (omega arith) h in
      let (m, f) = apply_all-InSeq now first (suc place) ops _ (omega arith) k in (m, f ∙ e)

  raised : (n : ℕ) (db : Db S.Real) → db.seq ≤ n → InSeq db → InSeq (record db { seq = n })
  raised n db l h table = each (db.rows table) (h table)
    where
      each : (rows : List (Row S.Real)) → All (Below db.seq) rows → All (Below n) rows
      each [] a = tt
      each (row ∷ rows) (b, a) = (omega arith, each rows a)

  push_batch-InSeq :
      (now : Str) (ops : List (Fields (Json S))) (db : Db S.Real)
      → InSeq db
      → InSeq (push_batch S sqlite user_id now role ops db).0
        × ((push_batch S sqlite user_id now role ops db).0.seq ≡ db.seq + length ops)
  push_batch-InSeq now [] db h = rw (push_batch_nil S sqlite user_id role now db) (h, omega arith)
  push_batch-InSeq now (op ∷ ops) db h = rw (push_lem S sqlite user_id role now op ops db) (
      apply_all-InSeq now (db.seq + 1) 0 (op ∷ ops) (record db { seq = db.seq + suc (length ops) })
        (omega arith) (raised (db.seq + suc (length ops)) db (omega arith) h))

  -- Where no row has a number that the counter has not reached, none has after a push either, and the
  -- counter moves by one for each operation of a batch that is not refused as a whole.
  pub push-InSeq :
      (now : Str) (ops : List (Fields (Json S))) (db : Db S.Real)
      → InSeq db
      → InSeq (push S sqlite user_id now role ops db).0
        × ((push S sqlite user_id now role ops db).0.seq
            ≡ (if ltb 500 (length ops) then db.seq else db.seq + length ops))
  unfolding push
  push-InSeq now ops db h = elim (Bool-cases (ltb 500 (length ops))) [
    | inl many ↦ rw many (h, refl)
    | inr few ↦ rw few (push_batch-InSeq now ops db h)
  ]
