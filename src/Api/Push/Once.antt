-- ===== src/Api/Push/Once.antt =====
-- A push that is sent again, because its answer was lost, changes nothing.
use aurum_presenter.Prelude.{
  ℕ, suc, ◌+◌, max, ◌≡◌, refl, sym, ap, ◌∙◌, subst, inl, inr, Bool, true, false, Option, none, some,
  List, [], ◌∷◌, arith, ltb, Bool-cases, length, All,
}
use aurum_presenter.Prelude.Text.{Str, str_eq_refl}
use aurum_presenter.Sync.Merge.{Action, insert, update, remove, skip}
use aurum_presenter.Api.Store.{write_batch, Serde, Json, Row, Db, Constraints, statement}
use aurum_presenter.Api.Request.{batch_too_large, Role, Request}
use aurum_presenter.Api.Push.{
  demote, act, act_after, written, plan_for, recorded, Fields, has_applied, apply_request,
  apply_one, apply_all, PushResult, checked, finish, fields_of, Outcome, ◌∷◌, accepted, result_of,
  ok, apply_checked, suc, rejected, err, duplicate, push, write_batch, length, ltb, push_batch,
  answered,
}

-- What statements on rows leave alone: the operations that are remembered, and the counter.
abbrev pub Same : {Real : Type 0} → Db Real → Db Real → Type 0
Same db db' = (db'.applied_ops ≡ db.applied_ops) × (db'.seq ≡ db.seq)

statement-Same :
    {Real : Type 0} (sqlite : Constraints Real) (table : Str) (rows : List (Row Real))
    (db : Db Real)
    → Same db (statement sqlite table rows db).0
statement-Same sqlite table rows db = elim (Bool-cases (sqlite.admits table rows)) [
  | inl e ↦ rw e (refl, refl)
  | inr e ↦ rw e (refl, refl)
]

module _ (S : Serde) (sqlite : Constraints S.Real) (user_id : Str) (role : Role) where
  pub demote-Same :
      (now : Str) (seq : ℕ) (r : Request S) (song : Option Str) (db : Db S.Real)
      → Same db (demote S sqlite user_id now seq r song db).0
  unfolding demote
  demote-Same now seq r none db = (refl, refl)
  demote-Same now seq r (some song_id) db = statement-Same sqlite _ _ db

  act-Same :
      (now : Str) (seq : ℕ) (r : Request S) (action : Action (Json S)) (db : Db S.Real)
      → Same db (act S sqlite user_id now seq r action db).0
  unfolding act
  act-Same now seq r (insert payload) db = statement-Same sqlite _ _ db
  act-Same now seq r (update payload) db = statement-Same sqlite _ _ db
  act-Same now seq r remove db = statement-Same sqlite _ _ db
  act-Same now seq r (skip why) db = (refl, refl)

  act_after-Same :
      (now : Str) (seq : ℕ) (r : Request S) (action : Action (Json S)) (x : Db S.Real × Bool)
      (db : Db S.Real)
      → Same db x.0
      → Same db (act_after S sqlite user_id now seq r action x).0
  act_after-Same now seq r action (db', true) db (e, f) =
      let (g, h) = act-Same now seq r action db' in (g ∙ e, h ∙ f)
  act_after-Same now seq r action (db', false) db s = s

  pub written-Same :
      (now : Str) (seq : ℕ) (r : Request S) (db : Db S.Real)
      → Same db (written S sqlite user_id now seq r db).0
  unfolding written
  written-Same now seq r db = act_after-Same now seq r (plan_for S r db).action _ db (
      demote-Same now seq r (plan_for S r db).demote_defaults_of
        (recorded S sqlite user_id now seq r (plan_for S r db).conflicts db))

  -- The database remembers the operation.
  abbrev Known : Db S.Real → Fields (Json S) → Type 0
  Known db op =
      (r : Request S) × (checked S role user_id op ≡ ok r) × (has_applied r.op_id db ≡ true)

  finish-grows :
      (now : Str) (seq : ℕ) (r : Request S) (fields : List Str) (id : Str) (db : Db S.Real)
      (x : Db S.Real × Bool)
      → Same db x.0
      → has_applied id db ≡ true
      → has_applied id (finish S sqlite user_id now seq r fields x).0 ≡ true
  finish-grows now seq r fields id db (db', true) (e, f) h = rw (e, h) (ground arith)
  finish-grows now seq r fields id db (db', false) (e, f) h = rw (e, h)

  apply_request-grows :
      (now : Str) (seq : ℕ) (r : Request S) (id : Str) (db : Db S.Real)
      → has_applied id db ≡ true
      → has_applied id (apply_request S sqlite user_id now seq r db).0 ≡ true
  unfolding apply_request
  apply_request-grows now seq r id db h = elim (Bool-cases (has_applied r.op_id db)) [
    | inl e ↦ rw e h
    | inr e ↦ rw e (
        finish-grows now seq r (fields_of S (plan_for S r db).conflicts) id db
          (written S sqlite user_id now seq r db) (written-Same now seq r db) h)
  ]

  apply_one-grows :
      (now : Str) (seq : ℕ) (op : Fields (Json S)) (id : Str) (db : Db S.Real)
      → has_applied id db ≡ true
      → has_applied id (apply_one S sqlite user_id now seq role op db).0 ≡ true
  unfolding apply_one
  apply_one-grows now seq op id db h = by_check (checked S role user_id op)
    where
      by_check :
          (c : Outcome (Request S))
          → has_applied id (apply_checked S sqlite user_id now seq c db).0 ≡ true
      by_check (ok r) = apply_request-grows now seq r id db h
      by_check (err e) = h

  apply_all-grows :
      (now : Str) (first place : ℕ) (ops : List (Fields (Json S))) (id : Str) (db : Db S.Real)
      → has_applied id db ≡ true
      → has_applied id (apply_all S sqlite user_id now role first place ops db).0 ≡ true
  unfolding apply_all
  apply_all-grows now first place [] id db h = h
  apply_all-grows now first place (op ∷ ops) id db h =
      apply_all-grows now first (suc place) ops id _
        (apply_one-grows now (first + place) op id db h)

  abbrev pub IsAccepted : PushResult → Type 0
  IsAccepted (accepted status) = Unit {0}
  IsAccepted (rejected name why) = ⊥

  finish-known :
      (now : Str) (seq place : ℕ) (op : Fields (Json S)) (r : Request S) (fields : List Str)
      (x : Db S.Real × Bool)
      → IsAccepted (result_of S place op (finish S sqlite user_id now seq r fields x).1)
      → has_applied r.op_id (finish S sqlite user_id now seq r fields x).0 ≡ true
  finish-known now seq place op r fields (db, true) a = rw (str_eq_refl r.op_id)
  finish-known now seq place op r fields (db, false) a = elim a [ ]

  apply_one-Known :
      (now : Str) (seq place : ℕ) (op : Fields (Json S)) (db : Db S.Real)
      → IsAccepted (result_of S place op (apply_one S sqlite user_id now seq role op db).1)
      → Known (apply_one S sqlite user_id now seq role op db).0 op
  unfolding apply_one apply_request
  apply_one-Known now seq place op db a = by_check (checked S role user_id op) refl a
    where
      by_request :
          (r : Request S)
          → IsAccepted (result_of S place op (apply_request S sqlite user_id now seq r db).1)
          → has_applied r.op_id (apply_request S sqlite user_id now seq r db).0 ≡ true
      by_request r a = elim (Bool-cases (has_applied r.op_id db)) [
        | inl e ↦ rw e e
        | inr e ↦ rw e (
            finish-known now seq place op r (fields_of S (plan_for S r db).conflicts)
              (written S sqlite user_id now seq r db) (rw e at a))
      ]

      by_check :
          (c : Outcome (Request S))
          → checked S role user_id op ≡ c
          → IsAccepted (result_of S place op (apply_checked S sqlite user_id now seq c db).1)
          → Known (apply_checked S sqlite user_id now seq c db).0 op
      by_check (ok r) e a = (r, e, by_request r a)
      by_check (err why) e a = elim a [ ]

  apply_all-Known :
      (now : Str) (first place : ℕ) (ops : List (Fields (Json S))) (db : Db S.Real)
      → All IsAccepted (apply_all S sqlite user_id now role first place ops db).1
      → All (Known (apply_all S sqlite user_id now role first place ops db).0) ops
  unfolding apply_all
  apply_all-Known now first place [] db a = tt
  apply_all-Known now first place (op ∷ ops) db (a, more) =
      let (r, e, h) = apply_one-Known now (first + place) place op db a in
      (
        (r, e, apply_all-grows now first (suc place) ops r.op_id _ h),
        apply_all-Known now first (suc place) ops _ more,
      )

  apply_one_known :
      (now : Str) (seq : ℕ) (op : Fields (Json S)) (db : Db S.Real) (r : Request S)
      → checked S role user_id op ≡ ok r
      → has_applied r.op_id db ≡ true
      → apply_one S sqlite user_id now seq role op db ≡ (db, ok (duplicate r.op_id))
  unfolding apply_one apply_request
  apply_one_known now seq op db r e h = rw (e, h)

  -- Operations that the database remembers leave it as it is.
  apply_all-Known' :
      (now : Str) (first place : ℕ) (ops : List (Fields (Json S))) (db : Db S.Real)
      → All (Known db) ops
      → (apply_all S sqlite user_id now role first place ops db).0 ≡ db
  unfolding apply_all
  apply_all-Known' now first place [] db k = refl
  apply_all-Known' now first place (op ∷ ops) db ((r, e, h), more) =
      rw (apply_one_known now (first + place) op db r e h)
        (apply_all-Known' now first (suc place) ops db more)

  -- The database with another counter.
  abbrev counted : ℕ → Db S.Real → Db S.Real
  counted n db = record db { seq = n }

  pub push_lem :
      (now : Str) (op : Fields (Json S)) (ops : List (Fields (Json S))) (db : Db S.Real)
      → push_batch S sqlite user_id now role (op ∷ ops) db
        ≡ answered S sqlite user_id now role (
            apply_all S sqlite user_id now role
              (db.seq + 1)
              0
              (op ∷ ops)
              (counted (db.seq + suc (length ops)) db))
  unfolding push_batch write_batch
  push_lem now op ops db =
      let one : max (suc (length ops)) 1 ≡ suc (length ops) = omega arith in rw one

  pub push_batch_nil :
      (now : Str) (db : Db S.Real)
      → push_batch S sqlite user_id now role [] db ≡ (db, ok ([], db.seq))
  unfolding push_batch
  push_batch_nil now db = refl

  abbrev results_in : Outcome (List PushResult × ℕ) → List PushResult
  results_in (ok (results, n)) = results
  results_in (err e) = []

  push_batch-push_batch :
      (now later : Str) (ops : List (Fields (Json S))) (db db' : Db S.Real)
      (results : List PushResult) (n : ℕ)
      → push_batch S sqlite user_id now role ops db ≡ (db', ok (results, n))
      → All IsAccepted results
      → (push_batch S sqlite user_id later role ops db').0
        ≡ record db' { seq = db'.seq + length ops }
  push_batch-push_batch now later [] db db' results n e a =
      let zero_more : db'.seq ≡ db'.seq + 0 = omega arith in
      rw (push_batch_nil later db') (ap (λ m. counted m db') zero_more)
  push_batch-push_batch now later (op ∷ ops) db db' results n e a =
      let first = rw (push_lem now op ops db) at e in
      let left = ap (λ (x : Db S.Real × Outcome (List PushResult × ℕ)). x.0) first in
      let told = ap (λ (x : Db S.Real × Outcome (List PushResult × ℕ)). results_in x.1) first in
      let known =
        apply_all-Known now (db.seq + 1) 0 (op ∷ ops) (counted (db.seq + suc (length ops)) db)
          (subst (λ t. All IsAccepted t) (sym told) a) in
      rw (push_lem later op ops db') (
        apply_all-Known' later (db'.seq + 1) 0 (op ∷ ops) (counted (db'.seq + suc (length ops)) db')
          (subst (λ d. All (Known d) (op ∷ ops)) left known))

  -- A batch of which every operation was accepted can be sent again, whenever that is: the second time
  -- no row, no conflict and no remembered operation changes, and only the counter moves on.
  pub push-push :
      (now later : Str) (ops : List (Fields (Json S))) (db db' : Db S.Real)
      (results : List PushResult) (n : ℕ)
      → push S sqlite user_id now role ops db ≡ (db', ok (results, n))
      → All IsAccepted results
      → (push S sqlite user_id later role ops db').0 ≡ record db' { seq = db'.seq + length ops }
  unfolding push
  push-push now later ops db db' results n e a = elim (Bool-cases (ltb 500 (length ops))) [
    | inl many ↦
        (let refused : ◌≡◌ {A = Outcome (List PushResult × ℕ)} (err batch_too_large)
              (ok (results, n)) =
            ap (λ (x : Db S.Real × Outcome (List PushResult × ℕ)). x.1) (rw many at e) in
          cc)
    | inr few ↦ rw few (push_batch-push_batch now later ops db db' results n (rw few at e) a)
  ]
