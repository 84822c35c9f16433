-- ===== src/Web/Engine/Pulls.antt =====
-- The loop of `pull` in crates/web/src/sync/engine.rs against `pull` of crates/api/src/handlers/sync.rs.
use aurum_presenter.Prelude.{
  ℕ, suc, ◌+◌, ◌≡◌, refl, ap, inl, inr, false, Option, some, List, [], ◌∷◌, map, if◌then◌else◌,
  Bool-cases, All,
}
use aurum_presenter.Prelude.Text.{Str}
use aurum_presenter.Prelude.Int.{ℤ, pos}
use aurum_presenter.Sync.Json.{Fields}
use aurum_presenter.Api.Store.{Serde, Json, Row, Db, object_of}
use aurum_presenter.Api.Push.Stamps.{InSeq}
use aurum_presenter.Api.Pull.{PullAnswer, pull}
use aurum_presenter.Api.Pull.Pages.{pull-pull}
use aurum_presenter.Web.Outbox.{Device}
use aurum_presenter.Web.Engine.{PullResponse, put_all, put_tables, watermarked, pull_loop}

module _ (S : Serde) where
  -- The answer of the server as the JSON that the device reads.
  abbrev pub json_tables : List (Str × List (Row S.Real)) → List (Str × List (Fields (Json S)))
  json_tables [] = []
  json_tables ((table, rows) ∷ more) = (table, map (object_of S) rows) ∷ json_tables more

  abbrev pub response_of : PullAnswer S.Real → PullResponse S
  response_of answer = record {
    change_seq = answer.change_seq;
    tables = json_tables answer.tables;
    has_more = answer.has_more;
  }

  put_all_nil : (table : Str) (device : Device (Json S)) → put_all S table [] device ≡ device
  unfolding put_all
  put_all_nil table device = refl

  put_tables_nil :
      (tables : List (Str × List (Row S.Real))) (device : Device (Json S))
      → All (λ (x : Str × List (Row S.Real)). x.1 ≡ []) tables
      → put_tables S (json_tables tables) device ≡ (device, 0)
  unfolding put_tables
  put_tables_nil [] device a = refl
  put_tables_nil ((table, rows) ∷ more) device (e, a) =
      rw (e, put_all_nil table device, put_tables_nil more device a) refl

  module _ (db : Db S.Real) (user_id : Str) (list : Option Str) (limit : Option ℤ) (now : Str) where
    abbrev pub answer : ℕ → PullResponse S
    answer since = response_of (pull list limit (pos since) user_id db)

    pull_seq : (since : ℤ) → (pull list limit since user_id db).change_seq ≡ db.seq
    unfolding pull
    pull_seq since = refl

    -- One round of the loop.
    abbrev after_round : Device (Json S) × ℕ → Device (Json S) × ℕ
    after_round (device, count) =
        let response = answer device.sync_state.change_seq in
        let (next, more) = put_tables S response.tables device in
        (watermarked S now response next, count + more)

    round_lem :
        (fuel : ℕ) (x : Device (Json S) × ℕ)
        → pull_loop S now answer (suc fuel) x ≡ (
            if (answer x.0.sync_state.change_seq).has_more
            then pull_loop S now answer fuel (after_round x)
            else some (after_round x))
    unfolding pull_loop
    round_lem fuel (device, count) = refl

    -- A round from the number that the server is at changes no row, and is the last.
    last_round :
        (fuel : ℕ) (device : Device (Json S)) (count : ℕ)
        → InSeq db
        → device.sync_state.change_seq ≡ db.seq
        → (x : Device (Json S) × ℕ) × (pull_loop S now answer (suc fuel) (device, count) ≡ some x)
          × (x.0.rows ≡ device.rows)
          × (x.0.sync_state.change_seq ≡ db.seq)
    unfolding pull
    last_round fuel device count h e =
        let start = device.sync_state.change_seq in
        let quiet : All (λ (x : Str × List (Row S.Real)). x.1 ≡ [])
              (pull list limit (pos start) user_id db).tables
            × ((pull list limit (pos start) user_id db).has_more ≡ false) =
          rw (e, ← pull_seq (pos start)) (pull-pull db user_id (pos start) list limit h) in
        let (nothing, done) = quiet in
        let same = put_tables_nil (pull list limit (pos start) user_id db).tables device nothing in
        (
          after_round (device, count),
          rw (round_lem fuel (device, count), done),
          ap (λ n. n.0.rows) same,
          pull_seq (pos start),
        )

    -- Against a server on which nothing changes, the loop ends within two rounds, at the number of the
    -- server. What it brings are the rows of the first answer, whether or not that answer said that
    -- there was more.
    pub pull_loop_lem :
        (fuel : ℕ) (device : Device (Json S)) (count : ℕ)
        → InSeq db
        → (x : Device (Json S) × ℕ) × (pull_loop S now answer (suc (suc fuel)) (device, count)
            ≡ some x)
          × (x.0.rows ≡ (put_tables S (answer device.sync_state.change_seq).tables device).0.rows)
          × (x.0.sync_state.change_seq ≡ db.seq)
    pull_loop_lem fuel device count h =
        elim (Bool-cases (answer device.sync_state.change_seq).has_more) [
          | inl more ↦
              (let (x, e, r, s) =
                  last_round fuel (after_round (device, count)).0 (after_round (device, count)).1 h
                    (pull_seq (pos device.sync_state.change_seq)) in
                (x, rw (round_lem (suc fuel) (device, count), more) e, r, s))
          | inr done ↦ (
            after_round (device, count),
            rw (round_lem (suc fuel) (device, count), done),
            refl,
            pull_seq (pos device.sync_state.change_seq),
          )
        ]
