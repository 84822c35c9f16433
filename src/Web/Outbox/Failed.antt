-- ===== src/Web/Outbox/Failed.antt =====
-- What a drain of engine.rs that fails leaves of the device.
use aurum_presenter.Prelude.{
  ℕ, ◌+◌, ◌≡◌, refl, ◌∙◌, inl, inr, Bool, true, false, ◌&&◌, not, Option, none, some, List, [], ◌∷◌,
  ◌++◌, arith, ltb, ◌==◌, if◌then◌else◌, Bool-cases,
}
use aurum_presenter.Prelude.Text.{Str, codes}
use mathlib.Core.Option
use aurum_presenter.Web.Outbox.{
  OutboxOp, parked, Device, Failure, server, offline, malformed, failed, is_retryable, status_of,
  message_of, pending_ops, entry, is_pending, batch_of, drain, park_all, park,
}
use aurum_presenter.Web.Outbox.Entries.{Distinct, batch_of-Distinct}
use aurum_presenter.Web.Outbox.Batch.{is_next, if_next, before, entry-batch_of}
use aurum_presenter.Web.Outbox.Drain.{drain_lem, entry_nil, entry-park_all, parked_by}

-- The server answered, with a status that trying again does not change, other than 401; or its answer
-- could not be read.
abbrev pub is_lasting : Failure → Bool
is_lasting (server status message) =
    if status == 401 then false else if status == 429 then false else ltb status 500
is_lasting offline = false
is_lasting (malformed why) = true

abbrev pub sentence : Failure → Str
sentence (server status message) = message
sentence offline = codes "the network is unreachable"
sentence (malformed why) = codes "the server sent something this client could not read: " ++ why

lasting_lem :
    (why : Failure) → (not (is_retryable why) && not (status_of why == 401)) ≡ is_lasting why
unfolding is_retryable
lasting_lem (server status message) = ground arith
lasting_lem offline = refl
lasting_lem (malformed why) = refl

sentence_lem : (why : Failure) → message_of why ≡ sentence why
sentence_lem (server status message) = refl
sentence_lem offline = refl
sentence_lem (malformed why) = refl

module _ {V : Type 0} where
  -- What is left of an operation with a number of waiting operations before it.
  abbrev pub left_of : Failure → ℕ → OutboxOp V → OutboxOp V
  left_of why ahead op =
      if is_lasting why && (is_pending op && ltb ahead 200)
      then record op {
        status = parked;
        last_error = some (sentence why);
        attempts = op.attempts + 1;
      }
      else op

  park_all_rest :
      (error : Str) (batch : List (OutboxOp V)) (device : Device V)
      → park_all error batch device
        ≡ record device { outbox = (park_all error batch device).outbox }
  unfolding park_all park
  park_all_rest error [] device = refl
  park_all_rest error (op ∷ batch) device = park_all_rest error batch (park error op device)

  -- With the batch as it is, whatever it holds.
  entry-failed :
      (now : Str) (n : ℕ) (why : Failure) (device : Device V)
      → Distinct device.outbox
      → entry n (drain now (failed why) device).0.outbox ≡ (
          if is_lasting why
          then parked_by (message_of why) (entry n (batch_of device)) (entry n device.outbox)
          else entry n device.outbox)
  entry-failed now n why device d = by_pending (pending_ops device) refl
    where
      by_pending :
          (ops : List (OutboxOp V))
          → pending_ops device ≡ ops
          → entry n (drain now (failed why) device).0.outbox ≡ (
              if is_lasting why
              then parked_by (message_of why) (entry n (batch_of device)) (entry n device.outbox)
              else entry n device.outbox)
      by_pending [] e = rw (drain_lem now (failed why) device [] e) (
          rw e (
            rw (entry_nil n)
              (elim (Bool-cases (is_lasting why)) [ inl l ↦ rw l refl | inr l ↦ rw l refl ])))
      by_pending (op ∷ ops) e =
          rw (drain_lem now (failed why) device (op ∷ ops) e, lasting_lem why)
            (elim (Bool-cases (is_lasting why)) [
              | inl l ↦ rw l (
                  entry-park_all (message_of why) n (batch_of device) device
                    (batch_of-Distinct device d))
              | inr l ↦ rw l refl
            ])

  pub failed_rest :
      (now : Str) (why : Failure) (device : Device V)
      → (drain now (failed why) device).0
        ≡ record device { outbox = (drain now (failed why) device).0.outbox }
  failed_rest now why device = by_pending (pending_ops device) refl
    where
      by_pending :
          (ops : List (OutboxOp V))
          → pending_ops device ≡ ops
          → (drain now (failed why) device).0
            ≡ record device { outbox = (drain now (failed why) device).0.outbox }
      by_pending [] e = rw (drain_lem now (failed why) device [] e) refl
      by_pending (op ∷ ops) e =
          rw (drain_lem now (failed why) device (op ∷ ops) e, lasting_lem why)
            (elim (Bool-cases (is_lasting why)) [
              | inl l ↦ rw l (park_all_rest (message_of why) (batch_of device) device)
              | inr l ↦ rw l refl
            ])

  -- A drain that fails changes nothing but the outbox. There an operation that waits, with fewer than
  -- 200 waiting operations of smaller keys, is parked with the sentence of the failure and one attempt
  -- more, if the server refused with a status below 500 that is neither 401 nor 429 or answered what
  -- cannot be read. Every other operation is as it was, and without a network, after an expired session
  -- and for every other status all of them are.
  pub drain-failed :
      (now : Str) (n : ℕ) (why : Failure) (device : Device V)
      → Distinct device.outbox
      → ((drain now (failed why) device).0
          ≡ record device { outbox = (drain now (failed why) device).0.outbox })
        × (entry n (drain now (failed why) device).0.outbox
            ≡ Option.map (left_of why (before n device.outbox)) (entry n device.outbox))
  drain-failed now n why device d = (
    failed_rest now why device,
    entry-failed now n why device d
        ∙ rw (entry-batch_of n device d, sentence_lem why) (by_entry (entry n device.outbox)),
  )
    where
      by_entry :
          (found : Option (OutboxOp V))
          → (if is_lasting why
              then parked_by (sentence why) (if_next n device.outbox found) found
              else found)
            ≡ Option.map (left_of why (before n device.outbox)) found
      by_entry none = ground arith
      by_entry (some op) = elim (Bool-cases (is_lasting why)) [
        | inl l ↦ elim (Bool-cases (is_next n device.outbox op)) [
          | inl e ↦ rw (l, e) refl
          | inr e ↦ rw (l, e) refl
        ]
        | inr l ↦ rw l refl
      ]
