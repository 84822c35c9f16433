-- ===== src/Web/Outbox/Drain.antt =====
-- What a drain leaves of each operation of the outbox.
use aurum_presenter.Prelude.{
  ℕ, ◌+◌, ◌≡◌, refl, ap, ◌∙◌, subst, ◌≢◌, inl, inr, Option, none, some, List, [], ◌∷◌, arith, ltb,
  ◌==◌, if◌then◌else◌, Bool-cases, All, Option-cases,
}
use aurum_presenter.Prelude.Text.{Str}
use aurum_presenter.Web.Outbox.{
  OutboxOp, parked, Device, PushResult, Reply, replied, pending_ops, entry, discard, park,
  parked_op, reason_of, is_rejected, result_for, settle, settle_all, park_all, pushed, batch_of,
  drain_pending, drain,
}
use aurum_presenter.Web.Outbox.Entries.{
  Distinct, entry-put_op, entry-drop_op, batch_of-Distinct, absent, batch_entry,
}

module _ {V : Type 0} where
  -- What an answer leaves of an operation that was sent: without a result it waits, refused it is parked
  -- for a person, and applied it is gone.
  abbrev pub verdict : OutboxOp V → Option PushResult → Option (OutboxOp V)
  verdict op none = some op
  verdict op (some result) =
      if is_rejected result
      then some (record op {
        status = parked;
        last_error = some (reason_of result);
        attempts = op.attempts + 1;
      })
      else none

  abbrev left_by : OutboxOp V → Option PushResult → Option (OutboxOp V) → Option (OutboxOp V)
  left_by op none old = old
  left_by op (some result) old = verdict op (some result)

  entry-settle :
      (now : Str) (n : ℕ) (op : OutboxOp V) (found : Option PushResult) (device : Device V)
      (count : ℕ)
      → entry n (settle now op found (device, count)).0.outbox
        ≡ (if op.seq == n then left_by op found (entry n device.outbox) else entry n device.outbox)
  unfolding park discard
  entry-settle now n op none device count = ground arith
  entry-settle now n op (some result) device count = elim (Bool-cases (is_rejected result)) [
    | inl e ↦ rw e (entry-put_op n (parked_op (reason_of result) op) device.outbox)
    | inr e ↦ rw e (entry-drop_op n op.seq device.outbox)
  ]

  -- What the loop leaves under a key: by the operation of the batch with that key, if there is one.
  abbrev after_batch :
      Option (OutboxOp V) → List PushResult → Option (OutboxOp V) → Option (OutboxOp V)
  after_batch none results old = old
  after_batch (some op) results old = left_by op (result_for op results) old

  entry_step :
      (n : ℕ) (op : OutboxOp V) (ops : List (OutboxOp V))
      → entry n (op ∷ ops) ≡ (if op.seq == n then some op else entry n ops)
  unfolding entry
  entry_step n op ops = refl

  entry-settle_all :
      (now : Str) (n : ℕ) (batch : List (OutboxOp V)) (results : List PushResult)
      (device : Device V) (count : ℕ)
      → Distinct batch
      → entry n (settle_all now batch results (device, count)).0.outbox
        ≡ after_batch (entry n batch) results (entry n device.outbox)
  unfolding settle_all
  entry-settle_all now n [] results device count d = unfold entry in refl
  entry-settle_all now n (op ∷ batch) results device count (a, d) =
      let next = settle now op (result_for op results) (device, count) in
      entry-settle_all now n batch results next.0 next.1 d ∙ elim (Bool-cases (op.seq == n)) [
        | inl here ↦
            (let gone : entry n batch ≡ none =
                absent n batch
                  (subst (λ k. All (λ (o : OutboxOp V). o.seq ≢ k) batch) (ground arith) a) in
              rw (
                gone,
                entry_step n op batch,
                entry-settle now n op (result_for op results) device count,
                here,
              ))
        | inr other ↦ rw (
          entry_step n op batch,
          entry-settle now n op (result_for op results) device count,
          other,
        )
      ]

  pub entry_nil : (n : ℕ) → entry {V = V} n [] ≡ none
  unfolding entry
  entry_nil n = refl

  outbox-pushed : (now : Str) (x : Device V × ℕ) → (pushed now x).0.outbox ≡ x.0.outbox
  outbox-pushed now (device, count) = elim (Bool-cases (ltb 0 count)) [
    | inl e ↦ rw e
    | inr e ↦ rw e
  ]

  pub drain_lem :
      (now : Str) (reply : Reply) (device : Device V) (ops : List (OutboxOp V))
      → pending_ops device ≡ ops
      → drain now reply device ≡ drain_pending now reply device ops
  unfolding drain
  drain_lem now reply device ops e = ap (drain_pending now reply device) e

  entry-drain :
      (now : Str) (n : ℕ) (results : List PushResult) (device : Device V)
      → Distinct device.outbox
      → entry n (drain now (replied results) device).0.outbox
        ≡ after_batch (entry n (batch_of device)) results (entry n device.outbox)
  entry-drain now n results device d = by_pending (pending_ops device) refl
    where
      by_pending :
          (ops : List (OutboxOp V))
          → pending_ops device ≡ ops
          → entry n (drain now (replied results) device).0.outbox
            ≡ after_batch (entry n (batch_of device)) results (entry n device.outbox)
      by_pending [] e = rw (drain_lem now (replied results) device [] e) (rw e (rw (entry_nil n)))
      by_pending (op ∷ ops) e =
          rw
            (
              drain_lem now (replied results) device (op ∷ ops) e,
              outbox-pushed now (settle_all now (batch_of device) results (device, 0)),
            )
            (entry-settle_all now n (batch_of device) results device 0 (batch_of-Distinct device d))

  -- What a failure leaves under a key: an operation of the batch is parked.
  abbrev pub parked_by : Str → Option (OutboxOp V) → Option (OutboxOp V) → Option (OutboxOp V)
  parked_by error none old = old
  parked_by error (some op) old = some (parked_op error op)

  entry-park :
      (error : Str) (n : ℕ) (op : OutboxOp V) (device : Device V)
      → entry n (park error op device).outbox
        ≡ (if op.seq == n then some (parked_op error op) else entry n device.outbox)
  unfolding park
  entry-park error n op device = entry-put_op n (parked_op error op) device.outbox

  pub entry-park_all :
      (error : Str) (n : ℕ) (batch : List (OutboxOp V)) (device : Device V)
      → Distinct batch
      → entry n (park_all error batch device).outbox
        ≡ parked_by error (entry n batch) (entry n device.outbox)
  unfolding park_all
  entry-park_all error n [] device d = rw (entry_nil n)
  entry-park_all error n (op ∷ batch) device (a, d) =
      entry-park_all error n batch (park error op device) d ∙ elim (Bool-cases (op.seq == n)) [
        | inl here ↦
            (let gone : entry n batch ≡ none =
                absent n batch
                  (subst (λ k. All (λ (o : OutboxOp V). o.seq ≢ k) batch) (ground arith) a) in
              rw (gone, entry_step n op batch, entry-park error n op device, here))
        | inr other ↦ rw (entry_step n op batch, entry-park error n op device, other)
      ]

  -- What an answer leaves under a key: of an operation of the batch its verdict, and otherwise what was there.
  abbrev pub answered_by :
      List PushResult → Option (OutboxOp V) → Option (OutboxOp V) → Option (OutboxOp V)
  answered_by results none old = old
  answered_by results (some op) old = verdict op (result_for op results)

  -- The operation under a key of the outbox after a drain that the server answered: one that was in the
  -- batch stays as it was if the server gave no result for it, is parked with the server's reason if it
  -- was refused, and is gone otherwise; one that was not in the batch stays as it was.
  pub drain_replied :
      (now : Str) (n : ℕ) (results : List PushResult) (device : Device V)
      → Distinct device.outbox
      → entry n (drain now (replied results) device).0.outbox
        ≡ answered_by results (entry n (batch_of device)) (entry n device.outbox)
  drain_replied now n results device d =
      entry-drain now n results device d ∙ elim (Option-cases (entry n (batch_of device))) [
        | inl e ↦ rw e
        | inr (op, e) ↦ rw (e, batch_entry device n op d e) (same op (result_for op results))
      ]
    where
      same :
          (op : OutboxOp V) (found : Option PushResult)
          → left_by op found (some op) ≡ verdict op found
      same op none = refl
      same op (some result) = refl
