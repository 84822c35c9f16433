-- ===== src/Web/Outbox/Batch.antt =====
-- Which operations of the outbox of engine.rs a drain takes: those that wait, of the smallest keys.
use aurum_presenter.Prelude.{
  ℕ, zero, suc, ◌+◌, ◌<◌, ◌≡◌, refl, ◌∙◌, subst, ◌≢◌, inl, inr, Bool, ◌&&◌, Option, none, some,
  List, [], ◌∷◌, arith, ltb, ◌==◌, if◌then◌else◌, Bool-cases, take, keep, All,
}
use aurum_presenter.Prelude.Members.{insert_sorted, sort}
use aurum_presenter.Web.Outbox.{
  OutboxOp, Device, is_pending, in_order, pending_ops, entry, batch_of,
}
use aurum_presenter.Web.Outbox.Entries.{
  Distinct, All-keep, All-insert_sorted, All-sort, keep-Distinct, absent,
}

module _ {V : Type 0} where
  -- How many of the operations that wait have a smaller key.
  abbrev pub before : ℕ → List (OutboxOp V) → ℕ
  before n [] = 0
  before n (op ∷ ops) = (if is_pending op && ltb op.seq n then 1 else 0) + before n ops

  -- How many operations have a smaller key.
  abbrev below : ℕ → List (OutboxOp V) → ℕ
  below n [] = 0
  below n (op ∷ ops) = (if ltb op.seq n then 1 else 0) + below n ops

  abbrev if_pending : Option (OutboxOp V) → Option (OutboxOp V)
  if_pending none = none
  if_pending (some op) = if is_pending op then some op else none

  entry-keep :
      (n : ℕ) (ops : List (OutboxOp V))
      → Distinct ops
      → entry n (keep is_pending ops) ≡ if_pending (entry n ops)
  unfolding entry
  entry-keep n [] d = refl
  entry-keep n (op ∷ ops) (a, d) = elim (Bool-cases (op.seq == n)) [
    | inl here ↦
        (let gone : entry n (keep is_pending ops) ≡ none = absent n (keep is_pending ops) (
            All-keep _ is_pending ops
              (subst (λ k. All (λ (o : OutboxOp V). o.seq ≢ k) ops) (ground arith) a)) in
          elim (Bool-cases (is_pending op)) [
            | inl e ↦ rw (e, here, e) refl
            | inr e ↦ rw (e, here, gone, e) refl
          ])
    | inr other ↦ elim (Bool-cases (is_pending op)) [
      | inl e ↦ rw (e, other, entry-keep n ops d) refl
      | inr e ↦ rw (e, other, entry-keep n ops d) refl
    ]
  ]

  entry-insert_sorted :
      (n : ℕ) (op : OutboxOp V) (ops : List (OutboxOp V))
      → All (λ (o : OutboxOp V). o.seq ≢ op.seq) ops
      → entry n (insert_sorted in_order op ops) ≡ (if op.seq == n then some op else entry n ops)
  unfolding entry insert_sorted
  entry-insert_sorted n op [] a = refl
  entry-insert_sorted n op (o ∷ ops) (h, a) = ground (arith, entry-insert_sorted n op ops a)

  entry-sort :
      (n : ℕ) (ops : List (OutboxOp V)) → Distinct ops → entry n (sort in_order ops) ≡ entry n ops
  unfolding entry sort
  entry-sort n [] d = refl
  entry-sort n (op ∷ ops) (a, d) =
      entry-insert_sorted n op (sort in_order ops) (All-sort _ ops a) ∙ rw (entry-sort n ops d) refl

  below-insert_sorted :
      (n : ℕ) (op : OutboxOp V) (ops : List (OutboxOp V))
      → below n (insert_sorted in_order op ops) ≡ (if ltb op.seq n then 1 else 0) + below n ops
  unfolding insert_sorted
  below-insert_sorted n op [] = refl
  below-insert_sorted n op (o ∷ ops) = ground (arith, below-insert_sorted n op ops)

  below-sort : (n : ℕ) (ops : List (OutboxOp V)) → below n (sort in_order ops) ≡ below n ops
  unfolding sort
  below-sort n [] = refl
  below-sort n (op ∷ ops) =
      below-insert_sorted n op (sort in_order ops) ∙ rw (below-sort n ops) refl

  below-keep : (n : ℕ) (ops : List (OutboxOp V)) → below n (keep is_pending ops) ≡ before n ops
  below-keep n [] = refl
  below-keep n (op ∷ ops) = elim (Bool-cases (is_pending op)) [
    | inl e ↦ rw (e, below-keep n ops) refl
    | inr e ↦ rw (e, below-keep n ops) (omega arith)
  ]

  abbrev Ascending : List (OutboxOp V) → Type 0
  Ascending [] = Unit
  Ascending (op ∷ ops) = All (λ (o : OutboxOp V). op.seq < o.seq) ops × Ascending ops

  above :
      (i j : ℕ) (ops : List (OutboxOp V))
      → i < j
      → All (λ (o : OutboxOp V). j < o.seq) ops
      → All (λ (o : OutboxOp V). i < o.seq) ops
  above i j [] h a = tt
  above i j (op ∷ ops) h (k, a) = (omega arith, above i j ops h a)

  insert_sorted-Ascending :
      (op : OutboxOp V) (ops : List (OutboxOp V))
      → All (λ (o : OutboxOp V). o.seq ≢ op.seq) ops
      → Ascending ops
      → Ascending (insert_sorted in_order op ops)
  unfolding insert_sorted
  insert_sorted-Ascending op [] a d = (tt, tt)
  insert_sorted-Ascending op (o ∷ ops) (h, a) (b, d) = elim (Bool-cases (in_order op o)) [
    | inl e ↦ rw e (
        (let less : op.seq < o.seq = ground arith in
          ((less, above op.seq o.seq ops less b), (b, d))))
    | inr e ↦ rw e (
        (
          All-insert_sorted (λ (p : OutboxOp V). o.seq < p.seq) op ops (ground arith) b,
          insert_sorted-Ascending op ops a d,
        ))
  ]

  sort-Ascending : (ops : List (OutboxOp V)) → Distinct ops → Ascending (sort in_order ops)
  unfolding sort
  sort-Ascending [] d = tt
  sort-Ascending (op ∷ ops) (a, d) =
      insert_sorted-Ascending op (sort in_order ops) (All-sort _ ops a) (sort-Ascending ops d)

  none_below :
      (n : ℕ) (ops : List (OutboxOp V))
      → All (λ (o : OutboxOp V). n < o.seq) ops
      → (below n ops ≡ 0) × (entry n ops ≡ none)
  unfolding entry
  none_below n [] a = (refl, refl)
  none_below n (op ∷ ops) (h, a) = ground (arith, none_below n ops a)

  All-take :
      (n k : ℕ) (ops : List (OutboxOp V))
      → All (λ (o : OutboxOp V). n < o.seq) ops
      → All (λ (o : OutboxOp V). n < o.seq) (take k ops)
  All-take n zero ops a = tt
  All-take n (suc k) [] a = tt
  All-take n (suc k) (op ∷ ops) (h, a) = (h, All-take n k ops a)

  entry-take :
      (n k : ℕ) (ops : List (OutboxOp V))
      → Ascending ops
      → entry n (take k ops) ≡ (if ltb (below n ops) k then entry n ops else none)
  unfolding entry
  entry-take n zero ops a = ground arith
  entry-take n (suc k) [] a = ground arith
  entry-take n (suc k) (op ∷ ops) (h, a) = elim (Bool-cases (op.seq == n)) [
    | inl here ↦
        (let (least, _) =
            none_below n ops
              (subst (λ m. All (λ (o : OutboxOp V). m < o.seq) ops) (ground arith) h) in
          rw (here, least) (ground arith))
    | inr other ↦ elim (Bool-cases (ltb op.seq n)) [
      | inl smaller ↦ rw (other, smaller, entry-take n k ops a) (ground arith)
      | inr larger ↦
          (let rest = above n op.seq ops (ground arith) h in
            let gone = (none_below n ops rest).1 in
            let taken = (none_below n (take k ops) (All-take n k ops rest)).1 in
            rw (other, gone, taken) (ground arith))
    ]
  ]

  -- An operation that waits, with fewer than 200 of those that wait before it.
  abbrev pub is_next : ℕ → List (OutboxOp V) → OutboxOp V → Bool
  is_next n ops op = is_pending op && ltb (before n ops) 200

  abbrev pub if_next : ℕ → List (OutboxOp V) → Option (OutboxOp V) → Option (OutboxOp V)
  if_next n ops none = none
  if_next n ops (some op) = if is_next n ops op then some op else none

  -- The batch of a drain has under a key the operation of the outbox with this key, if it waits and fewer
  -- than 200 of those that wait have smaller keys, and nothing otherwise; where no two operations have
  -- one key.
  pub entry-batch_of :
      (n : ℕ) (device : Device V)
      → Distinct device.outbox
      → entry n (batch_of device) ≡ if_next n device.outbox (entry n device.outbox)
  unfolding pending_ops
  entry-batch_of n device d =
      let waiting = keep is_pending device.outbox in
      let dw = keep-Distinct is_pending device.outbox d in
      entry-take n 200 (sort in_order waiting) (sort-Ascending waiting dw)
      ∙ rw
          (
            below-sort n waiting,
            below-keep n device.outbox,
            entry-sort n waiting dw,
            entry-keep n device.outbox d,
          )
          (chosen (entry n device.outbox))
    where
      chosen :
          (found : Option (OutboxOp V))
          → (if ltb (before n device.outbox) 200 then if_pending found else none)
            ≡ if_next n device.outbox found
      chosen none = ground arith
      chosen (some op) = ground arith
