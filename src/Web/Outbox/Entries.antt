-- ===== src/Web/Outbox/Entries.antt =====
-- The operations of the outbox of engine.rs, each found under its key.
use aurum_presenter.Prelude.{
  ℕ, zero, suc, ◌≡◌, refl, sym, subst, ◌≢◌, inl, inr, Bool, true, false, none, some, List, [], ◌∷◌,
  arith, ◌==◌, if◌then◌else◌, Bool-cases, take, keep, All,
}
use mathlib.Core.List.{Memᴰ}
use aurum_presenter.Prelude.Members.{insert_sorted, sort, sort_mem, keep_mem}
use aurum_presenter.Web.Outbox.{
  OutboxOp, Device, is_pending, in_order, pending_ops, put_op, drop_op, entry, batch_of,
}

module _ {V : Type 0} where
  pub entry-put_op :
      (n : ℕ) (op : OutboxOp V) (ops : List (OutboxOp V))
      → entry n (put_op op ops) ≡ (if op.seq == n then some op else entry n ops)
  unfolding entry put_op
  entry-put_op n op [] = refl
  entry-put_op n op (other ∷ ops) = ground (arith, entry-put_op n op ops)

  pub entry-drop_op :
      (n k : ℕ) (ops : List (OutboxOp V))
      → entry n (drop_op k ops) ≡ (if k == n then none else entry n ops)
  unfolding entry drop_op
  entry-drop_op n k [] = ground arith
  entry-drop_op n k (op ∷ ops) = ground (arith, entry-drop_op n k ops)

  -- No two operations have one key.
  abbrev pub Distinct : List (OutboxOp V) → Type 0
  Distinct [] = Unit
  Distinct (op ∷ ops) = All (λ (o : OutboxOp V). o.seq ≢ op.seq) ops × Distinct ops

  pub All-keep :
      (P : OutboxOp V → Type 0) (p : OutboxOp V → Bool) (ops : List (OutboxOp V))
      → All P ops
      → All P (keep p ops)
  All-keep P p [] a = tt
  All-keep P p (op ∷ ops) (h, a) = elim (Bool-cases (p op)) [
    | inl e ↦ rw e (h, All-keep P p ops a)
    | inr e ↦ rw e (All-keep P p ops a)
  ]

  All-take :
      (P : OutboxOp V → Type 0) (n : ℕ) (ops : List (OutboxOp V)) → All P ops → All P (take n ops)
  All-take P zero ops a = tt
  All-take P (suc n) [] a = tt
  All-take P (suc n) (op ∷ ops) (h, a) = (h, All-take P n ops a)

  pub All-insert_sorted :
      (P : OutboxOp V → Type 0) (op : OutboxOp V) (ops : List (OutboxOp V))
      → P op
      → All P ops
      → All P (insert_sorted in_order op ops)
  unfolding insert_sorted
  All-insert_sorted P op [] h a = (h, tt)
  All-insert_sorted P op (o ∷ ops) h (k, a) = elim (Bool-cases (in_order op o)) [
    | inl e ↦ rw e (h, (k, a))
    | inr e ↦ rw e (k, All-insert_sorted P op ops h a)
  ]

  pub All-sort :
      (P : OutboxOp V → Type 0) (ops : List (OutboxOp V)) → All P ops → All P (sort in_order ops)
  unfolding sort
  All-sort P [] a = tt
  All-sort P (op ∷ ops) (h, a) = All-insert_sorted P op (sort in_order ops) h (All-sort P ops a)

  pub keep-Distinct :
      (p : OutboxOp V → Bool) (ops : List (OutboxOp V)) → Distinct ops → Distinct (keep p ops)
  keep-Distinct p [] d = tt
  keep-Distinct p (op ∷ ops) (a, d) = elim (Bool-cases (p op)) [
    | inl e ↦ rw e (All-keep _ p ops a, keep-Distinct p ops d)
    | inr e ↦ rw e (keep-Distinct p ops d)
  ]

  take-Distinct : (n : ℕ) (ops : List (OutboxOp V)) → Distinct ops → Distinct (take n ops)
  take-Distinct zero ops d = tt
  take-Distinct (suc n) [] d = tt
  take-Distinct (suc n) (op ∷ ops) (a, d) = (All-take _ n ops a, take-Distinct n ops d)

  insert_sorted-Distinct :
      (op : OutboxOp V) (ops : List (OutboxOp V))
      → All (λ (o : OutboxOp V). o.seq ≢ op.seq) ops
      → Distinct ops
      → Distinct (insert_sorted in_order op ops)
  unfolding insert_sorted
  insert_sorted-Distinct op [] a d = (tt, tt)
  insert_sorted-Distinct op (o ∷ ops) (n, a) (b, d) = elim (Bool-cases (in_order op o)) [
    | inl e ↦ rw e ((n, a), (b, d))
    | inr e ↦
        rw e (All-insert_sorted _ op ops (λ q. n (sym q)) b, insert_sorted-Distinct op ops a d)
  ]

  pub sort-Distinct : (ops : List (OutboxOp V)) → Distinct ops → Distinct (sort in_order ops)
  unfolding sort
  sort-Distinct [] d = tt
  sort-Distinct (op ∷ ops) (a, d) =
      insert_sorted-Distinct op (sort in_order ops) (All-sort _ ops a) (sort-Distinct ops d)

  pub batch_of-Distinct : (device : Device V) → Distinct device.outbox → Distinct (batch_of device)
  unfolding pending_ops
  batch_of-Distinct device d =
      take-Distinct 200 _ (sort-Distinct _ (keep-Distinct is_pending device.outbox d))

  pub absent :
      (n : ℕ) (ops : List (OutboxOp V))
      → All (λ (o : OutboxOp V). o.seq ≢ n) ops
      → entry n ops ≡ none
  unfolding entry
  absent n [] a = refl
  absent n (op ∷ ops) (h, a) = ground (arith, absent n ops a)

  pub entry_mem :
      (n : ℕ) (ops : List (OutboxOp V)) (op : OutboxOp V)
      → entry n ops ≡ some op
      → Memᴰ op ops × (op.seq ≡ n)
  unfolding entry
  entry_mem n [] op e = cc
  entry_mem n (o ∷ ops) op e = elim (Bool-cases (o.seq == n)) [
    | inl here ↦
        (let same : some o ≡ some op = rw here at e in
          let p : op ≡ o = cc in (Memᴰ.head p, rw p (ground arith)))
    | inr later ↦ (let (m, q) = entry_mem n ops op (rw later at e) in (Memᴰ.tail m, q))
  ]

  mem_seq :
      (n : ℕ) (ops : List (OutboxOp V)) (op : OutboxOp V)
      → All (λ (o : OutboxOp V). o.seq ≢ n) ops
      → Memᴰ op ops
      → op.seq ≢ n
  mem_seq n [] op a m = elim m [ ]
  mem_seq n (o ∷ ops) op (h, a) (Memᴰ.head e) = rw e h
  mem_seq n (o ∷ ops) op (h, a) (Memᴰ.tail m) = mem_seq n ops op a m

  pub mem_entry :
      (ops : List (OutboxOp V)) (op : OutboxOp V)
      → Distinct ops
      → Memᴰ op ops
      → entry op.seq ops ≡ some op
  unfolding entry
  mem_entry [] op d m = elim m [ ]
  mem_entry (o ∷ ops) op (a, d) (Memᴰ.head e) =
      let same : (o.seq == op.seq) ≡ true = rw e (ground arith) in rw same (rw e)
  mem_entry (o ∷ ops) op (a, d) (Memᴰ.tail m) =
      let differ = mem_seq o.seq ops op a m in
      let no : (o.seq == op.seq) ≡ false = ground arith in rw no (mem_entry ops op d m)

  take_mem :
      (n : ℕ) (ops : List (OutboxOp V)) (op : OutboxOp V) → Memᴰ op (take n ops) → Memᴰ op ops
  take_mem zero ops op m = elim m [ ]
  take_mem (suc n) [] op m = elim m [ ]
  take_mem (suc n) (o ∷ ops) op (Memᴰ.head e) = Memᴰ.head e
  take_mem (suc n) (o ∷ ops) op (Memᴰ.tail m) = Memᴰ.tail (take_mem n ops op m)

  -- An operation of the batch is an operation of the outbox.
  pub batch_entry :
      (device : Device V) (n : ℕ) (op : OutboxOp V)
      → Distinct device.outbox
      → entry n (batch_of device) ≡ some op
      → entry n device.outbox ≡ some op
  unfolding pending_ops
  batch_entry device n op d e =
      let (m, q) = entry_mem n (batch_of device) op e in
      let (k, _) =
        keep_mem is_pending device.outbox op (sort_mem in_order op _ (take_mem 200 _ op m)) in
      subst (λ i. entry i device.outbox ≡ some op) q (mem_entry device.outbox op d k)
