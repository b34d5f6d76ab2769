-- ===== src/Reqlog/Worker/Batches.antt =====
-- crates/yb-reqlog/src/lib.rs, `Worker::flush`: a batch is inserted as a whole or not at all.
use sovereign_gateway.Base.{ℕ, ◌≡◌, ◌≢◌, refl, sym, ap, ◌∙◌, List, [], ◌∷◌, ◌++◌, ◌+◌, ◌%◌, ◌^◌}
use mathlib.Core.List.{append_assoc, append-nil}
use sovereign_gateway.Core.Errors.{ok, err}
use sovereign_gateway.Core.Reqlog.{RequestLogRecord}
use sovereign_gateway.Reqlog.Disk.{Disk, IsLawful, Same, SameFiles, Ack, Row}
use sovereign_gateway.Reqlog.Worker.{
  ReqlogConfig, Worker, flush, insert_batch, insert_rows, prepared_insert, end_transaction, rows_of,
  row_of,
}

module _ (d : Disk) (lawful : IsLawful d) where
  Same-trans : (s t u : d.State) → Same d s t → Same d t u → Same d s u
  Same-trans s t u h k = (k.0 ∙ h.0, λ f. k.1 f ∙ h.1 f)

  -- What an insertion of rows leaves, with the state before it.
  abbrev IsInserted : d.State → List Row → (d.State × ℕ) × Ack → Type 0
  IsInserted s rows ((t, id), ok _) = Same d s t × (d.working t ≡ d.working s ++ rows)
  IsInserted s rows ((t, id), err e) = Same d s t

  insert_rows-IsInserted :
      (max id : ℕ) (records : List RequestLogRecord) (s : d.State)
      → IsInserted s (rows_of max id records) (insert_rows d max id records s)
  unfolding insert_rows rows_of
  insert_rows-IsInserted max id [] s = ((refl, λ f. refl), sym (append-nil (d.working s)))
  insert_rows-IsInserted max id (rec ∷ records) s =
      let row = row_of max id rec in
      by_result (insert_rows-IsInserted max ((id + 1) % 2 ^ 64) records (d.insert row s).0)
        (d.insert row s).1 (lawful.insert-working row s)
    where
      next : ℕ
      next = (id + 1) % 2 ^ 64

      s1 : d.State
      s1 = (d.insert (row_of max id rec) s).0

      rest : (d.State × ℕ) × Ack
      rest = insert_rows d max next records s1

      by_rest :
          (r : (d.State × ℕ) × Ack)
          → d.working s1 ≡ d.working s ++ row_of max id rec ∷ []
          → IsInserted s1 (rows_of max next records) r
          → IsInserted s (row_of max id rec ∷ rows_of max next records) r
      by_rest ((t, n), err e) h k = Same-trans s s1 t (lawful.insert-Same (row_of max id rec) s) k
      by_rest ((t, n), ok _) h (k, l) = (
        Same-trans s s1 t (lawful.insert-Same (row_of max id rec) s) k,
        l
            ∙ ap (λ rows. rows ++ rows_of max next records) h
            ∙ append_assoc (d.working s) (row_of max id rec ∷ []) (rows_of max next records),
      )

      by_result :
          IsInserted s1 (rows_of max next records) rest
          → (r : Ack) → (r ≡ ok tt → d.working s1 ≡ d.working s ++ row_of max id rec ∷ [])
          → IsInserted s
              (row_of max id rec ∷ rows_of max next records)
              (elim r as (λ _. (d.State × ℕ) × Ack) [ ok _ ↦ rest | err e ↦ ((s1, next), err e) ])
      by_result later (ok _) h = by_rest rest (h refl) later
      by_result later (err e) h = lawful.insert-Same (row_of max id rec) s

  -- What a transaction leaves: all of the rows, or none.
  abbrev IsBatch : d.State → List Row → (d.State × ℕ) × Ack → Type 0
  IsBatch s rows ((t, id), ok _) = (d.turns t ≡ d.turns s ++ rows) × SameFiles d s t
  IsBatch s rows ((t, id), err e) = Same d s t

  end_transaction-IsBatch :
      (s : d.State) (rows : List Row) (r : (d.State × ℕ) × Ack)
      → d.working s ≡ d.turns s
      → IsInserted s rows r
      → IsBatch s rows (end_transaction d r)
  unfolding end_transaction
  end_transaction-IsBatch s rows ((t, id), err e) w h = Same-trans s t _ h (lawful.rollback-Same t)
  end_transaction-IsBatch s rows ((t, id), ok _) w (h, k) =
      by_commit (d.commit t).1 (lawful.commit-ok t) (lawful.commit-err t)
    where
      t1 : d.State
      t1 = (d.commit t).0

      by_commit :
          (r : Ack)
          → (r ≡ ok tt → d.turns t1 ≡ d.working t)
          → (r ≢ ok tt → d.turns t1 ≡ d.turns t)
          → IsBatch s rows ((t1, id), r)
      by_commit (ok _) a b =
          (a refl ∙ k ∙ ap (λ xs. xs ++ rows) w, λ f. lawful.commit-SameFiles t f ∙ h.1 f)
      by_commit (err e) a b = (b (λ q. cc) ∙ h.0, λ f. lawful.commit-SameFiles t f ∙ h.1 f)

  prepared_insert-IsInserted :
      (max id : ℕ) (records : List RequestLogRecord) (s : d.State)
      → IsInserted s
          (rows_of max id records)
          (prepared_insert d max id records (d.prepare_insert s))
  unfolding prepared_insert
  prepared_insert-IsInserted max id records s =
      by_prepare (d.prepare_insert s).1 (insert_rows d max id records s1)
        (insert_rows-IsInserted max id records s1)
    where
      s1 : d.State
      s1 = (d.prepare_insert s).0

      by_prepare :
          (r : Ack) (inserted : (d.State × ℕ) × Ack)
          → IsInserted s1 (rows_of max id records) inserted
          → IsInserted s
              (rows_of max id records)
              (elim r as (λ _. (d.State × ℕ) × Ack) [ ok _ ↦ inserted | err e ↦ ((s1, id), err e) ])
      by_prepare (err e) inserted h = lawful.prepare_insert-Same s
      by_prepare (ok _) ((t, n), ok _) (h, k) = (
        Same-trans s s1 t (lawful.prepare_insert-Same s) h,
        k ∙ ap (λ xs. xs ++ rows_of max id records) (lawful.prepare_insert-working s),
      )
      by_prepare (ok _) ((t, n), err e) h = Same-trans s s1 t (lawful.prepare_insert-Same s) h

  insert_batch-IsBatch :
      (max id : ℕ) (records : List RequestLogRecord) (s : d.State)
      → IsBatch s (rows_of max id records) (insert_batch d max id records (d.begin_transaction s))
  unfolding insert_batch
  insert_batch-IsBatch max id records s =
      by_begin (d.begin_transaction s).1 (lawful.begin_transaction-working s)
    where
      s1 : d.State
      s1 = (d.begin_transaction s).0

      ended : (d.State × ℕ) × Ack
      ended = end_transaction d (prepared_insert d max id records (d.prepare_insert s1))

      same : Same d s s1
      same = lawful.begin_transaction-Same s

      from_start :
          (r : (d.State × ℕ) × Ack)
          → IsBatch s1 (rows_of max id records) r
          → IsBatch s (rows_of max id records) r
      from_start ((t, n), ok _) (h, k) =
          (h ∙ ap (λ xs. xs ++ rows_of max id records) same.0, λ f. k f ∙ same.1 f)
      from_start ((t, n), err e) h = Same-trans s s1 t same h

      by_begin :
          (r : Ack)
          → (r ≡ ok tt → d.working s1 ≡ d.turns s)
          → IsBatch s
              (rows_of max id records)
              (elim r as (λ _. (d.State × ℕ) × Ack) [ ok _ ↦ ended | err e ↦ ((s1, id), err e) ])
      by_begin (err e) w = same
      by_begin (ok _) w =
          let prepared = lawful.prepare_insert-Same s1 in
          from_start ended (
            end_transaction-IsBatch s1 (rows_of max id records)
              (prepared_insert d max id records (d.prepare_insert s1)) (w refl ∙ sym same.0)
              (prepared_insert-IsInserted max id records s1))

-- All of the buffer is in the table, or none of it.
abbrev pub IsFlushed : (d : Disk) → ReqlogConfig → Worker d → Worker d × Ack → Type 0
IsFlushed d cfg w (w1, ok _) =
    (d.turns w1.disk ≡ d.turns w.disk ++ rows_of cfg.max_body_bytes w.next_id w.buf)
    × SameFiles d w.disk w1.disk
    × (w1.buf ≡ [])
IsFlushed d cfg w (w1, err e) = Same d w.disk w1.disk × (w1.buf ≡ [])

-- A flush that says it is done has added to the table a row for each turn of the buffer, in order and under the
-- next numbers; one that fails at any statement has added none. Either way no shard is touched and the buffer
-- is empty afterwards: the turns of a batch that fails are gone.
pub flush-IsFlushed :
    (d : Disk) (lawful : IsLawful d) (cfg : ReqlogConfig) (w : Worker d)
    → IsFlushed d cfg w (flush d cfg w)
unfolding flush rows_of
flush-IsFlushed d lawful cfg w = by_buffer w.buf
  where
    of_batch :
        (buf : List RequestLogRecord) (r : (d.State × ℕ) × Ack)
        → IsBatch d lawful w.disk (rows_of cfg.max_body_bytes w.next_id buf) r
        → IsFlushed d cfg
            (record w { buf = buf })
            (record w { disk = r.0.0; buf = []; next_id = r.0.1 }, r.1)
    of_batch buf ((t, id), ok _) (h, k) = (h, k, refl)
    of_batch buf ((t, id), err e) h = (h, refl)

    by_buffer :
        (buf : List RequestLogRecord)
        → IsFlushed d cfg (record w { buf = buf }) (flush d cfg (record w { buf = buf }))
    by_buffer [] = (sym (append-nil (d.turns w.disk)), (λ f. refl), refl)
    by_buffer (rec ∷ records) =
        of_batch (rec ∷ records)
          (insert_batch d cfg.max_body_bytes w.next_id (rec ∷ records) (d.begin_transaction w.disk))
          (insert_batch-IsBatch d lawful cfg.max_body_bytes w.next_id (rec ∷ records) w.disk)
