-- ===== src/Reqlog/Worker.antt =====
-- crates/yb-reqlog/src/lib.rs, `Worker`: the batches that are inserted, and the shards that are sealed and
-- removed. Log lines are left out.
pub mod Batches
use Prim.Native.String
use sovereign_gateway.Base.{
  ℕ, zero, suc, ◌+◌, ◌-◌, ◌*◌, ◌%◌, ◌^◌, String, Bool, true, false, not, ◌&&◌, ◌||◌, Option, none,
  some, List, [], ◌∷◌, ◌++◌, ltb, leb, eqb, if◌then◌else◌, length, is_nil, take, unwrap_or, ◌==◌,
}
use sovereign_gateway.Base.Int.{ℤ, pos, pos_part, ltb_ℤ}
use sovereign_gateway.Core.Errors.{Error, Result, ok, err}
use sovereign_gateway.Core.Reqlog.{RequestLogRecord}
use sovereign_gateway.Reqlog.Disk.{flatten, Disk, File, Row, Ack}

pub record ReqlogConfig : Type 0 where
  pub queue_size : ℕ
  pub shard_max_bytes : ℕ
  pub rotate_interval : ℕ
  pub max_body_bytes : ℕ
  pub on_roll : Option String

unfoldable pub truncate : List ℕ → ℕ → List ℕ
truncate body max = if ltb 0 max && ltb max (length body) then take max body else body

-- The row that is inserted for a turn.
unfoldable pub row_of : ℕ → ℕ → RequestLogRecord → Row
unfolding truncate
row_of max id rec = record {
  id = id;
  turn = record rec {
    request_body = truncate rec.request_body max;
    response_body = truncate rec.response_body max;
    response_truncated =
        rec.response_truncated || (ltb 0 max && ltb max (length rec.response_body));
  };
}

unfoldable pub rows_of : ℕ → ℕ → List RequestLogRecord → List Row
unfolding row_of
rows_of max id [] = []
rows_of max id (rec ∷ records) = row_of max id rec ∷ rows_of max ((id + 1) % 2 ^ 64) records

abbrev pub is_parquet : File → Bool
is_parquet (stem, extension) = extension == "parquet"

abbrev pub is_partial : File → Bool
is_partial (stem, extension) = extension == "partial"

-- `with_extension("parquet.partial")`
abbrev pub partial_of : File → File
partial_of (stem, extension) = (String.◌++◌ stem ".parquet", "partial")

abbrev pub and_then {ℓ} :
    {S : Type 0} {A B : Type ℓ} → S × Result A → (S → A → S × Result B) → S × Result B
and_then (s, ok a) f = f s a
and_then (s, err e) f = (s, err e)

module _ (d : Disk) where
  pub record Worker : Type 0 where
    pub disk : d.State
    pub buf : List RequestLogRecord
    pub next_id : ℕ
    pub last_rotate : ℕ
    pub last_date : ℕ

  -- The closure of `flush`: the state, the next id, and how it went.
  unfoldable pub insert_rows : ℕ → ℕ → List RequestLogRecord → d.State → (d.State × ℕ) × Ack
  unfolding row_of
  insert_rows max id [] s = ((s, id), ok tt)
  insert_rows max id (rec ∷ records) s =
      let next = (id + 1) % 2 ^ 64 in
      let (s1, inserted) = d.insert (row_of max id rec) s in
      let rest = insert_rows max next records s1 in
      elim inserted [ ok _ ↦ rest | err e ↦ ((s1, next), err e) ]

  unfoldable pub end_transaction : (d.State × ℕ) × Ack → (d.State × ℕ) × Ack
  end_transaction ((s, id), ok _) = let (s1, committed) = d.commit s in ((s1, id), committed)
  end_transaction ((s, id), err e) = ((d.rollback s, id), err e)

  unfoldable pub prepared_insert :
      ℕ → ℕ → List RequestLogRecord → d.State × Ack → (d.State × ℕ) × Ack
  unfolding insert_rows
  prepared_insert max id records (s, ok _) = insert_rows max id records s
  prepared_insert max id records (s, err e) = ((s, id), err e)

  unfoldable pub insert_batch : ℕ → ℕ → List RequestLogRecord → d.State × Ack → (d.State × ℕ) × Ack
  unfolding prepared_insert end_transaction
  insert_batch max id records (s, err e) = ((s, id), err e)
  insert_batch max id records (s, ok _) =
      end_transaction (prepared_insert max id records (d.prepare_insert s))

  unfoldable pub flush : ReqlogConfig → Worker → Worker × Ack
  unfolding insert_batch
  flush cfg w =
      let ((s, id), done) =
        insert_batch cfg.max_body_bytes w.next_id w.buf (d.begin_transaction w.disk) in
      if is_nil w.buf then (w, ok tt) else (record w { disk = s; buf = []; next_id = id }, done)

  unfoldable pub count : Worker → Result ℕ
  count w = elim (d.count w.disk) [ ok n ↦ ok (pos_part n) | err e ↦ err e ]

  unfoldable pub remove_partials : List File → d.State → d.State
  remove_partials [] s = s
  remove_partials (f ∷ files) s =
      remove_partials files (if is_partial f then d.remove_file f s else s)

  unfoldable pub remove_partial_shards : d.State → d.State
  unfolding remove_partials flatten
  remove_partial_shards s = elim (d.read_dir s) [
    | none ↦ s
    | some entries ↦ remove_partials (flatten entries) s
  ]

  -- A rewritten file takes the place of a shard, or all partial files are removed.
  unfoldable pub replace : File → File → d.State × Ack → d.State × Ack
  unfolding remove_partial_shards
  replace partial path written =
      let (s, replaced) = and_then written (λ s _. d.rename partial path s) in
      elim replaced [ ok _ ↦ (s, ok tt) | err e ↦ (remove_partial_shards s, err e) ]

  -- The new shard, if the table has rows.
  unfoldable pub seal : d.State → ℕ → d.State × Result (Option File)
  unfolding replace
  seal s rows =
      let path : File = (d.shard_stamp s, "parquet") in
      let (s1, replaced) = replace (partial_of path) path (d.copy_turns (partial_of path) s) in
      if ltb 0 rows
      then (elim replaced [ ok _ ↦ (s1, ok (some path)) | err e ↦ (s1, err e) ])
      else (s, ok none)

  unfoldable pub remove_expired : ℕ → List File → d.State → d.State
  remove_expired cutoff [] s = s
  remove_expired cutoff (f ∷ files) s = remove_expired cutoff files (
      if is_parquet f
      then (elim (d.modified s f) [
        | none ↦ s
        | some at ↦ if ltb at cutoff then d.remove_file f s else s
      ])
      else s)

  -- A time is its number of seconds; a retention that is longer than the time so far removes nothing.
  unfoldable pub prune : ℕ → d.State → d.State
  unfolding remove_partial_shards remove_expired flatten
  prune retention_days s =
      let s1 = remove_partial_shards s in
      let age = retention_days * 86400 in
      let pruned : d.State = elim (d.read_dir s1) [
        | none ↦ s1
        | some entries ↦ remove_expired (d.now s1 - age) (flatten entries) s1
      ] in
      if eqb retention_days 0 || ltb (d.now s1) age then s1 else pruned
