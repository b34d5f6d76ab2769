-- ===== src/Reqlog/Shards.antt =====
-- crates/yb-reqlog/src/lib.rs, `Worker`: the rotation of the table into shards, and the removal of the turns of
-- keys. What is only logged is left out.
pub mod Sealed
pub mod Kept
pub mod Rewritten
pub mod Erased
use sovereign_gateway.Base.{
  ℕ, ◌+◌, ◌-◌, ◌%◌, ◌^◌, String, Bool, false, not, ◌||◌, Option, none, some, List, [], ◌∷◌, ltb,
  leb, eqb, if◌then◌else◌, ◌==◌,
}
use sovereign_gateway.Base.Int.{ℤ, pos, negsuc, pos_part}
use sovereign_gateway.Base.Text.{trim}
use sovereign_gateway.Core.Errors.{Result, ok, err}
use sovereign_gateway.Reqlog.Disk.{flatten, Disk, File, Ack}
use sovereign_gateway.Reqlog.Worker.{
  ReqlogConfig, Worker, flush, count, seal, prune, replace, and_then, is_parquet, partial_of,
}

abbrev pub is_zero : ℤ → Bool
is_zero (pos n) = eqb n 0
is_zero (negsuc n) = false

module _ (d : Disk) (cfg : ReqlogConfig) where
  unfoldable pub run_roll_hook : Option File → d.State → d.State
  unfolding trim
  run_roll_hook none s = s
  run_roll_hook (some path) s = elim cfg.on_roll [
    | none ↦ s
    | some command ↦ if trim command == "" then s else d.run_hook path s
  ]

  -- After the shard is sealed: the table is emptied, old shards go, and the clocks are set.
  unfoldable pub empty_table : ℕ → Worker d → d.State × Result (Option File) → Worker d × Ack
  unfolding prune run_roll_hook
  empty_table retention_days w (s, err e) = (record w { disk = s }, err e)
  empty_table retention_days w (s, ok sealed) =
      let (s1, emptied) = d.delete_turns s in
      let s2 = prune d retention_days s1 in
      elim emptied [
        | err e ↦ (record w { disk = s1 }, err e)
        | ok _ ↦ (
          record w {
            disk = run_roll_hook sealed s2;
            last_rotate = d.instant s2;
            last_date = d.today s2;
          },
          ok tt,
        )
      ]

  unfoldable pub rotate_counted : ℕ → Worker d → Result ℕ → Worker d × Ack
  unfolding seal empty_table
  rotate_counted retention_days w (err e) = (w, err e)
  rotate_counted retention_days w (ok rows) = empty_table retention_days w (seal d w.disk rows)

  unfoldable pub rotate_flushed : ℕ → Worker d × Ack → Worker d × Ack
  unfolding rotate_counted count
  rotate_flushed retention_days (w, err e) = (w, err e)
  rotate_flushed retention_days (w, ok _) = rotate_counted retention_days w (count d w)

  unfoldable pub rotate : ℕ → Worker d → Worker d × Ack
  unfolding flush rotate_flushed
  rotate retention_days w = rotate_flushed retention_days (flush d cfg w)

  unfoldable pub maybe_rotate : ℕ → Worker d → Worker d
  unfolding rotate
  maybe_rotate retention_days w =
      if leb cfg.rotate_interval (d.instant w.disk - w.last_rotate)
        || not (eqb (d.today w.disk) w.last_date)
        || ltb cfg.shard_max_bytes (d.wal_size w.disk)
      then (rotate retention_days w).0
      else w

  -- A shard is rewritten without the turns of the keys, with the time that it was sealed.
  unfoldable pub forget_held : List String → File → d.State → Result ℤ → d.State × Result ℕ
  unfolding replace
  forget_held keys path s (err e) = (s, err e)
  forget_held keys path s (ok held) =
      let sealed_at = d.modified s path in
      let written = and_then (d.copy_unkeyed path keys (partial_of path) s) (λ s1 _.
        elim sealed_at [
          | none ↦ (s1, ok tt)
          | some time ↦ d.set_modified (partial_of path) time s1
        ]) in
      let (s1, replaced) = replace d (partial_of path) path written in
      if is_zero held
      then (s, ok 0)
      else (elim replaced [ ok _ ↦ (s1, ok (pos_part held)) | err e ↦ (s1, err e) ])

  -- The turns of the keys in one file of the directory, which are counted.
  unfoldable pub forget_shard : List String → File → d.State → Result ℤ → d.State × Result ℕ
  unfolding forget_held
  forget_shard keys path s (err e) = (s, err e)
  forget_shard keys path s (ok keyed) =
      if is_zero keyed then (s, ok 0) else forget_held keys path s (d.count_keyed path keys s)

  unfoldable pub forget_shards : List String → List File → ℕ → d.State → d.State × Result ℕ
  unfolding forget_shard
  forget_shards keys [] forgotten s = (s, ok forgotten)
  forget_shards keys (path ∷ files) forgotten s =
      let here : d.State × Result ℕ =
        if is_parquet path
        then forget_shard keys path s (d.count_key_column path s)
        else (s, ok 0) in
      elim here.1 [
        | err e ↦ (here.0, err e)
        | ok n ↦ forget_shards keys files ((forgotten + n) % 2 ^ 64) here.0
      ]

  unfoldable pub forget_files :
      List String → ℕ → d.State → Option (List (Option File)) → d.State × Result ℕ
  unfolding forget_shards flatten
  forget_files keys forgotten s none = (s, ok forgotten)
  forget_files keys forgotten s (some entries) =
      and_then (forget_shards keys (flatten entries) forgotten s) (λ s1 n.
        let (s2, checked) = d.checkpoint s1 in
        elim checked [ err e ↦ (s2, err e) | ok _ ↦ (s2, ok n) ])

  unfoldable pub forget_keys : List String → d.State → d.State × Result ℕ
  unfolding forget_files
  forget_keys keys s =
      and_then (d.delete_keyed keys s)
        (λ s1 forgotten. forget_files keys forgotten s1 (d.read_dir s1))
