-- ===== src/Reqlog/Shards/Kept.antt =====
-- crates/yb-reqlog/src/lib.rs, `Worker::rotate`: no turn that is stored is lost in a rotation.
use sovereign_gateway.Base.{
  ℕ, suc, ◌≡◌, refl, sym, ap, ◌∙◌, true, Bool-cases, List, [], ◌∷◌, inl, inr, Option, none, some,
  length, ltb, arith, ◌==◌, eq_refl, String, if◌then◌else◌,
}
use mathlib.Core.List.{Mem, mem-append_left, not-mem-nil}
use mathlib.Core.Path.{subst}
use sovereign_gateway.Base.Text.{trim}
use sovereign_gateway.Base.Int.{ℤ, pos, pos_part}
use sovereign_gateway.Core.Errors.{Result, ok, err}
use sovereign_gateway.Reqlog.Disk.{Disk, IsLawful, Ack, Row, File}
use sovereign_gateway.Reqlog.Worker.{
  ReqlogConfig, Worker, flush, count, seal, replace, remove_partial_shards, prune, is_parquet,
  partial_of, rows_of,
}
use sovereign_gateway.Reqlog.Worker.Batches.{IsFlushed, flush-IsFlushed}
use sovereign_gateway.Reqlog.Shards.{
  rotate, rotate_flushed, rotate_counted, empty_table, run_roll_hook,
}
use sovereign_gateway.Reqlog.Shards.Sealed.{
  IsKept, IsFresh, SameShards, Same-SameShards, keep, remove_partial_shards-SameShards, IsReplaced,
  replace-IsReplaced,
}

module _ (d : Disk) (lawful : IsLawful d) where
  abbrev Keeps : d.State → d.State → Type 0
  Keeps s t = (r : Row) → IsKept d s r → IsKept d t r

  abbrev IsSealed : d.State → d.State × Result (Option File) → Type 0
  IsSealed s (t, err e) = SameShards d lawful s t
  IsSealed s (t, ok none) = SameShards d lawful s t × (d.turns s ≡ [])
  IsSealed s (t, ok (some path)) =
      IsReplaced d lawful path s (t, ok tt) × (is_parquet path ≡ true) × (d.shard s path ≡ none)

  seal-IsSealed :
      (s : d.State) (rows : ℕ)
      → IsFresh d s
      → (rows ≡ 0 → d.turns s ≡ [])
      → IsSealed s (seal d s rows)
  unfolding seal
  seal-IsSealed s rows fresh empty = elim (Bool-cases (ltb 0 rows)) [
    | inl q ↦ rw q (by_replace replaced (replace-IsReplaced d lawful path s named))
    | inr q ↦ rw q ((refl, λ f p. refl), empty (ground (arith, q)))
  ]
    where
      path : File
      path = (d.shard_stamp s, "parquet")

      named : is_parquet path ≡ true
      named = eq_refl "parquet"

      by_replace :
          (r : d.State × Ack)
          → IsReplaced d lawful path s r
          → IsSealed s (elim r.1 as (λ _. d.State × Result (Option File)) [
            | ok _ ↦ (r.0, ok (some path))
            | err e ↦ (r.0, err e)
          ])
      by_replace (t, ok _) h = (h, named, fresh)
      by_replace (t, err e) h = h

      replaced : d.State × Ack
      replaced = replace d (partial_of path) path (d.copy_turns (partial_of path) s)

  run_roll_hook-SameShards :
      (cfg : ReqlogConfig) (sealed : Option File) (s : d.State)
      → SameShards d lawful s (run_roll_hook d cfg sealed s)
  unfolding run_roll_hook
  run_roll_hook-SameShards cfg none s = (refl, λ f p. refl)
  run_roll_hook-SameShards cfg (some path) s = by_command cfg.on_roll
    where
      by_command :
          (o : Option String)
          → SameShards d lawful s (elim o as (λ _. d.State) [
            | none ↦ s
            | some command ↦ if trim command == "" then s else d.run_hook path s
          ])
      by_command none = (refl, λ f p. refl)
      by_command (some command) = elim (Bool-cases (trim command == "")) [
        | inl q ↦ rw q (refl, λ f p. refl)
        | inr q ↦
            rw q (Same-SameShards d lawful s (d.run_hook path s) (lawful.run_hook-Same path s))
      ]

  -- Once the shard is there, the table is not needed.
  sealed-Keeps :
      (s t u : d.State) (sealed : Option File)
      → IsSealed s (t, ok sealed)
      → ((f : File) → is_parquet f ≡ true → d.shard u f ≡ d.shard t f)
      → Keeps s u
  sealed-Keeps s t u none (h, empty) k r (inl m) = absurd (not-mem-nil (subst (Mem r) empty m))
  sealed-Keeps s t u none (h, empty) k r (inr (f, rows, p, e, m)) =
      inr (f, rows, p, k f p ∙ h.1 f p ∙ e, m)
  sealed-Keeps s t u (some path) (h, p, n) k r (inl m) = inr (path, d.turns s, p, k path p ∙ h.1, m)
  sealed-Keeps s t u (some path) (h, p, n) k r (inr (f, rows, q, e, m)) = inr (
    f,
    rows,
    q,
    k f q ∙ h.2 f q (λ c. let lost : d.shard s f ≡ none = ap (d.shard s) c ∙ n in cc) ∙ e,
    m,
  )

  -- The table is emptied, expired shards go, if any may, and the hook runs.
  empty_table-Keeps :
      (cfg : ReqlogConfig) (w : Worker d) (r : d.State × Result (Option File))
      → IsSealed w.disk r
      → Keeps w.disk (empty_table d cfg 0 w r).0.disk
  unfolding empty_table prune
  empty_table-Keeps cfg w (t, err e) h = λ r. keep d lawful w.disk t r h
  empty_table-Keeps cfg w (t, ok sealed) h = by_delete (d.delete_turns t).1
    where
      s1 : d.State
      s1 = (d.delete_turns t).0

      s2 : d.State
      s2 = remove_partial_shards d s1

      pruned : SameShards d lawful s1 s2
      pruned = remove_partial_shards-SameShards d lawful s1

      hooked : SameShards d lawful s2 (run_roll_hook d cfg sealed s2)
      hooked = run_roll_hook-SameShards cfg sealed s2

      by_delete :
          (a : Ack)
          → Keeps w.disk
              (elim a as (λ _. Worker d × Ack) [
                | err e ↦ (record w { disk = s1 }, err e)
                | ok _ ↦ (
                  record w {
                    disk = run_roll_hook d cfg sealed s2;
                    last_rotate = d.instant s2;
                    last_date = d.today s2;
                  },
                  ok tt,
                )
              ]).0.disk
      by_delete (err e) =
          sealed-Keeps w.disk t s1 sealed h (λ f p. lawful.delete_turns-SameFiles t f)
      by_delete (ok _) =
          sealed-Keeps w.disk t (run_roll_hook d cfg sealed s2) sealed h
            (λ f p. hooked.1 f p ∙ pruned.1 f p ∙ lawful.delete_turns-SameFiles t f)

  rotate_counted-Keeps :
      (cfg : ReqlogConfig) (w : Worker d) (r : Result ℕ)
      → IsFresh d w.disk
      → ((n : ℕ) → r ≡ ok n → n ≡ 0 → d.turns w.disk ≡ [])
      → Keeps w.disk (rotate_counted d cfg 0 w r).0.disk
  unfolding rotate_counted
  rotate_counted-Keeps cfg w (err e) fresh h = λ r k. k
  rotate_counted-Keeps cfg w (ok n) fresh h =
      empty_table-Keeps cfg w (seal d w.disk n) (seal-IsSealed w.disk n fresh (h n refl))

  count-nil : (w : Worker d) (n : ℕ) → count d w ≡ ok n → n ≡ 0 → d.turns w.disk ≡ []
  unfolding count
  count-nil w n c z = by_count (d.count w.disk) (lawful.count-turns w.disk) c
    where
      nil : (rows : List Row) (m : ℤ) → m ≡ pos (length rows) → pos_part m ≡ 0 → rows ≡ []
      nil [] m q y = refl
      nil (row ∷ rows) m q y =
          let k : pos_part m ≡ suc (length rows) = ap pos_part q in absurd (omega (arith, k, y))

      by_count :
          (r : Result ℤ)
          → ((m : ℤ) → r ≡ ok m → m ≡ pos (length (d.turns w.disk)))
          → elim r as (λ _. Result ℕ) [ ok m ↦ ok (pos_part m) | err e ↦ err e ] ≡ ok n
          → d.turns w.disk ≡ []
      by_count (ok m) h e = nil (d.turns w.disk) m (h m refl) (let p : pos_part m ≡ n = cc in p ∙ z)
      by_count (err e) h q = cc

  flushed-Keeps :
      (cfg : ReqlogConfig) (w : Worker d) (r : Worker d × Ack)
      → IsFlushed d cfg w r
      → Keeps w.disk r.0.disk
  flushed-Keeps cfg w (w1, ok _) (a, b, c) r (inl m) =
      inl (subst (Mem r) (sym a) (mem-append_left (rows_of cfg.max_body_bytes w.next_id w.buf) m))
  flushed-Keeps cfg w (w1, ok _) (a, b, c) r (inr (f, rows, p, e, m)) = inr (f, rows, p, b f ∙ e, m)
  flushed-Keeps cfg w (w1, err e) (a, b) r k =
      keep d lawful w.disk w1.disk r (Same-SameShards d lawful w.disk w1.disk a) k

  rotate-Keeps :
      (cfg : ReqlogConfig) (w : Worker d)
      → IsFresh d (flush d cfg w).0.disk
      → Keeps w.disk (rotate d cfg 0 w).0.disk
  unfolding rotate rotate_flushed
  rotate-Keeps cfg w fresh = by_flush (flush d cfg w) fresh (flush-IsFlushed d lawful cfg w)
    where
      by_flush :
          (f : Worker d × Ack)
          → IsFresh d f.0.disk
          → IsFlushed d cfg w f
          → Keeps w.disk (rotate_flushed d cfg 0 f).0.disk
      by_flush (w1, err e) new h = flushed-Keeps cfg w (w1, err e) h
      by_flush (w1, ok _) new h = λ r k.
          rotate_counted-Keeps cfg w1 (count d w1) new (count-nil w1) r
            (flushed-Keeps cfg w (w1, ok tt) h r k)

-- While captures are kept until they are deleted, a rotation loses no turn that is stored: whichever of its
-- statements and file operations fails, a row of the table or of a shard is afterwards in the table or in a
-- shard, provided that the name of the new shard is not in use.
pub rotate-IsKept :
    (d : Disk) (lawful : IsLawful d) (cfg : ReqlogConfig) (w : Worker d) (r : Row)
    → IsFresh d (flush d cfg w).0.disk
    → IsKept d w.disk r
    → IsKept d (rotate d cfg 0 w).0.disk r
rotate-IsKept d lawful cfg w r fresh = rotate-Keeps d lawful cfg w fresh r
