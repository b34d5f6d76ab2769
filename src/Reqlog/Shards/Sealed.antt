-- ===== src/Reqlog/Shards/Sealed.antt =====
-- crates/yb-reqlog/src/lib.rs, `Worker::rotate`: a shard is written beside the others and then put in its place.
use sovereign_gateway.Base.{
  ◌≡◌, ◌≢◌, refl, sym, ap, ◌∙◌, true, false, Bool-cases, List, [], ◌∷◌, ◌⊎◌, inl, inr, Option, none,
  some, ◌==◌, eq_iff,
}
use mathlib.Core.List.{Mem}
use mathlib.Core.Path.{subst}
use sovereign_gateway.Core.Errors.{ok, err}
use sovereign_gateway.Reqlog.Disk.{flatten, Disk, IsLawful, Same, Ack, Row, File}
use sovereign_gateway.Reqlog.Worker.{
  replace, remove_partials, remove_partial_shards, is_parquet, is_partial, partial_of, and_then,
}

-- The row is in the table, or in a shard.
abbrev pub IsKept : (d : Disk) → d.State → Row → Type 0
IsKept d s r =
    Mem r (d.turns s)
    ⊎ ((f : File) × (rows : List Row) × (is_parquet f ≡ true)
        × (d.shard s f ≡ some rows)
        × Mem r rows)

-- The name of the next shard is not the one of a shard that is there.
abbrev pub IsFresh : (d : Disk) → d.State → Type 0
IsFresh d s = d.shard s (d.shard_stamp s, "parquet") ≡ none

pub not-partial : (f g : File) → is_parquet f ≡ true → f ≢ partial_of g
not-partial f g h q = let k : is_parquet f ≡ false = ap is_parquet q in cc

pub not-both : (f : File) → is_parquet f ≡ true → is_partial f ≡ true → ⊥
not-both (stem, extension) p q =
    let e : extension ≡ "parquet" = (eq_iff extension "parquet").0 p in
    let k : ("parquet" == "partial") ≡ true = subst (λ x. (x == "partial") ≡ true) e q in cc

module _ (d : Disk) (lawful : IsLawful d) where
  -- Shards and what the table holds are the same; a partial file may be another.
  abbrev pub SameShards : d.State → d.State → Type 0
  SameShards s t =
      (d.turns t ≡ d.turns s) × ((f : File) → is_parquet f ≡ true → d.shard t f ≡ d.shard s f)

  pub SameShards-trans : (s t u : d.State) → SameShards s t → SameShards t u → SameShards s u
  SameShards-trans s t u h k = (k.0 ∙ h.0, λ f p. k.1 f p ∙ h.1 f p)

  pub Same-SameShards : (s t : d.State) → Same d s t → SameShards s t
  Same-SameShards s t h = (h.0, λ f p. h.1 f)

  pub keep : (s t : d.State) (r : Row) → SameShards s t → IsKept d s r → IsKept d t r
  keep s t r h (inl m) = inl (subst (Mem r) (sym h.0) m)
  keep s t r h (inr (f, rows, p, e, m)) = inr (f, rows, p, h.1 f p ∙ e, m)

  remove_partials-SameShards :
      (files : List File) (s : d.State) → SameShards s (remove_partials d files s)
  unfolding remove_partials
  remove_partials-SameShards [] s = (refl, λ f p. refl)
  remove_partials-SameShards (f ∷ files) s = elim (Bool-cases (is_partial f)) [
    | inl q ↦
        let s1 = d.remove_file f s in
        rw q (
          SameShards-trans s s1 (remove_partials d files s1)
            (
              lawful.remove_file-turns f s,
              λ g p. lawful.remove_file-others f g s (λ e. not-both g p (ap is_partial e ∙ q)),
            )
            (remove_partials-SameShards files s1))
    | inr q ↦ rw q (remove_partials-SameShards files s)
  ]

  pub remove_partial_shards-SameShards : (s : d.State) → SameShards s (remove_partial_shards d s)
  unfolding remove_partial_shards
  remove_partial_shards-SameShards s = by_listing (d.read_dir s)
    where
      by_listing :
          (listing : Option (List (Option File)))
          → SameShards s (elim listing as (λ _. d.State) [
            | none ↦ s
            | some entries ↦ remove_partials d (flatten entries) s
          ])
      by_listing none = (refl, λ f p. refl)
      by_listing (some entries) = remove_partials-SameShards (flatten entries) s

  -- What is left when a table with rows was to be sealed under a name.
  abbrev pub IsReplaced : File → d.State → d.State × Ack → Type 0
  IsReplaced path s (t, err e) = SameShards s t
  IsReplaced path s (t, ok _) =
      (d.turns t ≡ d.turns s)
      × (d.shard t path ≡ some (d.turns s))
      × ((f : File) → is_parquet f ≡ true → f ≢ path → d.shard t f ≡ d.shard s f)

  pub replace-IsReplaced :
      (path : File) (s : d.State)
      → is_parquet path ≡ true
      → IsReplaced path s (replace d (partial_of path) path (d.copy_turns (partial_of path) s))
  unfolding replace
  replace-IsReplaced path s p =
      by_copy (d.copy_turns (partial_of path) s).1 (lawful.copy_turns-ok (partial_of path) s)
    where
      s1 : d.State
      s1 = (d.copy_turns (partial_of path) s).0

      copied : SameShards s s1
      copied = (
        lawful.copy_turns-turns (partial_of path) s,
        λ f q. lawful.copy_turns-others (partial_of path) f s (not-partial f path q),
      )

      undone : (t : d.State) → SameShards s t → SameShards s (remove_partial_shards d t)
      undone t h =
          SameShards-trans s t (remove_partial_shards d t) h (remove_partial_shards-SameShards t)

      s2 : d.State
      s2 = (d.rename (partial_of path) path s1).0

      by_rename :
          (r : Ack)
          → d.shard s1 (partial_of path) ≡ some (d.turns s)
          → (r ≡ ok tt → d.shard s2 path ≡ d.shard s1 (partial_of path))
          → (r ≢ ok tt → Same d s1 s2)
          → IsReplaced path s (elim r as (λ _. d.State × Ack) [
            | ok _ ↦ (s2, ok tt)
            | err e ↦ (remove_partial_shards d s2, err e)
          ])
      by_rename (ok _) c a b = (
        lawful.rename-turns (partial_of path) path s1 ∙ copied.0,
        a refl ∙ c,
        λ f q n.
            lawful.rename-others (partial_of path) path f s1 (not-partial f path q) n
            ∙ copied.1 f q,
      )
      by_rename (err e) c a b =
          undone s2 (SameShards-trans s s1 s2 copied (Same-SameShards s1 s2 (b (λ q. cc))))

      by_copy :
          (r : Ack)
          → (r ≡ ok tt → d.shard s1 (partial_of path) ≡ some (d.turns s))
          → IsReplaced path s (
              let (t, replaced) : d.State × Ack =
                and_then (s1, r) (λ t _. d.rename (partial_of path) path t) in
              elim replaced as (λ _. d.State × Ack) [
                | ok _ ↦ (t, ok tt)
                | err e ↦ (remove_partial_shards d t, err e)
              ])
      by_copy (err e) c = undone s1 copied
      by_copy (ok _) c =
          by_rename (d.rename (partial_of path) path s1).1 (c refl)
            (lawful.rename-ok (partial_of path) path s1)
            (lawful.rename-err (partial_of path) path s1)
