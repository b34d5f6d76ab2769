-- ===== src/Reqlog/Shards/Rewritten.antt =====
-- crates/yb-reqlog/src/lib.rs, `Worker::forget`: a shard is rewritten without the turns of some keys.
use sovereign_gateway.Base.{
  ℕ, suc, ◌≡◌, ◌≢◌, refl, sym, ap, ◌∙◌, true, false, not, Bool-cases, List, [], ◌∷◌, inl, inr,
  Option, none, some, length, arith, String, All, select,
}
use mathlib.Core.Path.{subst}
use sovereign_gateway.Base.Int.{ℤ, pos, negsuc, pos_part}
use sovereign_gateway.Core.Errors.{Result, ok, err}
use sovereign_gateway.Reqlog.Disk.{Disk, IsLawful, Same, Ack, Row, File, is_keyed}
use sovereign_gateway.Reqlog.Worker.{
  ReqlogConfig, replace, remove_partial_shards, is_parquet, partial_of, and_then,
}
use sovereign_gateway.Reqlog.Shards.{forget_held, is_zero}
use sovereign_gateway.Reqlog.Shards.Sealed.{not-partial}

abbrev pub IsErased : List String → List Row → Type 0
IsErased keys rows = All (λ r. is_keyed keys r ≡ false) rows

pub select-IsErased :
    (keys : List String) (rows : List Row)
    → IsErased keys (select (λ r. not (is_keyed keys r)) rows)
unfolding select
select-IsErased keys [] = tt
select-IsErased keys (r ∷ rows) = elim (Bool-cases (is_keyed keys r)) [
  | inl q ↦ rw q (select-IsErased keys rows)
  | inr q ↦ rw q (q, select-IsErased keys rows)
]

none-IsErased :
    (keys : List String) (rows : List Row)
    → length (select (is_keyed keys) rows) ≡ 0
    → IsErased keys rows
unfolding select
none-IsErased keys [] h = tt
none-IsErased keys (r ∷ rows) h = elim (Bool-cases (is_keyed keys r)) [
  | inl q ↦
      absurd
        (let k : suc (length (select (is_keyed keys) rows)) ≡ 0 = rw q at h in omega (arith, k))
  | inr q ↦ (q, none-IsErased keys rows (rw q at h))
]

pub unkeyed-IsErased :
    (keys : List String) (rows : List Row)
    → All (λ r. r.turn.api_key_id ≡ none) rows
    → IsErased keys rows
unfolding is_keyed
unkeyed-IsErased keys [] h = tt
unkeyed-IsErased keys (r ∷ rows) h = (rw h.0 refl, unkeyed-IsErased keys rows h.1)

pub is_zero-pos : (n : ℤ) → is_zero n ≡ true → n ≡ pos 0
is_zero-pos (pos n) h = ap pos (ground (arith, h))
is_zero-pos (negsuc n) h = cc

module _ (d : Disk) (lawful : IsLawful d) (cfg : ReqlogConfig) (keys : List String) where
  -- One file is without the keys, and the other shards are as they were; nothing is said of a failure.
  abbrev pub IsForgotten : File → d.State → d.State × Result ℕ → Type 0
  IsForgotten path s (t, err e) = Unit
  IsForgotten path s (t, ok n) =
      (d.turns t ≡ d.turns s)
      × ((rows : List Row) → d.shard t path ≡ some rows → IsErased keys rows)
      × ((f : File) → is_parquet f ≡ true → f ≢ path → d.shard t f ≡ d.shard s f)

  -- A file written beside a shard without the keys, which may be put in its place.
  abbrev IsWritten : File → d.State → d.State × Ack → Type 0
  IsWritten path s (t, err e) = Unit
  IsWritten path s (t, ok _) =
      (d.turns t ≡ d.turns s)
      × ((rows : List Row) → d.shard t (partial_of path) ≡ some rows → IsErased keys rows)
      × ((f : File) → is_parquet f ≡ true → d.shard t f ≡ d.shard s f)

  stamp : File → Option ℕ → d.State → Unit {0} → d.State × Ack
  stamp path sealed_at s1 _ = elim sealed_at [
    | none ↦ (s1, ok tt)
    | some time ↦ d.set_modified (partial_of path) time s1
  ]

  stamp-Same : (path : File) (o : Option ℕ) (s : d.State) → Same d s (stamp path o s tt).0
  unfolding stamp
  stamp-Same path none s = (refl, λ f. refl)
  stamp-Same path (some time) s = lawful.set_modified-Same (partial_of path) time s

  stamped-IsWritten :
      (path : File) (o : Option ℕ) (s s1 : d.State)
      → IsWritten path s (s1, ok tt)
      → IsWritten path s (stamp path o s1 tt)
  stamped-IsWritten path o s s1 (a, b, c) = by_result (stamp path o s1 tt) (stamp-Same path o s1)
    where
      by_result : (r : d.State × Ack) → Same d s1 r.0 → IsWritten path s r
      by_result (t, err e) h = tt
      by_result (t, ok _) h =
          (h.0 ∙ a, λ rows e. b rows (sym (h.1 (partial_of path)) ∙ e), λ f p. h.1 f ∙ c f p)

  copied-IsWritten :
      (path : File) (o : Option ℕ) (s : d.State)
      → IsWritten path s (and_then (d.copy_unkeyed path keys (partial_of path) s) (stamp path o))
  copied-IsWritten path o s =
      by_copy (d.copy_unkeyed path keys (partial_of path) s).1
        (lawful.copy_unkeyed-ok path keys (partial_of path) s)
    where
      s1 : d.State
      s1 = (d.copy_unkeyed path keys (partial_of path) s).0

      by_copy :
          (r : Ack)
          → (r ≡ ok tt
              → (rows : List Row) × (d.shard s1 (partial_of path)
                  ≡ some (select (λ r. not (is_keyed keys r)) rows)))
          → IsWritten path s (and_then (s1, r) (stamp path o))
      by_copy (err e) h = tt
      by_copy (ok _) h = stamped-IsWritten path o s s1 (
        lawful.copy_unkeyed-turns path keys (partial_of path) s,
        λ rows e.
            let (kept, q) = h refl in
            let same : rows ≡ select (λ r. not (is_keyed keys r)) kept = cc in
            subst (IsErased keys) (sym same) (select-IsErased keys kept),
        λ f p. lawful.copy_unkeyed-others path keys (partial_of path) f s (not-partial f path p),
      )

  abbrev counting : ℤ → d.State × Ack → d.State × Result ℕ
  counting held (t, ok _) = (t, ok (pos_part held))
  counting held (t, err e) = (t, err e)

  replaced-IsForgotten :
      (path : File) (s : d.State) (held : ℤ) (written : d.State × Ack)
      → IsWritten path s written
      → IsForgotten path s (counting held (replace d (partial_of path) path written))
  unfolding replace
  replaced-IsForgotten path s held (t, err e) h = tt
  replaced-IsForgotten path s held (t, ok _) (a, b, c) =
      by_rename (d.rename (partial_of path) path t).1 (lawful.rename-ok (partial_of path) path t)
    where
      t1 : d.State
      t1 = (d.rename (partial_of path) path t).0

      by_rename :
          (r : Ack)
          → (r ≡ ok tt → d.shard t1 path ≡ d.shard t (partial_of path))
          → IsForgotten path s (
              counting held (elim r as (λ _. d.State × Ack) [
                | ok _ ↦ (t1, ok tt)
                | err e ↦ (remove_partial_shards d t1, err e)
              ]))
      by_rename (err e) h = tt
      by_rename (ok _) h = (
        lawful.rename-turns (partial_of path) path t ∙ a,
        λ rows e. b rows (sym (h refl) ∙ e),
        λ f p n. lawful.rename-others (partial_of path) path f t (not-partial f path p) n ∙ c f p,
      )

  pub forget_held-IsForgotten :
      (path : File) (s : d.State) (counted : Result ℤ)
      → d.count_keyed path keys s ≡ counted
      → IsForgotten path s (forget_held d cfg keys path s counted)
  unfolding forget_held replace stamp
  forget_held-IsForgotten path s (err e) h = tt
  forget_held-IsForgotten path s (ok held) h = elim (Bool-cases (is_zero held)) [
    | inl q ↦ rw q (
      refl,
      λ rows e. none-IsErased keys rows (
          ap pos_part (sym (lawful.count_keyed-rows path keys s rows held h e))
          ∙ ap pos_part (is_zero-pos held q)),
      λ f p n. refl,
    )
    | inr q ↦
        rw q (replaced-IsForgotten path s held _ (copied-IsWritten path (d.modified s path) s))
  ]
