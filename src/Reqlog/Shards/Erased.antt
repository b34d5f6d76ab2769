-- ===== src/Reqlog/Shards/Erased.antt =====
-- crates/yb-reqlog/src/lib.rs, `Worker::forget`: after it, no turn of a key is stored.
use mathlib.Core.Logic.Or
use sovereign_gateway.Base.{
  ℕ, ◌+◌, ◌%◌, ◌^◌, ◌≡◌, ◌≢◌, refl, sym, ap, ◌∙◌, Bool, true, false, not, Bool-cases, List, [], ◌∷◌,
  ◌⊎◌, inl, inr, Option, none, some, ◌==◌, eq_iff, String, if◌then◌else◌, select, All-mem,
}
use mathlib.Core.Bool.{Bool-set}
use mathlib.Core.List.{Mem, not-mem-nil, mem-cons, mem-cons_self, mem-cons_of_mem}
use mathlib.Core.Path.{subst}
use sovereign_gateway.Base.Int.{ℤ}
use sovereign_gateway.Core.Errors.{Result, ok, err}
use sovereign_gateway.Reqlog.Disk.{flatten, Disk, IsLawful, Same, Ack, Row, File, is_keyed}
use sovereign_gateway.Reqlog.Worker.{ReqlogConfig, is_parquet, and_then}
use sovereign_gateway.Reqlog.Shards.{
  forget_keys, forget_files, forget_shards, forget_shard, is_zero,
}
use sovereign_gateway.Reqlog.Shards.Sealed.{IsKept}
use sovereign_gateway.Reqlog.Shards.Rewritten.{
  IsErased, IsForgotten, forget_held-IsForgotten, unkeyed-IsErased, is_zero-pos, select-IsErased,
}

-- A listing of which nothing is passed over.
abbrev pub IsReadable : Option (List (Option File)) → Type 0
IsReadable none = ⊥
IsReadable (some entries) = Mem none entries → ⊥

not-mem-flatten-some :
    (f : File) (entries : List (Option File))
    → (Mem f (flatten entries) → ⊥)
    → Mem (some f) entries
    → ⊥
unfolding flatten
not-mem-flatten-some f [] absent h = not-mem-nil h
not-mem-flatten-some f (none ∷ entries) absent h =
    Or.elim (λ x y. absurd x) (mem-cons.0 h) (λ (e : some f ≡ none). cc)
      (not-mem-flatten-some f entries absent)
not-mem-flatten-some f (some g ∷ entries) absent h =
    Or.elim (λ x y. absurd x) (mem-cons.0 h)
      (λ (e : some f ≡ some g).
        let same : f ≡ g = cc in
        absent (subst (λ x. Mem x (g ∷ flatten entries)) (sym same) mem-cons_self))
      (not-mem-flatten-some f entries (λ m. absent (mem-cons_of_mem g m)))

not-mem-flatten :
    (f : File) (entries : List (Option File))
    → IsReadable (some entries)
    → Mem (some f) entries ⊎ Mem none entries
    → (Mem f (flatten entries) → ⊥)
    → ⊥
not-mem-flatten f entries readable (inl m) absent = not-mem-flatten-some f entries absent m
not-mem-flatten f entries readable (inr m) absent = readable m

module _ (d : Disk) (lawful : IsLawful d) (cfg : ReqlogConfig) (keys : List String) where
  forget_shard-IsForgotten :
      (path : File) (s : d.State) (keyed : Result ℤ)
      → d.count_key_column path s ≡ keyed
      → IsForgotten d lawful cfg keys path s (forget_shard d cfg keys path s keyed)
  unfolding forget_shard
  forget_shard-IsForgotten path s (err e) h = tt
  forget_shard-IsForgotten path s (ok keyed) h = elim (Bool-cases (is_zero keyed)) [
    | inl q ↦ rw q (
      refl,
      λ rows e.
          unkeyed-IsErased keys rows
            (lawful.count_key_column-zero path s rows (h ∙ ap ok (is_zero-pos keyed q)) e),
      λ f p n. refl,
    )
    | inr q ↦
        rw q (forget_held-IsForgotten d lawful cfg keys path s (d.count_keyed path keys s) refl)
  ]

  -- Each shard is without the keys, or is as it was and not one of the files.
  abbrev IsSwept : List File → d.State → d.State × Result ℕ → Type 0
  IsSwept files s (t, err e) = Unit
  IsSwept files s (t, ok n) =
      (d.turns t ≡ d.turns s)
      × ((f : File) (rows : List Row)
          → is_parquet f ≡ true
          → d.shard t f ≡ some rows
          → IsErased keys rows ⊎ ((d.shard s f ≡ some rows) × (Mem f files → ⊥)))

  same_file :
      (f path : File) → is_parquet f ≡ true → is_parquet path ≡ true → (f ≡ path) ⊎ (f ≢ path)
  same_file (a, b) (a1, b1) p q = elim (Bool-cases (a == a1)) [
    | inl e ↦
        let k : b ≡ b1 = (eq_iff b "parquet").0 p ∙ sym ((eq_iff b1 "parquet").0 q) in
        let h : a ≡ a1 = (eq_iff a a1).0 e in inl cc
    | inr e ↦ inr (λ k.
        let h : a ≡ a1 = ap (λ f. f.0) k in let y : (a == a1) ≡ true = (eq_iff a a1).1 h in cc)
  ]

  not-mem :
      (f path : File) (files : List File) → f ≢ path → (Mem f files → ⊥) → Mem f (path ∷ files) → ⊥
  not-mem f path files n h m = Or.elim (λ x y. absurd x) (mem-cons.0 m) n h

  IsSwept-cons :
      (path : File) (files : List File) (s s1 : d.State) (n : ℕ) (r : d.State × Result ℕ)
      → is_parquet path ≡ true
      → IsForgotten d lawful cfg keys path s (s1, ok n)
      → IsSwept files s1 r
      → IsSwept (path ∷ files) s r
  IsSwept-cons path files s s1 n (t, err e) q h k = tt
  IsSwept-cons path files s s1 n (t, ok m) q (a, b, c) (turns, swept) = (
    turns ∙ a,
    λ f rows p e. elim (swept f rows p e) [
      | inl clean ↦ inl clean
      | inr (e1, absent) ↦ elim (same_file f path p q) [
        | inl x ↦ inl (b rows (ap (d.shard s1) (sym x) ∙ e1))
        | inr x ↦ inr (sym (c f p x) ∙ e1, not-mem f path files x absent)
      ]
    ],
  )

  IsSwept-skip :
      (path : File) (files : List File) (s : d.State) (r : d.State × Result ℕ)
      → is_parquet path ≡ false
      → IsSwept files s r
      → IsSwept (path ∷ files) s r
  IsSwept-skip path files s (t, err e) q h = tt
  IsSwept-skip path files s (t, ok m) q (turns, swept) = (
    turns,
    λ f rows p e. elim (swept f rows p e) [
      | inl clean ↦ inl clean
      | inr (e1, absent) ↦ inr (
        e1,
        not-mem f path files (λ x. let k : is_parquet f ≡ false = ap is_parquet x ∙ q in cc) absent,
      )
    ],
  )

  forget_shards-IsSwept :
      (files : List File) (n : ℕ) (s : d.State)
      → IsSwept files s (forget_shards d cfg keys files n s)
  unfolding forget_shards
  forget_shards-IsSwept [] n s = (refl, λ f rows p e. inr (e, not-mem-nil))
  forget_shards-IsSwept (path ∷ files) n s =
      by_kind (is_parquet path) refl (λ s1 m. forget_shards-IsSwept files ((n + m) % 2 ^ 64) s1)
    where
      swept : d.State × Result ℕ → d.State × Result ℕ
      swept r = elim r.1 [
        | err e ↦ (r.0, err e)
        | ok m ↦ forget_shards d cfg keys files ((n + m) % 2 ^ 64) r.0
      ]

      here :
          (r : d.State × Result ℕ)
          → IsForgotten d lawful cfg keys path s r
          → ((s1 : d.State) (m : ℕ)
              → IsSwept files s1 (forget_shards d cfg keys files ((n + m) % 2 ^ 64) s1))
          → is_parquet path ≡ true
          → IsSwept (path ∷ files) s (swept r)
      here (s1, err e) h later q = tt
      here (s1, ok m) h later q =
          IsSwept-cons path files s s1 m (forget_shards d cfg keys files ((n + m) % 2 ^ 64) s1) q h
            (later s1 m)

      by_kind :
          (b : Bool)
          → is_parquet path ≡ b
          → ((s1 : d.State) (m : ℕ)
              → IsSwept files s1 (forget_shards d cfg keys files ((n + m) % 2 ^ 64) s1))
          → IsSwept (path ∷ files) s (
              swept (
                if b
                then forget_shard d cfg keys path s (d.count_key_column path s)
                else (s, ok 0)))
      by_kind true q later =
          here (forget_shard d cfg keys path s (d.count_key_column path s))
            (forget_shard-IsForgotten path s (d.count_key_column path s) refl) later q
      by_kind false q later =
          IsSwept-skip path files s (forget_shards d cfg keys files ((n + 0) % 2 ^ 64) s) q
            (later s 0)

  -- No row that is stored is of the keys; nothing is said of a failure.
  abbrev IsClean : d.State × Result ℕ → Type 0
  IsClean (t, err e) = Unit
  IsClean (t, ok n) = (r : Row) → IsKept d t r → is_keyed keys r ≡ false

  of_rows : (rows : List Row) (r : Row) → IsErased keys rows → Mem r rows → is_keyed keys r ≡ false
  of_rows rows r h m = All-mem (λ r. is_keyed keys r ≡ false) (λ x. Bool-set _ _) rows h m

  swept-IsClean :
      (entries : List (Option File)) (s t : d.State) (n : ℕ)
      → IsReadable (some entries)
      → d.read_dir s ≡ some entries
      → IsErased keys (d.turns s)
      → IsSwept (flatten entries) s (t, ok n)
      → IsClean (t, ok n)
  swept-IsClean entries s t n readable listing clean (turns, swept) r (inl m) =
      of_rows (d.turns s) r clean (subst (Mem r) turns m)
  swept-IsClean entries s t n readable listing clean (turns, swept) r (inr (f, rows, p, e, m)) =
      elim (swept f rows p e) [
        | inl erased ↦ of_rows rows r erased m
        | inr (e1, absent) ↦ absurd (
            not-mem-flatten f entries readable (lawful.read_dir-shards s entries f rows listing e1)
              absent)
      ]

  IsClean-Same : (t u : d.State) (n m : ℕ) → Same d t u → IsClean (t, ok n) → IsClean (u, ok m)
  IsClean-Same t u n m h c r (inl k) = c r (inl (subst (Mem r) h.0 k))
  IsClean-Same t u n m h c r (inr (f, rows, p, e, k)) = c r (inr (f, rows, p, sym (h.1 f) ∙ e, k))

  forget_files-IsClean :
      (n : ℕ) (s : d.State) (listing : Option (List (Option File)))
      → IsReadable listing
      → d.read_dir s ≡ listing
      → IsErased keys (d.turns s)
      → IsClean (forget_files d cfg keys n s listing)
  unfolding forget_files
  forget_files-IsClean n s none listed q clean = absurd listed
  forget_files-IsClean n s (some entries) listed q clean =
      by_sweep (forget_shards d cfg keys (flatten entries) n s)
        (forget_shards-IsSwept (flatten entries) n s)
    where
      by_checkpoint :
          (t : d.State) (m : ℕ) (a : Ack)
          → IsClean (t, ok m)
          → IsClean (elim a as (λ _. d.State × Result ℕ) [
            | err e ↦ ((d.checkpoint t).0, err e)
            | ok _ ↦ ((d.checkpoint t).0, ok m)
          ])
      by_checkpoint t m (err e) c = tt
      by_checkpoint t m (ok _) c =
          IsClean-Same t (d.checkpoint t).0 m m (lawful.checkpoint-Same t) c

      by_sweep :
          (r : d.State × Result ℕ)
          → IsSwept (flatten entries) s r
          → IsClean (
              and_then r (λ s1 m.
                let (s2, checked) = d.checkpoint s1 in
                elim checked as (λ _. d.State × Result ℕ) [
                  | err e ↦ (s2, err e)
                  | ok _ ↦ (s2, ok m)
                ]))
      by_sweep (t, err e) h = tt
      by_sweep (t, ok m) h =
          by_checkpoint t m (d.checkpoint t).1 (swept-IsClean entries s t m listed q clean h)

  forget_keys-IsClean :
      (s : d.State)
      → IsReadable (d.read_dir (d.delete_keyed keys s).0)
      → IsClean (forget_keys d cfg keys s)
  unfolding forget_keys
  forget_keys-IsClean s listed = by_delete (d.delete_keyed keys s).1 (lawful.delete_keyed-ok keys s)
    where
      s1 : d.State
      s1 = (d.delete_keyed keys s).0

      by_delete :
          (r : Result ℕ)
          → ((n : ℕ) → r ≡ ok n → d.turns s1 ≡ select (λ r. not (is_keyed keys r)) (d.turns s))
          → IsClean (and_then (s1, r) (λ s2 n. forget_files d cfg keys n s2 (d.read_dir s2)))
      by_delete (err e) h = tt
      by_delete (ok n) h =
          forget_files-IsClean n s1 (d.read_dir s1) listed refl
            (subst (IsErased keys) (sym (h n refl)) (select-IsErased keys (d.turns s)))

-- Where the directory of shards can be listed and each entry of the listing read, once the table is rid of the
-- turns of keys, the turns are gone when their removal says it is done: no row of the table and no row of a
-- shard carries one of the keys.
pub forget_keys-IsErased :
    (d : Disk) (lawful : IsLawful d) (cfg : ReqlogConfig) (keys : List String) (s t : d.State)
    (n : ℕ)
    → IsReadable (d.read_dir (d.delete_keyed keys s).0)
    → forget_keys d cfg keys s ≡ (t, ok n)
    → (r : Row) → IsKept d t r
    → is_keyed keys r ≡ false
forget_keys-IsErased d lawful cfg keys s t n listed h =
    subst (IsClean d lawful cfg keys) h (forget_keys-IsClean d lawful cfg keys s listed)
