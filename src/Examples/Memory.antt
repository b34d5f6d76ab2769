-- ===== src/Examples/Memory.antt =====
-- A database and a directory of shards in memory, on which nothing fails but the renaming of a file that is
-- not there.
use sovereign_gateway.Base.{
  ◌≡◌, ◌≢◌, refl, sym, ap, ◌∙◌, Bool, true, false, not, ◌&&◌, Bool-cases, List, [], ◌∷◌, ◌++◌, inl,
  inr, Option, none, some, length, arith, ◌==◌, eq_iff, String, if◌then◌else◌, select, ◌↔◌, ℕ,
}
use mathlib.Core.List.{Mem, mem-cons_self, mem-cons_of_mem}
use mathlib.Core.Path.{subst}
use sovereign_gateway.Base.Int.{pos}
use sovereign_gateway.Core.Errors.{Error, ok, err}
use sovereign_gateway.Reqlog.Disk.{Disk, IsLawful, Row, File, is_keyed, Ack}

abbrev Files : Type 0
Files = List (File × List Row)

abbrev same : File → File → Bool
same (a, b) (c, e) = a == c && b == e

same_iff : (f g : File) → (same f g ≡ true) ↔ (f ≡ g)
same_iff (a, b) (c, e) = (
  λ h.
      let p : (a == c) ≡ true = ground (arith, h) in
      let q : (b == e) ≡ true = ground (arith, h) in
      let x : a ≡ c = (eq_iff a c).0 p in let y : b ≡ e = (eq_iff b e).0 q in cc,
  λ h.
      let p = (eq_iff a c).1 (ap (λ f. f.0) h) in
      let q = (eq_iff b e).1 (ap (λ f. f.1) h) in ground (arith, p, q),
)

same_not : (f g : File) → f ≢ g → same f g ≡ false
same_not f g n = elim (Bool-cases (same f g)) [
  | inl q ↦ absurd (n ((same_iff f g).0 q))
  | inr q ↦ q
]

abbrev find : File → Files → Option (List Row)
find f [] = none
find f ((g, rows) ∷ m) = if same g f then some rows else find f m

abbrev without : File → Files → Files
without f [] = []
without f ((g, rows) ∷ m) = let rest = without f m in if same g f then rest else (g, rows) ∷ rest

find-cons_self : (f : File) (rows : List Row) (m : Files) → find f ((f, rows) ∷ m) ≡ some rows
find-cons_self f rows m = rw ((same_iff f f).1 refl) refl

find-cons : (f g : File) (rows : List Row) (m : Files) → g ≢ f → find g ((f, rows) ∷ m) ≡ find g m
find-cons f g rows m n = rw (same_not f g (λ e. n (sym e))) refl

find-without : (f g : File) (m : Files) → g ≢ f → find g (without f m) ≡ find g m
find-without f g [] n = refl
find-without f g ((h, rows) ∷ m) n = elim (Bool-cases (same h f)) [
  | inl q ↦
      let e : h ≡ f = (same_iff h f).0 q in
      let k : same h g ≡ false = same_not h g (λ x. n (sym x ∙ e)) in
      rw (q, k) (find-without f g m n)
  | inr q ↦ elim (Bool-cases (same h g)) [
    | inl k ↦ rw (q, k) refl
    | inr k ↦ rw (q, k) (find-without f g m n)
  ]
]

pub record Store : Type 0 where
  pub table : List Row
  pub transaction : List Row
  pub files : Files
  pub clock : ℕ

abbrev renamed : File → File → Store → Option (List Row) → Store × Ack
renamed f g s none = (s, err (Error.storage "no such file"))
renamed f g s (some rows) = (record s { files = (g, rows) ∷ without f s.files }, ok tt)

abbrev copied : List String → File → Store → Option (List Row) → Store × Ack
copied keys g s none = (s, err (Error.storage "no such file"))
copied keys g s (some rows) =
    (record s { files = (g, select (λ r. not (is_keyed keys r)) rows) ∷ s.files }, ok tt)

abbrev keyed_rows : List String → Option (List Row) → ℕ
keyed_rows keys none = 0
keyed_rows keys (some rows) = length (select (is_keyed keys) rows)

abbrev listing : Files → List (Option File)
listing [] = []
listing ((f, rows) ∷ m) = some f ∷ listing m

find-mem :
    (f : File) (rows : List Row) (m : Files) → find f m ≡ some rows → Mem (some f) (listing m)
find-mem f rows [] h = cc
find-mem f rows ((g, other) ∷ m) h = elim (Bool-cases (same g f)) [
  | inl q ↦ subst (λ x. Mem (some x) (some g ∷ listing m)) ((same_iff g f).0 q) mem-cons_self
  | inr q ↦ mem-cons_of_mem (some g) (find-mem f rows m (rw q at h))
]

abbrev pub memory : Disk
memory = record {
  State = Store;
  turns = λ s. s.table;
  working = λ s. s.transaction;
  shard = λ s f. find f s.files;
  begin_transaction = λ s. (record s { transaction = s.table }, ok tt);
  prepare_insert = λ s. (s, ok tt);
  insert = λ r s. (record s { transaction = s.transaction ++ r ∷ [] }, ok tt);
  commit = λ s. (record s { table = s.transaction }, ok tt);
  rollback = λ s. s;
  count = λ s. ok (pos (length s.table));
  copy_turns = λ f s. (record s { files = (f, s.table) ∷ s.files }, ok tt);
  delete_turns = λ s. (record s { table = [] }, ok tt);
  checkpoint = λ s. (s, ok tt);
  delete_keyed = λ keys s. (
    record s { table = select (λ r. not (is_keyed keys r)) s.table },
    ok (length (select (is_keyed keys) s.table)),
  );
  count_key_column = λ f s. ok (pos 1);
  count_keyed = λ f keys s. ok (pos (keyed_rows keys (find f s.files)));
  copy_unkeyed = λ f keys g s. copied keys g s (find f s.files);
  rename = λ f g s. renamed f g s (find f s.files);
  remove_file = λ f s. record s { files = without f s.files };
  set_modified = λ f at s. (s, ok tt);
  modified = λ s f. some 0;
  try_clone = λ s. ok tt;
  read_dir = λ s. some (listing s.files);
  wal_size = λ s. length s.table;
  shard_stamp = λ s. "2026-11-26";
  today = λ s. 0;
  instant = λ s. s.clock;
  now = λ s. s.clock;
  run_hook = λ f s. s;
}

renamed-others :
    (f g h : File) (s : Store) (o : Option (List Row))
    → h ≢ f
    → h ≢ g
    → find h (renamed f g s o).0.files ≡ find h s.files
renamed-others f g h s none n k = refl
renamed-others f g h s (some rows) n k =
    find-cons g h rows (without f s.files) k ∙ find-without f h s.files n

renamed-ok :
    (f g : File) (s : Store) (o : Option (List Row))
    → (renamed f g s o).1 ≡ ok tt
    → find g (renamed f g s o).0.files ≡ o
renamed-ok f g s none h = cc
renamed-ok f g s (some rows) h = find-cons_self g rows (without f s.files)

renamed-err :
    (f g : File) (s : Store) (o : Option (List Row))
    → (renamed f g s o).1 ≢ ok tt
    → ((renamed f g s o).0.table ≡ s.table)
      × ((h : File) → find h (renamed f g s o).0.files ≡ find h s.files)
renamed-err f g s none h = (refl, λ x. refl)
renamed-err f g s (some rows) h = absurd (h refl)

renamed-table :
    (f g : File) (s : Store) (o : Option (List Row)) → (renamed f g s o).0.table ≡ s.table
renamed-table f g s none = refl
renamed-table f g s (some rows) = refl

copied-table :
    (keys : List String) (g : File) (s : Store) (o : Option (List Row))
    → (copied keys g s o).0.table ≡ s.table
copied-table keys g s none = refl
copied-table keys g s (some rows) = refl

copied-others :
    (keys : List String) (g h : File) (s : Store) (o : Option (List Row))
    → h ≢ g
    → find h (copied keys g s o).0.files ≡ find h s.files
copied-others keys g h s none n = refl
copied-others keys g h s (some rows) n = find-cons g h _ s.files n

copied-ok :
    (keys : List String) (g : File) (s : Store) (o : Option (List Row))
    → (copied keys g s o).1 ≡ ok tt
    → (rows : List Row) × (find g (copied keys g s o).0.files
        ≡ some (select (λ r. not (is_keyed keys r)) rows))
copied-ok keys g s none h = cc
copied-ok keys g s (some rows) h = (rows, find-cons_self g _ s.files)

one_column : ok (pos 1) ≡ ok (pos 0) → ⊥
one_column h = let one : ℕ = 1 in let k : one ≡ 0 = cc in omega (arith, k)

pub memory-IsLawful : IsLawful memory
memory-IsLawful = record {
  begin_transaction-Same = λ s. (refl, λ f. refl);
  begin_transaction-working = λ s h. refl;
  prepare_insert-Same = λ s. (refl, λ f. refl);
  prepare_insert-working = λ s. refl;
  insert-Same = λ r s. (refl, λ f. refl);
  insert-working = λ r s h. refl;
  commit-SameFiles = λ s f. refl;
  commit-ok = λ s h. refl;
  commit-err = λ s h. absurd (h refl);
  rollback-Same = λ s. (refl, λ f. refl);
  count-turns = λ s n h. cc;
  copy_turns-turns = λ f s. refl;
  copy_turns-others = λ f g s n. find-cons f g s.table s.files n;
  copy_turns-ok = λ f s h. find-cons_self f s.table s.files;
  delete_turns-SameFiles = λ s f. refl;
  checkpoint-Same = λ s. (refl, λ f. refl);
  delete_keyed-SameFiles = λ keys s f. refl;
  delete_keyed-ok = λ keys s n h. refl;
  rename-turns = λ f g s. renamed-table f g s (find f s.files);
  rename-others = λ f g h s. renamed-others f g h s (find f s.files);
  rename-ok = λ f g s. renamed-ok f g s (find f s.files);
  rename-err = λ f g s. renamed-err f g s (find f s.files);
  remove_file-turns = λ f s. refl;
  remove_file-others = λ f g s n. find-without f g s.files n;
  remove_file-modified = λ f g s n. refl;
  run_hook-Same = λ f s. (refl, λ g. refl);
  count_key_column-zero = λ f s rows h e. absurd (one_column h);
  count_keyed-rows = λ f keys s rows n h e.
      let k : n ≡ pos (keyed_rows keys (find f s.files)) = cc in
      k ∙ ap (λ o. pos (keyed_rows keys o)) e;
  copy_unkeyed-turns = λ f keys g s. copied-table keys g s (find f s.files);
  copy_unkeyed-others = λ f keys g h s. copied-others keys g h s (find f s.files);
  copy_unkeyed-ok = λ f keys g s. copied-ok keys g s (find f s.files);
  set_modified-Same = λ f at s. (refl, λ g. refl);
  read_dir-shards = λ s entries f rows h e.
      let k : listing s.files ≡ entries = cc in
      inl (subst (Mem (some f)) k (find-mem f rows s.files e));
}
