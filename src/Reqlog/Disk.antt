-- ===== src/Reqlog/Disk.antt =====
-- What the worker of crates/yb-reqlog/src/lib.rs calls: DuckDB on one connection, the files of the directory of
-- shards, and the clock. They are a parameter over an unknown state, and `IsLawful` is what the worker relies on:
-- what DuckDB documents of transactions and of COPY, and what a file system does.
use sovereign_gateway.Base.{
  All, ℕ, String, ◌≡◌, ◌≢◌, Bool, List, [], ◌∷◌, ◌++◌, Option, none, some, length, any, ◌==◌,
  select, not, ◌⊎◌,
}
use mathlib.Core.List.{Mem}
use sovereign_gateway.Base.Int.{ℤ, pos}
use sovereign_gateway.Core.Errors.{Result, ok}
use sovereign_gateway.Core.Reqlog.{RequestLogRecord}

-- A file of the directory: its stem and its extension.
abbrev pub File : Type 0
File = String × String

-- A row of the table `turns`; the texts of the time and the date are functions of the turn's `ts`.
pub record Row : Type 0 where
  pub id : ℕ
  pub turn : RequestLogRecord

-- `api_key_id IN (...)`
unfoldable pub is_keyed : List String → Row → Bool
unfolding any
is_keyed keys row = elim row.turn.api_key_id [
  | none ↦ Bool.false
  | some id ↦ any (λ key. key == id) keys
]

abbrev pub Ack : Type 0
Ack = Result (Unit {0})

-- `entries.flatten()`: an entry of a listing that could not be read is passed over.
unfoldable pub flatten : List (Option File) → List File
flatten [] = []
flatten (none ∷ entries) = flatten entries
flatten (some f ∷ entries) = f ∷ flatten entries

-- Each operation gives the state that it leaves. `turns` is what the table holds outside of an open
-- transaction, `working` what it holds in it, and `shard` the rows of a file.
pub record Disk : Type 1 where
  pub State : Type 0
  pub turns : State → List Row
  pub working : State → List Row
  pub shard : State → File → Option (List Row)
  pub begin_transaction : State → State × Ack
  pub prepare_insert : State → State × Ack
  pub insert : Row → State → State × Ack
  pub commit : State → State × Ack
  pub rollback : State → State
  pub count : State → Result ℤ
  pub copy_turns : File → State → State × Ack
  pub delete_turns : State → State × Ack
  pub checkpoint : State → State × Ack
  pub delete_keyed : List String → State → State × Result ℕ
  pub count_key_column : File → State → Result ℤ
  pub count_keyed : File → List String → State → Result ℤ
  pub copy_unkeyed : File → List String → File → State → State × Ack
  pub rename : File → File → State → State × Ack
  pub remove_file : File → State → State
  pub set_modified : File → ℕ → State → State × Ack
  pub modified : State → File → Option ℕ
  pub try_clone : State → Ack
  pub read_dir : State → Option (List (Option File))
  pub wal_size : State → ℕ
  pub shard_stamp : State → String
  pub today : State → ℕ
  pub instant : State → ℕ
  pub now : State → ℕ
  pub run_hook : File → State → State

module _ (d : Disk) where
  -- Two states hold the same rows, in the table and in the files.
  abbrev pub SameFiles : d.State → d.State → Type 0
  SameFiles s t = (f : File) → d.shard t f ≡ d.shard s f

  abbrev pub Same : d.State → d.State → Type 0
  Same s t = (d.turns t ≡ d.turns s) × SameFiles s t

  pub record IsLawful : Type 0 where
    pub begin_transaction-Same : (s : d.State) → Same s (d.begin_transaction s).0
    pub begin_transaction-working :
        (s : d.State)
        → (d.begin_transaction s).1 ≡ ok tt
        → d.working (d.begin_transaction s).0 ≡ d.turns s
    pub prepare_insert-Same : (s : d.State) → Same s (d.prepare_insert s).0
    pub prepare_insert-working : (s : d.State) → d.working (d.prepare_insert s).0 ≡ d.working s
    pub insert-Same : (r : Row) (s : d.State) → Same s (d.insert r s).0
    pub insert-working :
        (r : Row) (s : d.State)
        → (d.insert r s).1 ≡ ok tt
        → d.working (d.insert r s).0 ≡ d.working s ++ r ∷ []
    pub commit-SameFiles : (s : d.State) → SameFiles s (d.commit s).0
    pub commit-ok : (s : d.State) → (d.commit s).1 ≡ ok tt → d.turns (d.commit s).0 ≡ d.working s
    pub commit-err : (s : d.State) → (d.commit s).1 ≢ ok tt → d.turns (d.commit s).0 ≡ d.turns s
    pub rollback-Same : (s : d.State) → Same s (d.rollback s)
    pub count-turns : (s : d.State) (n : ℤ) → d.count s ≡ ok n → n ≡ pos (length (d.turns s))
    pub copy_turns-turns : (f : File) (s : d.State) → d.turns (d.copy_turns f s).0 ≡ d.turns s
    pub copy_turns-others :
        (f g : File) (s : d.State) → g ≢ f → d.shard (d.copy_turns f s).0 g ≡ d.shard s g
    pub copy_turns-ok :
        (f : File) (s : d.State)
        → (d.copy_turns f s).1 ≡ ok tt
        → d.shard (d.copy_turns f s).0 f ≡ some (d.turns s)
    pub delete_turns-SameFiles : (s : d.State) → SameFiles s (d.delete_turns s).0
    pub checkpoint-Same : (s : d.State) → Same s (d.checkpoint s).0
    pub delete_keyed-SameFiles :
        (keys : List String) (s : d.State) → SameFiles s (d.delete_keyed keys s).0
    pub delete_keyed-ok :
        (keys : List String) (s : d.State) (n : ℕ)
        → (d.delete_keyed keys s).1 ≡ ok n
        → d.turns (d.delete_keyed keys s).0 ≡ select (λ r. not (is_keyed keys r)) (d.turns s)
    pub rename-turns : (f g : File) (s : d.State) → d.turns (d.rename f g s).0 ≡ d.turns s
    pub rename-others :
        (f g h : File) (s : d.State) → h ≢ f → h ≢ g → d.shard (d.rename f g s).0 h ≡ d.shard s h
    pub rename-ok :
        (f g : File) (s : d.State)
        → (d.rename f g s).1 ≡ ok tt
        → d.shard (d.rename f g s).0 g ≡ d.shard s f
    pub rename-err :
        (f g : File) (s : d.State) → (d.rename f g s).1 ≢ ok tt → Same s (d.rename f g s).0
    pub remove_file-turns : (f : File) (s : d.State) → d.turns (d.remove_file f s) ≡ d.turns s
    pub remove_file-others :
        (f g : File) (s : d.State) → g ≢ f → d.shard (d.remove_file f s) g ≡ d.shard s g
    pub run_hook-Same : (f : File) (s : d.State) → Same s (d.run_hook f s)
    pub remove_file-modified :
        (f g : File) (s : d.State) → g ≢ f → d.modified (d.remove_file f s) g ≡ d.modified s g
    -- A file without the column holds no key, and counts are those of the rows.
    pub count_key_column-zero :
        (f : File) (s : d.State) (rows : List Row)
        → d.count_key_column f s ≡ ok (pos 0)
        → d.shard s f ≡ some rows
        → All (λ r. r.turn.api_key_id ≡ none) rows
    pub count_keyed-rows :
        (f : File) (keys : List String) (s : d.State) (rows : List Row) (n : ℤ)
        → d.count_keyed f keys s ≡ ok n
        → d.shard s f ≡ some rows
        → n ≡ pos (length (select (is_keyed keys) rows))
    pub copy_unkeyed-turns :
        (f : File) (keys : List String) (g : File) (s : d.State)
        → d.turns (d.copy_unkeyed f keys g s).0 ≡ d.turns s
    pub copy_unkeyed-others :
        (f : File) (keys : List String) (g h : File) (s : d.State)
        → h ≢ g
        → d.shard (d.copy_unkeyed f keys g s).0 h ≡ d.shard s h
    pub copy_unkeyed-ok :
        (f : File) (keys : List String) (g : File) (s : d.State)
        → (d.copy_unkeyed f keys g s).1 ≡ ok tt
        → (rows : List Row) × (d.shard (d.copy_unkeyed f keys g s).0 g
            ≡ some (select (λ r. not (is_keyed keys r)) rows))
    pub set_modified-Same : (f : File) (at : ℕ) (s : d.State) → Same s (d.set_modified f at s).0
    -- A listing names each file, unless one of its entries could not be read.
    pub read_dir-shards :
        (s : d.State) (entries : List (Option File)) (f : File) (rows : List Row)
        → d.read_dir s ≡ some entries
        → d.shard s f ≡ some rows
        → Mem (some f) entries ⊎ Mem none entries
