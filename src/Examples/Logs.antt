-- ===== src/Examples/Logs.antt =====
-- A request log of three turns, and the removal of the turns of a key.
use sovereign_gateway.Reqlog.Shards
use sovereign_gateway.Base.{
  ◌≡◌, refl, true, false, [], ◌∷◌, arith, select, inl, Option, none, some, String,
}
use mathlib.Core.Logic.Or
use mathlib.Core.List.{mem-cons_self, mem-cons, not-mem-nil}
use sovereign_gateway.Core.Errors.{ok}
use sovereign_gateway.Core.Reqlog.{RequestLogRecord, patterns}
use sovereign_gateway.Examples.Memory.{memory, memory-IsLawful}
use sovereign_gateway.Redact.Bodies.{Serde}
use sovereign_gateway.Redact.Values.{Redactor, borrowed}
use sovereign_gateway.Reqlog.Disk.{Row, is_keyed}
use sovereign_gateway.Reqlog.Worker.{ReqlogConfig, Worker, flush}
use sovereign_gateway.Reqlog.Worker.Batches.{IsFlushed, flush-IsFlushed}
use sovereign_gateway.Reqlog.Shards.{forget_keys}
use sovereign_gateway.Reqlog.Shards.Sealed.{IsKept}
use sovereign_gateway.Reqlog.Shards.Kept.{rotate-IsKept}
use sovereign_gateway.Reqlog.Shards.Erased.{forget_keys-IsErased}
use sovereign_gateway.Reqlog.Logger.{System, run, logs, receives, idles, sends, rotate}
use sovereign_gateway.Reqlog.Logger.Labels.{IsSound, run-IsSound}

abbrev turn : String → Option String → RequestLogRecord
turn request_id api_key_id = record {
  ts = 1;
  request_id = request_id;
  trace_id = none;
  installation_id = "";
  surface = "anthropic";
  requested_model = "fast";
  decision_model = "gpt";
  decision_provider = "p1";
  upstream_status = 200;
  is_error = false;
  request_bytes = 3;
  response_bytes = 3;
  response_truncated = false;
  request_body = 1 ∷ 2 ∷ 3 ∷ [];
  response_body = 4 ∷ 5 ∷ 6 ∷ [];
  api_key_id = api_key_id;
  user_id = none;
  tags = none;
  redaction = "none";
}

abbrev cfg : ReqlogConfig
cfg = record {
  queue_size = 2;
  shard_max_bytes = 100;
  rotate_interval = 3600;
  max_body_bytes = 2;
  on_roll = none;
}

abbrev old : Row
old = record { id = 1; turn = turn "a" (some "k1") }

abbrev worker : Worker memory
worker = record {
  disk = record {
    table = old ∷ [];
    transaction = [];
    files = (("2026-11-25", "parquet"), record { id = 2; turn = turn "b" (some "k1") } ∷ []) ∷ [];
    clock = 0;
  };
  buf = turn "c" (some "k2") ∷ turn "d" none ∷ [];
  next_id = 2;
  last_rotate = 0;
  last_date = 0;
}

flush-IsFlushed_example : IsFlushed memory cfg worker (flush memory cfg worker)
flush-IsFlushed_example = flush-IsFlushed memory memory-IsLawful cfg worker

rotate-IsKept_example : IsKept memory (Shards.rotate memory cfg 0 worker).0.disk old
unfolding flush
rotate-IsKept_example = rotate-IsKept memory memory-IsLawful cfg worker old refl (inl mem-cons_self)

forget_keys_test : (forget_keys memory cfg ("k1" ∷ []) worker.disk).1 ≡ ok 2
unfolding forget_keys select is_keyed
forget_keys_test = refl

abbrev other : Row
other = record { id = 3; turn = turn "e" (some "k2") }

abbrev crowded : memory.State
crowded = record worker.disk { table = old ∷ other ∷ [] }

forget_keys-IsErased_example : is_keyed ("k1" ∷ []) other ≡ false
unfolding forget_keys select is_keyed
forget_keys-IsErased_example =
    forget_keys-IsErased memory memory-IsLawful cfg ("k1" ∷ []) crowded
      (forget_keys memory cfg ("k1" ∷ []) crowded).0 2
      (λ m. Or.elim (λ x y. absurd x) (mem-cons.0 m) (λ e. cc) not-mem-nil) refl other
      (inl mem-cons_self)

abbrev serde : Serde
serde = record {
  from_slice = λ body. none;
  visited = λ body. none;
  to_vec = λ v. none;
  from_utf8 = λ body. none;
  from_utf8_lossy = λ body. "";
  as_bytes = λ t. [];
}

abbrev redactor : Redactor
redactor t = borrowed t

abbrev system : System memory
system = record {
  queue = [];
  dropped = 0;
  policy = record { enabled = true; redaction = patterns; retention_days = 30 };
  worker = record worker { buf = [] };
  is_running = true;
  replies = [];
}

run-IsSound_example : IsSound memory cfg serde redactor (
    run memory cfg serde redactor
      (logs (turn "e" none)
        ∷ logs (turn "f" none)
        ∷ logs (turn "g" none)
        ∷ receives
        ∷ sends rotate
        ∷ receives
        ∷ idles
        ∷ [])
      system)
run-IsSound_example =
    run-IsSound memory cfg serde redactor
      (logs (turn "e" none)
        ∷ logs (turn "f" none)
        ∷ logs (turn "g" none)
        ∷ receives
        ∷ sends rotate
        ∷ receives
        ∷ idles
        ∷ [])
      system (tt, tt, omega arith)
