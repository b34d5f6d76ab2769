-- ===== src/Reqlog/Logger.antt =====
-- crates/yb-reqlog/src/lib.rs: the loop of the worker over what it receives, and `DuckLogger`, whose queue the
-- requests fill without waiting. An acknowledgement is a reply, and what is only logged is left out.
pub mod Labels
use sovereign_gateway.Reqlog.Worker
use sovereign_gateway.Reqlog.Shards
use sovereign_gateway.Base.{
  ℕ, ◌+◌, ◌%◌, ◌^◌, String, Bool, true, false, ◌&&◌, Option, none, some, List, [], ◌∷◌, ◌++◌, ltb,
  leb, if◌then◌else◌, length, max, is_nil,
}
use sovereign_gateway.Core.Errors.{Error, Result, ok, err}
use sovereign_gateway.Core.Reqlog.{
  RequestLogRecord, Redaction, CapturePolicy, unredacted, metadata_only, patterns, redaction_str,
}
use sovereign_gateway.Redact.Bodies.{Serde, redact_body}
use sovereign_gateway.Redact.Values.{Redactor}
use sovereign_gateway.Reqlog.Disk.{Disk, Ack}
use sovereign_gateway.Reqlog.Worker.{ReqlogConfig}

-- What reaches the worker; the channel of a reply stands in the message's kind.
pub data Control : Type 0 where
  flush rotate count export shutdown : Control
  forget : List String → Control

pub data Msg : Type 0 where
  logged : RequestLogRecord → Msg
  control : Control → Msg

pub data Reply : Type 0 where
  acked : Ack → Reply
  counted : Result ℕ → Reply

pub data Delivery : Type 0 where
  received : Msg → Delivery
  timed_out disconnected : Delivery

abbrev pub batch_flush : ℕ
batch_flush = 256

module _ (d : Disk) (cfg : ReqlogConfig) where
  unfoldable pub push : ℕ → RequestLogRecord → Worker.Worker d → Worker.Worker d
  unfolding Worker.flush Shards.maybe_rotate
  push retention_days rec w =
      let w1 = record w { buf = w.buf ++ rec ∷ [] } in
      if leb batch_flush (length w1.buf)
      then Shards.maybe_rotate d cfg retention_days (Worker.flush d cfg w1).0
      else w1

  unfoldable pub counted_rows : Worker.Worker d × Ack → Reply
  unfolding Worker.count
  counted_rows (w, err e) = counted (err e)
  counted_rows (w, ok _) = counted (Worker.count d w)

  unfoldable pub cloned : Worker.Worker d × Ack → Reply
  cloned (w, err e) = acked (err e)
  cloned (w, ok _) = acked (d.try_clone w.disk)

  unfoldable pub forgotten : List String → Worker.Worker d × Ack → Worker.Worker d × Reply
  unfolding Shards.forget_keys
  forgotten keys (w, err e) = (w, counted (err e))
  forgotten keys (w, ok _) =
      let (s, n) = Shards.forget_keys d cfg keys w.disk in (record w { disk = s }, counted n)

  -- The worker afterwards, its reply, and whether it goes on.
  unfoldable pub handle : ℕ → Worker.Worker d → Delivery → Worker.Worker d × (Option Reply × Bool)
  unfolding push counted_rows cloned forgotten
  handle days w (received (logged rec)) = (push days rec w, (none, true))
  handle days w (received (control flush)) =
      let (w1, done) = Worker.flush d cfg w in (w1, (some (acked done), true))
  handle days w (received (control rotate)) =
      let (w1, done) = Shards.rotate d cfg days w in (w1, (some (acked done), true))
  handle days w (received (control count)) =
      let flushed = Worker.flush d cfg w in (flushed.0, (some (counted_rows flushed), true))
  handle days w (received (control export)) =
      let flushed = Worker.flush d cfg w in (flushed.0, (some (cloned flushed), true))
  handle days w (received (control (forget keys))) =
      let (w1, reply) = forgotten keys (Worker.flush d cfg w) in (w1, (some reply, true))
  handle days w (received (control shutdown)) =
      let (w1, done) = Worker.flush d cfg w in (w1, (some (acked done), false))
  handle days w timed_out = (Shards.maybe_rotate d cfg days (Worker.flush d cfg w).0, (none, true))
  handle days w disconnected = ((Worker.flush d cfg w).0, (none, false))

-- The policy's redaction, which a turn carries from then on.
unfoldable pub redact : Serde → Redactor → Redaction → RequestLogRecord → RequestLogRecord
unfolding redaction_str redact_body
redact s r unredacted rec = record rec { redaction = redaction_str unredacted }
redact s r metadata_only rec = record rec {
  redaction = redaction_str metadata_only;
  request_body = [];
  response_body = [];
}
redact s r patterns rec = record rec {
  redaction = redaction_str patterns;
  request_body = redact_body s r rec.request_body;
  response_body = redact_body s r rec.response_body;
}

-- The logger and its worker, with the messages between them.
pub record System (d : Disk) : Type 0 where
  pub queue : List Msg
  pub dropped : ℕ
  pub policy : CapturePolicy
  pub worker : Worker.Worker d
  pub is_running : Bool
  pub replies : List (Option Reply)

-- What happens: a request logs a turn, an operator sets the policy, a caller sends a message and finds room
-- for it, the worker takes the next message, or it finds none until its poll ends.
pub data Event : Type 0 where
  logs : RequestLogRecord → Event
  applies : CapturePolicy → Event
  sends : Control → Event
  receives idles : Event

abbrev pub capacity : ReqlogConfig → ℕ
capacity cfg = max cfg.queue_size 1

module _ (d : Disk) (cfg : ReqlogConfig) (s : Serde) (r : Redactor) where
  -- `try_send`: a full queue, or a worker that is gone, drops the turn and counts it.
  unfoldable pub try_send : Msg → System d → System d
  try_send m sys =
      if sys.is_running && ltb (length sys.queue) (capacity cfg)
      then record sys { queue = sys.queue ++ m ∷ [] }
      else record sys { dropped = (sys.dropped + 1) % 2 ^ 64 }

  unfoldable pub log : RequestLogRecord → System d → System d
  unfolding try_send redact
  log rec sys =
      if sys.policy.enabled
      then try_send (logged (redact s r sys.policy.redaction rec)) sys
      else sys

  abbrev is_idle : Control → Bool
  is_idle (forget keys) = is_nil keys
  is_idle flush = false
  is_idle rotate = false
  is_idle count = false
  is_idle export = false
  is_idle shutdown = false

  -- A control message waits for room; where the worker is gone its sender is told so. A removal of no keys
  -- is not sent.
  unfoldable pub send : Control → System d → System d
  send c sys =
      let sent : System d =
        if ltb (length sys.queue) (capacity cfg)
        then record sys { queue = sys.queue ++ control c ∷ [] }
        else sys in
      let gone = err (Error.internal "reqlog: worker gone") in
      if is_idle c
      then record sys { replies = sys.replies ++ some (counted (ok 0)) ∷ [] }
      else if sys.is_running
      then sent
      else record sys { replies = sys.replies ++ some (acked gone) ∷ [] }

  -- Where the worker stops, its end of the queue goes with what is in it.
  unfoldable pub deliver : Delivery → List Msg → System d → System d
  unfolding handle
  deliver delivery queue sys =
      let (w, (reply, goes_on)) = handle d cfg sys.policy.retention_days sys.worker delivery in
      record sys {
        worker = w;
        queue = if goes_on then queue else [];
        is_running = goes_on;
        replies = sys.replies ++ reply ∷ [];
      }

  unfoldable pub step : Event → System d → System d
  unfolding log send deliver
  step (logs rec) sys = log rec sys
  step (applies policy) sys = record sys { policy = policy }
  step (sends m) sys = send m sys
  step receives sys = elim sys.queue [
    | [] ↦ sys
    | m ∷ queue ↦ if sys.is_running then deliver (received m) queue sys else sys
  ]
  step idles sys = if sys.is_running && is_nil sys.queue then deliver timed_out [] sys else sys

  unfoldable pub run : List Event → System d → System d
  unfolding step
  run [] sys = sys
  run (e ∷ events) sys = run events (step e sys)
