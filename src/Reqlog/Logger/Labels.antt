-- ===== src/Reqlog/Logger/Labels.antt =====
-- crates/yb-reqlog/src/lib.rs: what waits to be stored is as its label says.
use sovereign_gateway.Reqlog.Worker
use sovereign_gateway.Reqlog.Shards
use sovereign_gateway.Base.{
  ℕ, ◌-◌, String, ◌≡◌, ◌≤◌, ◌<◌, refl, Bool, true, false, Bool-cases, List, [], ◌∷◌, ◌++◌, ◌⊎◌, inl,
  inr, Option, length, length-append, ltb, leb, eqb, arith, if◌then◌else◌, All, All-append, is_nil,
  not, ◌&&◌, ◌||◌,
}
use sovereign_gateway.Core.Errors.{Result, ok, err}
use sovereign_gateway.Core.Reqlog.{
  RequestLogRecord, Redaction, unredacted, metadata_only, patterns, redaction_str,
}
use sovereign_gateway.Redact.Bodies.{Serde, redact_body}
use sovereign_gateway.Redact.Values.{Redactor}
use sovereign_gateway.Reqlog.Disk.{Disk, Ack, File}
use sovereign_gateway.Reqlog.Worker.{ReqlogConfig, seal, prune}
use sovereign_gateway.Reqlog.Shards.{
  rotate_flushed, rotate_counted, empty_table, maybe_rotate, run_roll_hook,
}
use sovereign_gateway.Reqlog.Logger.{
  Msg, Control, Reply, Delivery, logged, control, received, timed_out, disconnected, flush, rotate,
  count, export, shutdown, forget, redact, push, forgotten, handle, System, Event, logs, applies,
  sends, receives, idles, capacity, try_send, log, send, deliver, step, run,
}

-- A body that a pattern redactor left.
abbrev IsRedacted : Serde → Redactor → List ℕ → Type 0
IsRedacted s r body = (original : List ℕ) × (body ≡ redact_body s r original)

-- The bodies are what the label of their redaction says.
abbrev pub IsLabelled : Serde → Redactor → RequestLogRecord → Type 0
IsLabelled s r rec =
    (rec.redaction ≡ "none")
    ⊎ ((rec.redaction ≡ "metadata_only") × (rec.request_body ≡ []) × (rec.response_body ≡ []))
    ⊎ ((rec.redaction ≡ "patterns")
        × IsRedacted s r rec.request_body
        × IsRedacted s r rec.response_body)

redact-IsLabelled :
    (s : Serde) (r : Redactor) (redaction : Redaction) (rec : RequestLogRecord)
    → IsLabelled s r (redact s r redaction rec)
unfolding redact redaction_str
redact-IsLabelled s r unredacted rec = inl refl
redact-IsLabelled s r metadata_only rec = inr (inl (refl, refl, refl))
redact-IsLabelled s r patterns rec =
    inr (inr (refl, (rec.request_body, refl), (rec.response_body, refl)))

-- A message that carries a turn carries a labelled one.
abbrev pub IsMarked : Serde → Redactor → Msg → Type 0
IsMarked s r (logged rec) = IsLabelled s r rec
IsMarked s r (control c) = Unit

module _ (d : Disk) (cfg : ReqlogConfig) (P : RequestLogRecord → Type 0) where
  abbrev Holds : Worker.Worker d → Type 0
  Holds w = All P w.buf

  flush-Holds : (w : Worker.Worker d) → Holds w → Holds (Worker.flush d cfg w).0
  unfolding Worker.flush
  flush-Holds w h = elim (Bool-cases (is_nil w.buf)) [ inl q ↦ rw q h | inr q ↦ rw q tt ]

  empty_table-Holds :
      (days : ℕ) (w : Worker.Worker d) (r : d.State × Result (Option File))
      → Holds w
      → Holds (empty_table d cfg days w r).0
  unfolding empty_table
  empty_table-Holds days w (s, err e) h = h
  empty_table-Holds days w (s, ok sealed) h = by_delete (d.delete_turns s).1
    where
      by_delete :
          (a : Ack)
          → Holds
              (elim a as (λ _. Worker.Worker d × Ack) [
                | err e ↦ (record w { disk = (d.delete_turns s).0 }, err e)
                | ok _ ↦ (
                  record w {
                    disk = run_roll_hook d cfg sealed (prune d days (d.delete_turns s).0);
                    last_rotate = d.instant (prune d days (d.delete_turns s).0);
                    last_date = d.today (prune d days (d.delete_turns s).0);
                  },
                  ok tt,
                )
              ]).0
      by_delete (err e) = h
      by_delete (ok _) = h

  rotate-Holds : (days : ℕ) (w : Worker.Worker d) → Holds w → Holds (Shards.rotate d cfg days w).0
  unfolding Shards.rotate rotate_flushed rotate_counted
  rotate-Holds days w h = by_flush (Worker.flush d cfg w) (flush-Holds w h)
    where
      by_count :
          (w1 : Worker.Worker d) (n : Result ℕ)
          → Holds w1
          → Holds (rotate_counted d cfg days w1 n).0
      by_count w1 (err e) k = k
      by_count w1 (ok n) k = empty_table-Holds days w1 (seal d w1.disk n) k

      by_flush : (f : Worker.Worker d × Ack) → Holds f.0 → Holds (rotate_flushed d cfg days f).0
      by_flush (w1, err e) k = k
      by_flush (w1, ok _) k = by_count w1 (Worker.count d w1) k

  either-Holds :
      (b : Bool) (w1 w2 : Worker.Worker d) → Holds w1 → Holds w2 → Holds (if b then w1 else w2)
  either-Holds true w1 w2 h k = h
  either-Holds false w1 w2 h k = k

  maybe_rotate-Holds :
      (days : ℕ) (w : Worker.Worker d) → Holds w → Holds (maybe_rotate d cfg days w)
  unfolding maybe_rotate
  maybe_rotate-Holds days w h =
      either-Holds
        (leb cfg.rotate_interval (d.instant w.disk - w.last_rotate)
          || not (eqb (d.today w.disk) w.last_date)
          || ltb cfg.shard_max_bytes (d.wal_size w.disk))
        (Shards.rotate d cfg days w).0 w (rotate-Holds days w h) h

  push-Holds :
      (days : ℕ) (rec : RequestLogRecord) (w : Worker.Worker d)
      → P rec
      → Holds w
      → Holds (push d cfg days rec w)
  unfolding push
  push-Holds days rec w p h =
      let w1 = record w { buf = w.buf ++ rec ∷ [] } in
      let k : Holds w1 = All-append P w.buf (rec ∷ []) h (p, tt) in
      either-Holds (leb 256 (length w1.buf)) (maybe_rotate d cfg days (Worker.flush d cfg w1).0) w1
        (maybe_rotate-Holds days (Worker.flush d cfg w1).0 (flush-Holds w1 k)) k

  forgotten-Holds :
      (keys : List String) (f : Worker.Worker d × Ack)
      → Holds f.0
      → Holds (forgotten d cfg keys f).0
  unfolding forgotten
  forgotten-Holds keys (w, err e) h = h
  forgotten-Holds keys (w, ok _) h = h

  abbrev Carries : Delivery → Type 0
  Carries (received (logged rec)) = P rec
  Carries (received (control c)) = Unit
  Carries timed_out = Unit
  Carries disconnected = Unit

  pub handle-Holds :
      (days : ℕ) (w : Worker.Worker d) (delivery : Delivery)
      → Carries delivery
      → Holds w
      → Holds (handle d cfg days w delivery).0
  unfolding handle
  handle-Holds days w (received (logged rec)) p h = push-Holds days rec w p h
  handle-Holds days w (received (control flush)) p h = flush-Holds w h
  handle-Holds days w (received (control rotate)) p h = rotate-Holds days w h
  handle-Holds days w (received (control count)) p h = flush-Holds w h
  handle-Holds days w (received (control export)) p h = flush-Holds w h
  handle-Holds days w (received (control (forget keys))) p h =
      forgotten-Holds keys (Worker.flush d cfg w) (flush-Holds w h)
  handle-Holds days w (received (control shutdown)) p h = flush-Holds w h
  handle-Holds days w timed_out p h =
      maybe_rotate-Holds days (Worker.flush d cfg w).0 (flush-Holds w h)
  handle-Holds days w disconnected p h = flush-Holds w h

module _ (d : Disk) (cfg : ReqlogConfig) (s : Serde) (r : Redactor) where
  -- What waits in the queue and in the buffer is labelled, and the queue is no longer than its capacity.
  abbrev pub IsSound : System d → Type 0
  IsSound sys =
      All (IsMarked s r) sys.queue
      × All (IsLabelled s r) sys.worker.buf
      × (length sys.queue ≤ capacity cfg)

  pick :
      (b : Bool) (sys1 sys2 : System d)
      → (b ≡ true → IsSound sys1)
      → IsSound sys2
      → IsSound (if b then sys1 else sys2)
  pick true sys1 sys2 h k = h refl
  pick false sys1 sys2 h k = k

  -- A message is put at the end of a queue that has room.
  enqueue :
      (sys : System d) (m : Msg)
      → IsMarked s r m
      → IsSound sys
      → ltb (length sys.queue) (capacity cfg) ≡ true
      → IsSound (record sys { queue = sys.queue ++ m ∷ [] })
  enqueue sys m p (a, b, c) q = (
    All-append (IsMarked s r) sys.queue (m ∷ []) a (p, tt),
    b,
    let below : length sys.queue < capacity cfg = ground (arith, q) in
        omega (arith, length-append sys.queue (m ∷ []), below),
  )

  try_send-IsSound :
      (m : Msg) (sys : System d) → IsMarked s r m → IsSound sys → IsSound (try_send d cfg s r m sys)
  unfolding try_send
  try_send-IsSound m sys p h =
      pick (sys.is_running && ltb (length sys.queue) (capacity cfg))
        (record sys { queue = sys.queue ++ m ∷ [] }) _ (λ q. enqueue sys m p h (ground (arith, q)))
        h

  log-IsSound :
      (rec : RequestLogRecord) (sys : System d) → IsSound sys → IsSound (log d cfg s r rec sys)
  unfolding log
  log-IsSound rec sys h =
      let labelled = redact s r sys.policy.redaction rec in
      pick sys.policy.enabled (try_send d cfg s r (logged labelled) sys) sys
        (λ q.
          try_send-IsSound (logged labelled) sys (redact-IsLabelled s r sys.policy.redaction rec) h)
        h

  send-IsSound : (c : Control) (sys : System d) → IsSound sys → IsSound (send d cfg s r c sys)
  unfolding send
  send-IsSound c sys h =
      pick _ _ _ (λ q. h)
        (pick sys.is_running _ _
          (λ q. pick (ltb (length sys.queue) (capacity cfg)) _ sys (enqueue sys (control c) tt h) h)
          h)

  deliver-IsSound :
      (delivery : Delivery) (queue : List Msg) (sys : System d)
      → Carries d cfg (IsLabelled s r) delivery
      → All (IsMarked s r) queue
      → length queue ≤ capacity cfg
      → All (IsLabelled s r) sys.worker.buf
      → IsSound (deliver d cfg s r delivery queue sys)
  unfolding deliver
  deliver-IsSound delivery queue sys p a c b =
      let h = handle d cfg sys.policy.retention_days sys.worker delivery in
      by_end h.1.1
        (handle-Holds d cfg (IsLabelled s r) sys.policy.retention_days sys.worker delivery p b)
    where
      w : Worker.Worker d
      w = (handle d cfg sys.policy.retention_days sys.worker delivery).0

      reply : Option Reply
      reply = (handle d cfg sys.policy.retention_days sys.worker delivery).1.0

      by_end :
          (goes_on : Bool)
          → All (IsLabelled s r) w.buf
          → IsSound (record sys {
            worker = w;
            queue = if goes_on then queue else [];
            is_running = goes_on;
            replies = sys.replies ++ reply ∷ [];
          })
      by_end true k = (a, k, c)
      by_end false k = (tt, k, omega arith)

  step-IsSound : (e : Event) (sys : System d) → IsSound sys → IsSound (step d cfg s r e sys)
  unfolding step
  step-IsSound (logs rec) sys h = log-IsSound rec sys h
  step-IsSound (applies policy) sys h = h
  step-IsSound (sends c) sys h = send-IsSound c sys h
  step-IsSound receives sys (a, b, c) = by_queue sys.queue a c
    where
      by_queue :
          (queue : List Msg)
          → All (IsMarked s r) queue
          → length queue ≤ capacity cfg
          → IsSound (elim queue as (λ _. System d) [
            | [] ↦ sys
            | m ∷ rest ↦ if sys.is_running then deliver d cfg s r (received m) rest sys else sys
          ])
      by_queue [] a1 c1 = (a, b, c)
      by_queue (logged rec ∷ rest) a1 c1 =
          pick sys.is_running _ sys
            (λ q. deliver-IsSound (received (logged rec)) rest sys a1.0 a1.1 (omega (arith, c1)) b)
            (a, b, c)
      by_queue (control m ∷ rest) a1 c1 =
          pick sys.is_running _ sys
            (λ q. deliver-IsSound (received (control m)) rest sys tt a1.1 (omega (arith, c1)) b)
            (a, b, c)
  step-IsSound idles sys (a, b, c) =
      pick (sys.is_running && is_nil sys.queue) _ sys
        (λ q. deliver-IsSound timed_out [] sys tt tt (omega arith) b) (a, b, c)

-- Whatever requests, operators and the worker do in whichever order, and however the database answers: what
-- waits in the queue and in the buffer of the worker is as its label says, which is a turn without bodies, with
-- bodies that the redactor left, or one that was captured as it came; and the queue never outgrows its bound.
pub run-IsSound :
    (d : Disk) (cfg : ReqlogConfig) (s : Serde) (r : Redactor) (events : List Event)
    (sys : System d)
    → IsSound d cfg s r sys
    → IsSound d cfg s r (run d cfg s r events sys)
unfolding run
run-IsSound d cfg s r [] sys h = h
run-IsSound d cfg s r (e ∷ events) sys h =
    run-IsSound d cfg s r events (step d cfg s r e sys) (step-IsSound d cfg s r e sys h)
