-- ===== src/Gateway/Ledger/Accounts.antt =====
-- crates/yb-gateway/src/service.rs, `RecordCtx::finish`: the spend of a subject is what its turns cost.
use sovereign_gateway.Base.{
  ◌+◌, String, ◌≡◌, refl, sym, ap, ◌∙◌, inl, inr, Bool, true, false, ◌&&◌, Option, none, some, List,
  [], ◌∷◌, ◌++◌, map, ◌==◌, arith, if◌then◌else◌, Bool-cases, length, select, select-append,
  length-append,
}
use mathlib.Core.List.{map-append, append-nil}
use sovereign_gateway.Core.Spend.{SubjectType, key, user, team}
use sovereign_gateway.Gateway.Ledger.{
  RecordCtx, finish, Ledger, RollupDelta, TelemetryRecord, rollup, subjects_of, Books, subject,
  telemetry, log_record,
}
use sovereign_gateway.Base.Int.{ℤ}
use sovereign_gateway.Gateway.Stream.{Filing}
use mathlib.Core.Path.{ap₂}

-- A turn that is over: its context, the new id of its row, its times, and the call of `finish`.
pub record Entry : Type 0 where
  pub ctx : RecordCtx
  pub id : String
  pub latency : ℤ
  pub filing : Filing

unfoldable pub book : Books → List Entry → Ledger → Ledger
unfolding finish
book b [] l = l
book b (e ∷ es) l = book b es (finish b e.ctx e.id e.latency e.filing l)

abbrev pub no_entries : Ledger
no_entries = record { charges = []; turns = []; rollups = []; logged = []; warned = [] }

abbrev is_type : SubjectType → SubjectType → Bool
is_type key key = true
is_type user user = true
is_type team team = true
is_type key user = false
is_type key team = false
is_type user key = false
is_type user team = false
is_type team key = false
is_type team user = false

abbrev is_id : String → Option String → Bool
is_id id none = false
is_id id (some other) = other == id

abbrev of_subject : SubjectType → String → RollupDelta → Bool
of_subject type id r = is_type type r.subject_type && is_id id (some r.subject_id)

abbrev of_turn : SubjectType → String → TelemetryRecord → Bool
of_turn key id t = is_id id t.api_key_id
of_turn user id t = is_id id t.user_id
of_turn team id t = is_id id t.team_id

-- The amounts that are booked for a subject, in order.
unfoldable pub spends : SubjectType → String → List RollupDelta → List ℤ
unfolding select
spends type id rs = map (λ r. r.spend_micros) (select (of_subject type id) rs)

-- The costs of a subject's turns, in order.
unfoldable pub costs : SubjectType → String → List TelemetryRecord → List ℤ
unfolding select
costs type id ts = map (λ t. t.cost_micros) (select (of_turn type id) ts)

spends-append :
    (type : SubjectType) (id : String) (rs ss : List RollupDelta)
    → spends type id (rs ++ ss) ≡ spends type id rs ++ spends type id ss
unfolding spends
spends-append type id rs ss = rw (select-append, map-append) refl

costs-append :
    (type : SubjectType) (id : String) (ts us : List TelemetryRecord)
    → costs type id (ts ++ us) ≡ costs type id ts ++ costs type id us
unfolding costs
costs-append type id ts us = rw (select-append, map-append) refl

spends-subject :
    (b : Books) (t : TelemetryRecord) (type other : SubjectType) (id : String) (o : Option String)
    → spends type id (map (rollup b t) (subject other o))
      ≡ (if is_type type other && is_id id o then t.cost_micros ∷ [] else [])
unfolding spends rollup select
spends-subject b t type other id none = elim (Bool-cases (is_type type other)) [
  | inl q ↦ rw q refl
  | inr q ↦ rw q refl
]
spends-subject b t type other id (some x) = elim (Bool-cases (is_type type other && x == id)) [
  | inl q ↦ rw q refl
  | inr q ↦ rw q refl
]

spends_three :
    (b : Books) (t : TelemetryRecord) (type : SubjectType) (id : String)
    (k u m : List (SubjectType × String))
    → spends type id (map (rollup b t) (k ++ u ++ m))
      ≡ spends type id (map (rollup b t) k)
        ++ spends type id (map (rollup b t) u)
        ++ spends type id (map (rollup b t) m)
spends_three b t type id k u m =
    rw
      (
        map-append (rollup b t) (k ++ u) m,
        map-append (rollup b t) k u,
        spends-append,
        spends-append,
      )
      refl

costs_one :
    (type : SubjectType) (id : String) (t : TelemetryRecord)
    → costs type id (t ∷ []) ≡ (if of_turn type id t then t.cost_micros ∷ [] else [])
unfolding costs select
costs_one type id t = elim (Bool-cases (of_turn type id t)) [
  | inl q ↦ rw q refl
  | inr q ↦ rw q refl
]

-- What a turn adds to the rollups of a subject is its cost, where the turn is of the subject.
spends-rollups :
    (b : Books) (ctx : RecordCtx) (t : TelemetryRecord) (type : SubjectType) (id : String)
    → t.api_key_id ≡ ctx.api_key_id
    → t.user_id ≡ ctx.user_id
    → t.team_id ≡ ctx.team_id
    → spends type id (map (rollup b t) (subjects_of ctx)) ≡ costs type id (t ∷ [])
unfolding subjects_of
spends-rollups b ctx t type id k u m =
    rw
      (
        spends_three b t type id,
        spends-subject b t type key id,
        spends-subject b t type user id,
        spends-subject b t type team id,
        costs_one type id t,
      )
      (owned type)
  where
    owned :
        (type : SubjectType)
        → (if is_type type key && is_id id ctx.api_key_id then t.cost_micros ∷ [] else [])
            ++ (if is_type type user && is_id id ctx.user_id then t.cost_micros ∷ [] else [])
            ++ (if is_type type team && is_id id ctx.team_id then t.cost_micros ∷ [] else [])
          ≡ (if of_turn type id t then t.cost_micros ∷ [] else [])
    owned key =
        append-nil _
        ∙ append-nil _
        ∙ ap (λ o. if is_id id o then t.cost_micros ∷ [] else []) (sym k)
    owned user = append-nil _ ∙ ap (λ o. if is_id id o then t.cost_micros ∷ [] else []) (sym u)
    owned team = ap (λ o. if is_id id o then t.cost_micros ∷ [] else []) (sym m)

-- The amounts booked for every subject are the costs of its turns.
abbrev pub IsReconciled : Ledger → Type 0
IsReconciled l =
    (type : SubjectType) (id : String) → spends type id l.rollups ≡ costs type id l.turns

finish-IsReconciled :
    (b : Books) (e : Entry) (l : Ledger)
    → IsReconciled l
    → IsReconciled (finish b e.ctx e.id e.latency e.filing l)
unfolding finish telemetry
finish-IsReconciled b e l h type id =
    let t = telemetry b e.ctx e.id e.latency e.filing in
    spends-append type id l.rollups (map (rollup b t) (subjects_of e.ctx))
    ∙ ap₂ (◌++◌) (h type id) (spends-rollups b e.ctx t type id refl refl refl)
    ∙ sym (costs-append type id l.turns (t ∷ []))

book-keeps :
    (b : Books) (es : List Entry) (l : Ledger) → IsReconciled l → IsReconciled (book b es l)
unfolding book
book-keeps b [] l h = h
book-keeps b (e ∷ es) l h = book-keeps b es _ (finish-IsReconciled b e l h)

length-book :
    (b : Books) (es : List Entry) (l : Ledger)
    → (length (book b es l).turns ≡ length l.turns + length es)
      × (length (book b es l).logged ≡ length l.logged + length es)
unfolding book finish
length-book b [] l = (omega arith, omega arith)
length-book b (e ∷ es) l =
    let (t, r) = length-book b es (finish b e.ctx e.id e.latency e.filing l) in
    (
      omega (arith, t, length-append l.turns (telemetry b e.ctx e.id e.latency e.filing ∷ [])),
      omega (arith, r, length-append l.logged (log_record b e.ctx e.filing ∷ [])),
    )

-- After any sequence of turns that are over, the amounts that were added to the spend of an api key, a
-- user or a team are, in order, the costs in the telemetry rows of its turns; and every turn has
-- left one row in the telemetry and one in the request log.
pub book-IsReconciled :
    (b : Books) (es : List Entry)
    → IsReconciled (book b es no_entries)
      × (length (book b es no_entries).turns ≡ length es)
      × (length (book b es no_entries).logged ≡ length es)
unfolding costs spends select
book-IsReconciled b es =
    let (t, r) = length-book b es no_entries in
    (book-keeps b es no_entries (λ type id. refl), omega (arith, t), omega (arith, r))
