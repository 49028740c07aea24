-- ===== src/Consumer/Loop.antt =====
-- The loop of the task: a turn with a failure that is held, and one without.
use Prim.Native.Nat.{◌%◌}
use braintrust_coding_agent.Prelude.{
  ℕ, ◌+◌, ◌^◌, min, String, Bool, true, false, not, ◌&&◌, ◌||◌, List, [], ◌∷◌, ◌++◌, Option, none,
  some, if◌then◌else◌, leb,
}
use braintrust_coding_agent.Collections.{Key, same}
use braintrust_coding_agent.Translator.{Result, ok, err}
use braintrust_coding_agent.Wire.{SessionConfig}
use braintrust_coding_agent.Recovery
use braintrust_coding_agent.Recovery.{
  Boundary, Failure, RecoveryOutcome, now_ms, saturating_add_i64,
}
use braintrust_coding_agent.Submission.{Sink}
use braintrust_coding_agent.Consumer.{
  Delivery, Completion, Work, Held, Consumer, Options, AuthLease, resubmit, flush, credentials,
  storage, routing,
}
use braintrust_coding_agent.Consumer.Finish.{Finish, settle, after_flush, finish, hold}

-- `u32::MAX`
abbrev u32_max : ℕ
u32_max = 4294967295

-- What the selects of the loop answer: settings were replaced, the source failed (with a `Failure`
-- or another error) or handed something over, or the 250 ms of a held failure are over.
pub data Event (A C Config E D : Type 0) : Type 0 where
  changed : Config → Event A C Config E D
  refused : Failure D → Event A C Config E D
  broken : E → Event A C Config E D
  delivered : Delivery A C → Event A C Config E D
  woke : Event A C Config E D

-- What a turn did: the obligations it completed, the task and the world after it.
pub record Turn (S W C Config D : Type 0) : Type 0 where
  pub completed : List C
  pub task : Consumer S C Config D
  pub world : W

module _ {A C Config E D : Type 0} where
  abbrev pub settings_of : Event A C Config E D → Config → Config
  settings_of (changed config) current = config
  settings_of _ current = current

module _ {S C Config D : Type 0} where
  -- `pending.push_back(delivery.map(|_| ()))`
  abbrev pub accepted : {A : Type 0} → Delivery A C → Consumer S C Config D → Consumer S C Config D
  accepted d t = record t {
    pending = t.pending ++ record { value = tt; completion = d.completion } ∷ [];
  }

module _ {S W C Config D : Type 0} where
  abbrev pub turn_of : Consumer S C Config D → Finish S W C Config D → Turn S W C Config D
  turn_of t f = record { completed = f.completed; task = t; world = f.world }

  abbrev pub holding : Held D → Consumer S C Config D → W → Turn S W C Config D
  holding h t w = record { completed = []; task = record t { held = some h }; world = w }

module _ {S W C V O T E D Op : Type 0} (options : Options S V O T E D)
    (sink : Sink S E (SessionConfig V O T) Op) (completion : Completion W C E D) where
  abbrev pub Config : Type 0
  Config = SessionConfig V O T

  abbrev pub Task : Type 0
  Task = Consumer S C Config D

  -- `clock k` is the `k`-th time that the turn asks for
  module _ (clock : ℕ → ℕ) where
    -- the rest of the turn once its condition is met
    unfoldable pub retry :
        Option (Result E AuthLease) → Failure D → Work → Task → W → Turn S W C Config D
    retry lease failure work t w =
        let attempts = min (failure.attempt + 1) u32_max in
        let t' = record t { recovery = some (failure, true); attempts = attempts } in
        let refreshed : Result String Config = elim failure.boundary [
          | Boundary.credentials ↦ credentials options lease t.config
          | _ ↦ ok t.config
        ] in
        elim refreshed [
          | err error ↦ record {
            completed = [];
            task = record t' {
              held = some (record {
                failure = Recovery.credentials_failure (clock 3) error attempts;
                work = work;
              });
            };
            world = w;
          }
          | ok config ↦
              let f =
                finish options sink completion (clock 3) config attempts work
                  (record t' { config = config }) w in
              turn_of (settle f) f
        ]

    module _ ⦃failures : Key (Option (Failure D))⦄ ⦃digests : Key (Option D)⦄
        ⦃lists : Key (List (Option D))⦄ where
      abbrev pub is_waiting : Failure D → Config → Bool
      is_waiting failure config =
          elim (Recovery.process options.world (clock 2) (some config) options.version failure) [
            | RecoveryOutcome.waiting ↦ true
            | RecoveryOutcome.retry ↦ false
          ]

      -- the report that is due: the failure, the one that is reported, the task and the world
      unfoldable pub report : Failure D → Task → W → Failure D × Failure D × Task × W
      report failure t w =
          let (reported, failure', t', w') = hold options sink completion failure t w in
          if not (same t.recorded (some failure)) && leb t.record_retry (now_ms (clock 0))
          then (if reported
              then (failure', failure', record t' { recorded = some failure' }, w')
              else (
                failure',
                failure,
                record t' { record_retry = saturating_add_i64 (now_ms (clock 1)) 1000 },
                w',
              ))
          else (failure, failure, t, w)

      -- `settings` are the configuration that is current when the wait is over
      unfoldable pub turn_held :
          Option (Result E AuthLease) → Config → Held D → Task → W → Turn S W C Config D
      turn_held lease settings h t w =
          let (failure, reported, t1, w1) = report h.failure (record t { held = none }) w in
          let t2 = record t1 { config = settings } in
          if not (same t2.recorded (some reported)) || is_waiting failure settings
          then record {
            completed = [];
            task = record t2 { held = some (record { failure = failure; work = h.work }) };
            world = w1;
          }
          else retry lease failure h.work t2 w1

    -- the sink could not be made
    unfoldable pub no_sink : E → Task → W → Turn S W C Config D
    no_sink error t w =
        let stored = storage options (clock 0) error t.attempts resubmit in
        let (h, emitted) = routing options (clock 0) error t.config t.attempts t.spans_emitted in
        if options.is_store error
        then holding
            (record stored { failure = record stored.failure { boundary = Boundary.ledger } }) t w
        else holding h (record t { spans_emitted = emitted }) w

    unfoldable pub emit : S → Delivery (List Op) C → Task → W → Turn S W C Config D
    emit s d t w =
        let (result, s') = sink.emit_shared d.value (sink.configure t.config s) in
        let t' = accepted d (record t { sink = some s' }) in
        elim result [
          | err error ↦
              let (h, emitted) =
                routing options (clock 0) error t.config t.attempts t.spans_emitted in
              holding h (record t' { spans_emitted = emitted }) w
          | ok count ↦
              let f =
                finish options sink completion (clock 0) t.config t.attempts flush
                  (record t' { spans_emitted = (t.spans_emitted + count) % 2 ^ 64 }) w in
              turn_of (after_flush f) f
        ]

    unfoldable pub deliver : Delivery (List Op) C → Task → W → Turn S W C Config D
    deliver d t w = elim t.sink [
      | some s ↦ emit s d t w
      | none ↦ elim (options.create t.config) [
        | err error ↦ no_sink error (accepted d t) w
        | ok s ↦ emit s d t w
      ]
    ]

    -- a turn without a failure
    unfoldable pub attempt : Event (List Op) C Config E D → Task → W → Turn S W C Config D
    attempt (changed config) t w = record {
      completed = [];
      task = record t { config = config };
      world = w;
    }
    attempt (refused failure) t w = holding (record { failure = failure; work = resubmit }) t w
    attempt (broken error) t w = holding (storage options (clock 0) error t.attempts resubmit) t w
    attempt (delivered d) t w = deliver d t w
    attempt woke t w = record { completed = []; task = t; world = w }

    unfoldable pub turn :
        ⦃failures : Key (Option (Failure D))⦄ ⦃digests : Key (Option D)⦄
        ⦃lists : Key (List (Option D))⦄
        → Option (Result E AuthLease)
        → Event (List Op) C Config E D
        → Task
        → W
        → Turn S W C Config D
    turn lease event t w = elim t.held [
      | none ↦ attempt event t w
      | some h ↦ turn_held lease (settings_of event t.config) h t w
    ]

-- what surrounds a turn: the answer of the auth provider, the clock, and the event
pub record Moment (A C Config E D : Type 0) : Type 0 where
  pub lease : Option (Result E AuthLease)
  pub clock : ℕ → ℕ
  pub event : Event A C Config E D

module _ {S C V O T D : Type 0} where
  -- the variables of a task that is spawned
  abbrev pub spawned : SessionConfig V O T → Consumer S C (SessionConfig V O T) D
  spawned config = record {
    pending = [];
    sink = none;
    held = none;
    attempts = 0;
    recorded = none;
    record_retry = 0;
    config = config;
    error = none;
    recovery = none;
    permalink = none;
    spans_emitted = 0;
  }

module _ {S W C V O T E D Op : Type 0} (options : Options S V O T E D)
    (sink : Sink S E (SessionConfig V O T) Op) (completion : Completion W C E D)
    ⦃failures : Key (Option (Failure D))⦄ ⦃digests : Key (Option D)⦄
    ⦃lists : Key (List (Option D))⦄ where
  -- the loop, until it is stopped or its source ends
  unfoldable pub turns :
      List (Moment (List Op) C (SessionConfig V O T) E D)
      → Consumer S C (SessionConfig V O T) D
      → W
      → List (Turn S W C (SessionConfig V O T) D)
  turns [] t w = []
  turns (m ∷ moments) t w =
      let r = turn options sink completion m.clock m.lease m.event t w in
      r ∷ turns moments r.task r.world
