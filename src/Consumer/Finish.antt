-- ===== src/Consumer/Finish.antt =====
-- `finish`, which flushes and acknowledges, and `hold`, which reports a failure.
use braintrust_coding_agent.Prelude.{
  ℕ, Bool, true, false, List, [], ◌∷◌, Option, none, some, if◌then◌else◌,
}
use braintrust_coding_agent.Translator.{Result, ok, err}
use braintrust_coding_agent.Wire.{SessionConfig}
use braintrust_coding_agent.Recovery.{Failure}
use braintrust_coding_agent.Submission.{Sink}
use braintrust_coding_agent.Consumer.{
  Completion, Work, Held, Consumer, Options, resubmit, flush, complete, storage, routing,
  complete_all,
}

-- what `finish` did, and its result
pub record Finish (S W C Config D : Type 0) : Type 0 where
  pub completed : List C
  pub result : Result (Held D) Bool
  pub task : Consumer S C Config D
  pub world : W

module _ {S W C Config D : Type 0} where
  abbrev pub finished :
      List C → Result (Held D) Bool → Consumer S C Config D → W → Finish S W C Config D
  finished completed result t w = record {
    completed = completed;
    result = result;
    task = t;
    world = w;
  }

  -- what comes of a call of `finish`
  unfoldable pub settle : Finish S W C Config D → Consumer S C Config D
  settle f = elim f.result [
    | ok true ↦ record f.task { error = none; recovery = none; recorded = none }
    | ok false ↦ f.task
    | err held ↦ record f.task { held = some held }
  ]

  -- what comes of a delivery whose operations were emitted
  unfoldable pub after_flush : Finish S W C Config D → Consumer S C Config D
  after_flush f = let t = settle f in elim f.result [ ok true ↦ record t { attempts = 0 } | _ ↦ t ]

module _ {S W C V O T E D Op : Type 0} (options : Options S V O T E D)
    (sink : Sink S E (SessionConfig V O T) Op) (completion : Completion W C E D) where
  abbrev pub Config : Type 0
  Config = SessionConfig V O T

  abbrev pub Task : Type 0
  Task = Consumer S C Config D

  -- the loop at the end of `finish`
  unfoldable pub finish_pending : ℕ → ℕ → Task → W → Finish S W C Config D
  finish_pending millis attempt t w =
      let (done, error, left, w') = complete_all completion t.pending w in
      let t' = record t { pending = left } in
      elim error [
        | none ↦ finished done (ok true) t' w'
        | some e ↦ finished done (err (storage options millis e attempt complete)) t' w'
      ]

  -- a flush that fails
  unfoldable pub flush_failed : ℕ → ℕ → Config → E → Task → W → Finish S W C Config D
  flush_failed millis attempt config error t w =
      let (held, emitted) = routing options millis error config attempt t.spans_emitted in
      if options.is_commit error
      then finished [] (err (storage options millis error attempt flush)) t w
      else finished [] (err held) (record t { spans_emitted = emitted }) w

  unfoldable pub finish_flush : ℕ → ℕ → Config → Option S → Task → W → Finish S W C Config D
  finish_flush millis attempt config none t w =
      let error = options.anyhow "accepted delivery has no sink" in
      finished [] (err (storage options millis error attempt flush)) t w
  finish_flush millis attempt config (some s) t w =
      let (result, s') = sink.flush s in
      let t' = record t { sink = some s' } in
      elim result [
        | err error ↦ flush_failed millis attempt config error t' w
        | ok _ ↦
            let t'' = record t' { permalink = sink.permalink s' } in
            if sink.has_pending_delivery s'
            then finished [] (ok false) t'' w
            else finish_pending millis attempt t'' w
      ]

  unfoldable pub finish : ℕ → Config → ℕ → Work → Task → W → Finish S W C Config D
  finish millis config attempt resubmit t w =
      finished [] (ok false) (record t { sink = none; pending = [] }) w
  finish millis config attempt flush t w = finish_flush millis attempt config t.sink t w
  finish millis config attempt complete t w = finish_pending millis attempt t w

  -- `ConsumerOptions::hold`: whether the failure is reported, the failure, what is shared, and the world
  unfoldable pub hold : Failure D → Task → W → Bool × Failure D × Task × W
  hold failure t w =
      let (result, failure', w') : Result E Unit × Failure D × W = elim t.pending [
        | [] ↦ (ok tt, failure, w)
        | delivery ∷ _ ↦ completion.failed failure delivery.completion w
      ] in
      let t' = record t {
        error = some (options.message failure');
        recovery = some (failure', false);
      } in
      (elim result [ ok _ ↦ true | err _ ↦ false ], failure', t', w')
