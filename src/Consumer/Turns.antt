-- ===== src/Consumer/Turns.antt =====
-- The loop completes no input that is not delivered.
use mathlib.Core.Path.{subst}
use mathlib.Core.List.{append_assoc, map-append}
use Prim.Native.Nat.{◌%◌}
use braintrust_coding_agent.Prelude.{
  ℕ, ◌+◌, ◌^◌, ◌≡◌, refl, sym, ap, ◌∙◌, not, ◌||◌, List, [], ◌∷◌, ◌++◌, map, Option, none, some,
  inl, inr, Bool-cases, Option-cases, String, All,
}
use braintrust_coding_agent.Collections.{Key, same}
use braintrust_coding_agent.Translator.{Result, ok, Result-cases}
use braintrust_coding_agent.Wire.{SessionConfig}
use braintrust_coding_agent.Recovery.{Boundary, Failure}
use braintrust_coding_agent.Submission.{Sink}
use braintrust_coding_agent.Consumer.{
  Delivery, Completion, Work, Held, Consumer, Options, AuthLease, flush, credentials, storage,
  routing,
}
use braintrust_coding_agent.Consumer.Loop.{
  Event, Moment, Turn, turns, spawned, changed, refused, broken, delivered, woke, retry, report,
  is_waiting, turn_held, no_sink, emit, deliver, accepted, attempt, turn, settings_of,
}
use braintrust_coding_agent.Consumer.Settled.{
  names, Took, Holds, Acknowledged, Follows, ForWork, ForHeld, IsValid, settle-IsValid,
  settle-Acknowledged, emitted-IsValid, emitted-Acknowledged,
}
use braintrust_coding_agent.Consumer.Order.{report-SameInputs}
use braintrust_coding_agent.Consumer.Acknowledged.{finish-IsFinish}

module _ {S W V O T E D Op C : Type 0} (options : Options S V O T E D)
    (sink : Sink S E (SessionConfig V O T) Op) (completion : Completion W C E D)
    (ops_of : C → List Op) where
  abbrev Task : Type 0
  Task = Consumer S C (SessionConfig V O T) D

  abbrev pub IsAcknowledged : Turn S W C (SessionConfig V O T) D → Type 0
  IsAcknowledged r = Acknowledged options sink ops_of r.task.sink r.completed (names r.task.pending)

  -- A turn that acknowledges what was delivered, and leaves a valid task.
  pub record IsTurn (r : Turn S W C (SessionConfig V O T) D) : Type 0 where
    pub acknowledged :
        Acknowledged options sink ops_of r.task.sink r.completed (names r.task.pending)
    pub valid : IsValid options sink ops_of r.task

  -- the source hands over the operations of the obligation
  abbrev pub Carries : Event (List Op) C (SessionConfig V O T) E D → Type 0
  Carries (delivered d) = ops_of d.completion ≡ d.value
  Carries _ = Unit

  module _ (clock : ℕ → ℕ) where
    retry-IsTurn :
        (lease : Option (Result E AuthLease)) (failure : Failure D) (work : Work) (t : Task) (w : W)
        → t.held ≡ none
        → ForWork options sink ops_of work t.sink (names t.pending)
        → IsTurn (retry options sink completion clock lease failure work t w)
    unfolding retry
    retry-IsTurn lease failure work t w free h =
        let refreshed : Result String (SessionConfig V O T) = elim failure.boundary [
          | Boundary.credentials ↦ credentials options lease t.config
          | _ ↦ ok t.config
        ] in
        elim (Result-cases refreshed) [
          | inl (e, failed) ↦ rw (failed, retry) (record { acknowledged = inl refl; valid = h })
          | inr (config, done) ↦
              rw (done, retry)
                (let f =
                    finish-IsFinish options sink completion ops_of (clock 3) _ config work _ w free
                      h in
                  record {
                    acknowledged = settle-Acknowledged options sink ops_of _ f;
                    valid = settle-IsValid options sink ops_of _ f;
                  })
        ]

    module _ ⦃failures : Key (Option (Failure D))⦄ ⦃digests : Key (Option D)⦄
        ⦃lists : Key (List (Option D))⦄ where
      turn_held-IsTurn :
          (lease : Option (Result E AuthLease)) (settings : SessionConfig V O T) (h : Held D)
          (t : Task) (w : W)
          → ForWork options sink ops_of h.work t.sink (names t.pending)
          → IsTurn (turn_held options sink completion clock lease settings h t w)
      unfolding turn_held
      turn_held-IsTurn lease settings h t w kept =
          let r = report options sink completion clock h.failure (record t { held = none }) w in
          let (same_held, same_sink, same_pending) =
            report-SameInputs options sink completion clock h.failure (record t { held = none })
              w in
          let kept' : ForWork options sink ops_of h.work r.2.sink (names r.2.pending) =
            rw (same_sink, same_pending) kept in
          elim (Bool-cases (
            not (same r.2.recorded (some r.1))
            || is_waiting options sink completion clock r.0 settings)) [
              | inl waits ↦
                  rw (waits, turn_held) (record { acknowledged = inl refl; valid = kept' })
              | inr ready ↦
                  rw (ready, turn_held)
                    (retry-IsTurn lease r.0 h.work (record r.2 { config = settings }) r.3 same_held
                      kept')
            ]

    sent_push :
        (batches : List (List Op)) (d : Delivery (List Op) C) (pending : List (Delivery Unit C))
        → ops_of d.completion ≡ d.value
        → (batches ++ map ops_of (names pending)) ++ d.value ∷ []
          ≡ batches
            ++ map ops_of (names (pending ++ record { value = tt; completion = d.completion } ∷ []))
    sent_push batches d pending carries =
        append_assoc batches (map ops_of (names pending)) (d.value ∷ [])
        ∙ ap (λ bs. batches ++ bs)
            (ap (λ o. map ops_of (names pending) ++ o ∷ []) (sym carries)
              ∙ sym (map-append ops_of (names pending) (d.completion ∷ []))
              ∙ ap (map ops_of) (
                  sym (
                    map-append (λ (x : Delivery Unit C). x.completion) pending
                      (record { value = tt; completion = d.completion } ∷ []))))

    abbrev sent_to : Delivery (List Op) C → Task → S → ℕ → Task
    sent_to d t s n = record (accepted d (record t { sink = some s })) {
      spans_emitted = (t.spans_emitted + n) % 2 ^ 64;
    }

    emit-IsTurn :
        (s : S) (d : Delivery (List Op) C) (t : Task) (w : W)
        → t.held ≡ none
        → Holds options sink ops_of s (names t.pending)
        → ops_of d.completion ≡ d.value
        → IsTurn (emit options sink completion clock s d t w)
    unfolding emit routing
    emit-IsTurn s d t w free (batches, took) carries =
        let sent = sink.emit_shared d.value (sink.configure t.config s) in
        elim (Result-cases sent.0) [
          | inl (e, failed) ↦ rw (failed, emit) (record { acknowledged = inl refl; valid = tt })
          | inr (n, done) ↦
              let took' : Holds options sink ops_of sent.1 (names (accepted d t).pending) = (
                batches,
                subst (Took options sink ops_of sent.1) (sent_push batches d t.pending carries)
                    (Took.emitted t.config s sent.1 d.value _ n took (ap (λ r. (r, sent.1)) done)),
              ) in
              rw (done, emit)
                (let f =
                    finish-IsFinish options sink completion ops_of (clock 0) t.attempts t.config
                      flush (sent_to d t sent.1 n) w free took' in
                  record {
                    acknowledged = emitted-Acknowledged options sink ops_of _ f;
                    valid = emitted-IsValid options sink ops_of _ f;
                  })
        ]

    deliver-IsTurn :
        (d : Delivery (List Op) C) (t : Task) (w : W)
        → t.held ≡ none
        → Follows options sink ops_of t.sink (names t.pending)
        → ops_of d.completion ≡ d.value
        → IsTurn (deliver options sink completion clock d t w)
    unfolding deliver no_sink storage routing
    deliver-IsTurn d t w free follows carries = elim (Option-cases t.sink) [
      | inr (s, there) ↦
          rw (there, deliver)
            (emit-IsTurn s d t w free
              (subst (λ s. Follows options sink ops_of s (names t.pending)) there follows) carries)
      | inl nothing ↦
          let idle : names t.pending ≡ [] =
            subst (λ s. Follows options sink ops_of s (names t.pending)) nothing follows in
          elim (Result-cases (options.create t.config)) [
            | inl (e, failed) ↦ elim (Bool-cases (options.is_store e)) [
              | inl stored ↦
                  rw (nothing, failed, deliver, no_sink, stored)
                    (record { acknowledged = inl refl; valid = tt })
              | inr other ↦
                  rw (nothing, failed, deliver, no_sink, other)
                    (record { acknowledged = inl refl; valid = tt })
            ]
            | inr (s, made) ↦
                rw (nothing, made, deliver)
                  (emit-IsTurn s d t w free
                    (
                      [],
                      subst (λ cs. Took options sink ops_of s (map ops_of cs)) (sym idle)
                          (Took.created t.config s made),
                    )
                    carries)
          ]
    ]

    attempt-IsTurn :
        (event : Event (List Op) C (SessionConfig V O T) E D) (t : Task) (w : W)
        → t.held ≡ none
        → Follows options sink ops_of t.sink (names t.pending)
        → Carries event
        → IsTurn (attempt options sink completion clock event t w)
    unfolding attempt storage
    attempt-IsTurn (changed config) t w free follows carries = record {
      acknowledged = inl refl;
      valid = rw free follows;
    }
    attempt-IsTurn (refused failure) t w free follows carries = record {
      acknowledged = inl refl;
      valid = tt;
    }
    attempt-IsTurn (broken error) t w free follows carries = record {
      acknowledged = inl refl;
      valid = tt;
    }
    attempt-IsTurn (delivered d) t w free follows carries =
        deliver-IsTurn d t w free follows carries
    attempt-IsTurn woke t w free follows carries = record {
      acknowledged = inl refl;
      valid = rw free follows;
    }

    turn-IsTurn :
        ⦃failures : Key (Option (Failure D))⦄ ⦃digests : Key (Option D)⦄
        ⦃lists : Key (List (Option D))⦄
        → (lease : Option (Result E AuthLease))
          (event : Event (List Op) C (SessionConfig V O T) E D) (t : Task) (w : W)
        → IsValid options sink ops_of t
        → Carries event
        → IsTurn (turn options sink completion clock lease event t w)
    unfolding turn
    turn-IsTurn lease event t w valid carries = elim (Option-cases t.held) [
      | inl free ↦
          rw (free, turn)
            (attempt-IsTurn event t w free
              (subst (λ h. ForHeld options sink ops_of h t.sink (names t.pending)) free valid)
              carries)
      | inr (h, held) ↦
          rw (held, turn)
            (turn_held-IsTurn lease (settings_of event t.config) h t w
              (subst (λ h. ForHeld options sink ops_of h t.sink (names t.pending)) held valid))
    ]

  module _ ⦃failures : Key (Option (Failure D))⦄ ⦃digests : Key (Option D)⦄
      ⦃lists : Key (List (Option D))⦄ where
    abbrev pub CarriesOps : Moment (List Op) C (SessionConfig V O T) E D → Type 0
    CarriesOps m = Carries m.event

    each-IsAcknowledged :
        (moments : List (Moment (List Op) C (SessionConfig V O T) E D)) (t : Task) (w : W)
        → All CarriesOps moments
        → IsValid options sink ops_of t
        → All IsAcknowledged (turns options sink completion moments t w)
    unfolding turns
    each-IsAcknowledged [] t w carry valid = tt
    each-IsAcknowledged (m ∷ moments) t w (here, later) valid =
        let first = turn-IsTurn m.clock m.lease m.event t w valid here in
        (first.acknowledged, each-IsAcknowledged moments _ _ later first.valid)

    -- From the start of the task on, whatever the sink, the source and the settings answer, each
    -- turn that completes obligations leaves the task with a sink that has just been flushed with
    -- success and has nothing pending, and that took the operations of these obligations and, right
    -- after them and as the last, those of the obligations still pending, both in their order; if
    -- what the source hands over carries the operations `ops_of` its obligation.
    pub turns-IsAcknowledged :
        (config : SessionConfig V O T)
        (moments : List (Moment (List Op) C (SessionConfig V O T) E D)) (w : W)
        → All CarriesOps moments
        → All IsAcknowledged (turns options sink completion moments (spawned config) w)
    turns-IsAcknowledged config moments w carry =
        each-IsAcknowledged moments (spawned config) w carry refl
