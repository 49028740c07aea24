-- ===== src/Consumer/Order.antt =====
-- Inputs are completed in the order of their receipt, or dropped together.
use mathlib.Core.Path.{subst}
use mathlib.Core.List.{append-nil, map-append}
use braintrust_coding_agent.Prelude.{
  ℕ, ◌≡◌, refl, sym, ap, true, false, not, ◌&&◌, ◌||◌, List, [], ◌∷◌, ◌++◌, Option, none, some, ◌⊎◌,
  inl, inr, Bool-cases, Option-cases, String, leb,
}
use braintrust_coding_agent.Collections.{Key, same}
use braintrust_coding_agent.Translator.{Result, ok, Result-cases}
use braintrust_coding_agent.Wire.{SessionConfig}
use braintrust_coding_agent.Recovery.{Boundary, Failure, now_ms}
use braintrust_coding_agent.Submission.{Sink}
use braintrust_coding_agent.Consumer.{
  Delivery, Completion, Work, Held, Consumer, Options, AuthLease, resubmit, flush, complete,
  complete_all, credentials,
}
use braintrust_coding_agent.Consumer.Finish.{
  Finish, finish_pending, flush_failed, finish_flush, finish, settle, after_flush, hold,
}
use braintrust_coding_agent.Consumer.Loop.{
  Event, changed, refused, broken, delivered, woke, retry, report, is_waiting, turn_held, no_sink,
  emit, deliver, attempt, turn, settings_of,
}
use braintrust_coding_agent.Consumer.Settled.{names, complete_all-names}

module _ {S W V O T E D Op C : Type 0} (options : Options S V O T E D)
    (sink : Sink S E (SessionConfig V O T) Op) (completion : Completion W C E D) where
  abbrev Task : Type 0
  Task = Consumer S C (SessionConfig V O T) D

  -- The first of `before` are completed and the others stay, or all are dropped with the sink.
  abbrev pub Keeps : List C → List C → Task → Type 0
  Keeps before done t =
      (done ++ names t.pending ≡ before) ⊎ ((done ≡ []) × (t.pending ≡ []) × (t.sink ≡ none))

  finish_pending-Keeps :
      (millis attempts : ℕ) (t : Task) (w : W)
      → (let f = finish_pending options sink completion millis attempts t w in
          f.completed ++ names f.task.pending ≡ names t.pending)
  unfolding finish_pending
  finish_pending-Keeps millis attempts t w =
      elim (Option-cases (complete_all completion t.pending w).1) [
        | inl succeeds ↦ rw (succeeds, finish_pending) (complete_all-names completion t.pending w)
        | inr (e, fails) ↦ rw (fails, finish_pending) (complete_all-names completion t.pending w)
      ]

  finish_flush-Keeps :
      (millis attempts : ℕ) (config : SessionConfig V O T) (s : Option S) (t : Task) (w : W)
      → (let f = finish_flush options sink completion millis attempts config s t w in
          f.completed ++ names f.task.pending ≡ names t.pending)
  unfolding finish_flush flush_failed
  finish_flush-Keeps millis attempts config none t w = refl
  finish_flush-Keeps millis attempts config (some s) t w = elim (Result-cases (sink.flush s).0) [
    | inl (e, failed) ↦ elim (Bool-cases (options.is_commit e)) [
      | inl commit ↦ rw (failed, finish_flush, flush_failed, commit) refl
      | inr other ↦ rw (failed, finish_flush, flush_failed, other) refl
    ]
    | inr (_, done) ↦ elim (Bool-cases (sink.has_pending_delivery (sink.flush s).1)) [
      | inl deferred ↦ rw (done, finish_flush, deferred) refl
      | inr clear ↦
          rw (done, finish_flush, clear)
            (finish_pending-Keeps millis attempts
              (record t {
                sink = some (sink.flush s).1;
                permalink = sink.permalink (sink.flush s).1;
              })
              w)
    ]
  ]

  finish-Keeps :
      (millis attempts : ℕ) (config : SessionConfig V O T) (work : Work) (t : Task) (w : W)
      → (let f = finish options sink completion millis config attempts work t w in
          Keeps (names t.pending) f.completed f.task)
  unfolding finish
  finish-Keeps millis attempts config resubmit t w = inr (refl, refl, refl)
  finish-Keeps millis attempts config flush t w =
      inl (finish_flush-Keeps millis attempts config t.sink t w)
  finish-Keeps millis attempts config complete t w = inl (finish_pending-Keeps millis attempts t w)

  settle-Keeps :
      (before : List C) (f : Finish S W C (SessionConfig V O T) D)
      → Keeps before f.completed f.task
      → Keeps before f.completed (settle f)
  unfolding settle
  settle-Keeps before f h = elim (Result-cases f.result) [
    | inl (held, e) ↦ rw e h
    | inr (true, e) ↦ rw e h
    | inr (false, e) ↦ rw e h
  ]

  emitted-Keeps :
      (before : List C) (f : Finish S W C (SessionConfig V O T) D)
      → Keeps before f.completed f.task
      → Keeps before f.completed (after_flush f)
  unfolding after_flush
  emitted-Keeps before f h = elim (Result-cases f.result) [
    | inl (held, e) ↦ rw (after_flush, e) (settle-Keeps before f h)
    | inr (true, e) ↦ rw (after_flush, e) (settle-Keeps before f h)
    | inr (false, e) ↦ rw (after_flush, e) (settle-Keeps before f h)
  ]

  -- the obligations that a turn starts with: one without a failure receives
  abbrev pub received : Option (Held D) → Event (List Op) C (SessionConfig V O T) E D → List C
  received none (delivered d) = d.completion ∷ []
  received _ _ = []

  abbrev SameInputs : Task → Task → Type 0
  SameInputs t' t = (t'.held ≡ t.held) × (t'.sink ≡ t.sink) × (t'.pending ≡ t.pending)

  module _ (clock : ℕ → ℕ) where
    retry-Keeps :
        (lease : Option (Result E AuthLease)) (failure : Failure D) (work : Work) (t : Task) (w : W)
        → (let r = retry options sink completion clock lease failure work t w in
            Keeps (names t.pending) r.completed r.task)
    unfolding retry
    retry-Keeps lease failure work t w =
        let refreshed : Result String (SessionConfig V O T) = elim failure.boundary [
          | Boundary.credentials ↦ credentials options lease t.config
          | _ ↦ ok t.config
        ] in
        elim (Result-cases refreshed) [
          | inl (e, failed) ↦ rw (failed, retry) (inl refl)
          | inr (config, done) ↦
              rw (done, retry)
                (settle-Keeps (names t.pending) _ (finish-Keeps (clock 3) _ config work _ w))
        ]

    module _ ⦃failures : Key (Option (Failure D))⦄ ⦃digests : Key (Option D)⦄
        ⦃lists : Key (List (Option D))⦄ where
      pub report-SameInputs :
          (failure : Failure D) (t : Task) (w : W)
          → SameInputs (report options sink completion clock failure t w).2 t
      unfolding report hold
      report-SameInputs failure t w =
          elim (Bool-cases
            (not (same t.recorded (some failure)) && leb t.record_retry (now_ms (clock 0)))) [
              | inr early ↦ rw (early, report) (refl, refl, refl)
              | inl due ↦ elim (Bool-cases (hold options sink completion failure t w).0) [
                | inl reported ↦ rw (due, report, reported) (refl, refl, refl)
                | inr lost ↦ rw (due, report, lost) (refl, refl, refl)
              ]
            ]

      turn_held-Keeps :
          (lease : Option (Result E AuthLease)) (settings : SessionConfig V O T) (h : Held D)
          (t : Task) (w : W)
          → (let r = turn_held options sink completion clock lease settings h t w in
              Keeps (names t.pending) r.completed r.task)
      unfolding turn_held
      turn_held-Keeps lease settings h t w =
          let r = report options sink completion clock h.failure (record t { held = none }) w in
          let (_, _, same_pending) = report-SameInputs h.failure (record t { held = none }) w in
          elim (Bool-cases (
            not (same r.2.recorded (some r.1))
            || is_waiting options sink completion clock r.0 settings)) [
              | inl waits ↦ rw (waits, turn_held) (inl (ap names same_pending))
              | inr ready ↦
                  let t' : Task = record r.2 { config = settings } in
                  let rest = retry options sink completion clock lease r.0 h.work t' r.3 in
                  rw (ready, turn_held)
                    (subst (λ cs. Keeps cs rest.completed rest.task) (ap names same_pending)
                      (retry-Keeps lease r.0 h.work t' r.3))
            ]

    emit-Keeps :
        (s : S) (d : Delivery (List Op) C) (t : Task) (w : W)
        → (let r = emit options sink completion clock s d t w in
            Keeps (names t.pending ++ d.completion ∷ []) r.completed r.task)
    unfolding emit
    emit-Keeps s d t w =
        let sent = sink.emit_shared d.value (sink.configure t.config s) in
        let pushed =
          map-append (λ (x : Delivery Unit C). x.completion) t.pending
            (record { value = tt; completion = d.completion } ∷ []) in
        elim (Result-cases sent.0) [
          | inl (e, failed) ↦ rw (failed, emit) (inl pushed)
          | inr (n, done) ↦
              rw (done, emit, sym pushed)
                (emitted-Keeps _ _ (finish-Keeps (clock 0) t.attempts t.config flush _ w))
        ]

    deliver-Keeps :
        (d : Delivery (List Op) C) (t : Task) (w : W)
        → (let r = deliver options sink completion clock d t w in
            Keeps (names t.pending ++ d.completion ∷ []) r.completed r.task)
    unfolding deliver no_sink
    deliver-Keeps d t w =
        let pushed =
          map-append (λ (x : Delivery Unit C). x.completion) t.pending
            (record { value = tt; completion = d.completion } ∷ []) in
        elim (Option-cases t.sink) [
          | inr (s, there) ↦ rw (there, deliver) (emit-Keeps s d t w)
          | inl nothing ↦ elim (Result-cases (options.create t.config)) [
            | inl (e, failed) ↦ elim (Bool-cases (options.is_store e)) [
              | inl stored ↦ rw (nothing, failed, deliver, no_sink, stored) (inl pushed)
              | inr other ↦ rw (nothing, failed, deliver, no_sink, other) (inl pushed)
            ]
            | inr (s, made) ↦ rw (nothing, made, deliver) (emit-Keeps s d t w)
          ]
        ]

    attempt-Keeps :
        (event : Event (List Op) C (SessionConfig V O T) E D) (t : Task) (w : W)
        → (let r = attempt options sink completion clock event t w in
            Keeps (names t.pending ++ received none event) r.completed r.task)
    unfolding attempt
    attempt-Keeps (changed config) t w = inl (sym (append-nil (names t.pending)))
    attempt-Keeps (refused failure) t w = inl (sym (append-nil (names t.pending)))
    attempt-Keeps (broken error) t w = inl (sym (append-nil (names t.pending)))
    attempt-Keeps (delivered d) t w = deliver-Keeps d t w
    attempt-Keeps woke t w = inl (sym (append-nil (names t.pending)))

    -- A turn completes the oldest of the obligations, in their order, and the others stay pending
    -- in theirs, with the one that a turn without a held failure receives as the last; or it
    -- completes none and drops them all with the sink.
    pub turn-Keeps :
        ⦃failures : Key (Option (Failure D))⦄ ⦃digests : Key (Option D)⦄
        ⦃lists : Key (List (Option D))⦄
        → (lease : Option (Result E AuthLease))
          (event : Event (List Op) C (SessionConfig V O T) E D) (t : Task) (w : W)
        → (let r = turn options sink completion clock lease event t w in
            Keeps (names t.pending ++ received t.held event) r.completed r.task)
    unfolding turn
    turn-Keeps lease event t w = elim (Option-cases t.held) [
      | inl free ↦ rw (free, turn) (attempt-Keeps event t w)
      | inr (h, held) ↦
          rw (held, turn, append-nil (names t.pending))
            (turn_held-Keeps lease (settings_of event t.config) h t w)
    ]
