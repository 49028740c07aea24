-- ===== src/Consumer/Settled.antt =====
-- What is known of an input when it is acknowledged.
use mathlib.Core.Path.{subst}
use braintrust_coding_agent.Prelude.{
  ℕ, ◌≡◌, refl, ap, Bool, true, false, List, [], ◌∷◌, ◌++◌, map, Option, none, some, ◌⊎◌, inl, inr,
}
use braintrust_coding_agent.Translator.{Result, ok, err, Result-cases}
use braintrust_coding_agent.Wire.{SessionConfig}
use braintrust_coding_agent.Submission.{Sink}
use braintrust_coding_agent.Consumer.{
  Delivery, Completion, Work, Held, Consumer, Options, resubmit, flush, complete, into_completed,
  complete_all,
}
use braintrust_coding_agent.Consumer.Finish.{after_flush, Finish, settle}

module _ {A C : Type 0} where
  abbrev pub names : List (Delivery A C) → List C
  names pending = map (λ (d : Delivery A C). d.completion) pending

module _ {W C E D : Type 0} (completion : Completion W C E D) where
  -- what is completed and what is left are what was pending, in its order
  pub complete_all-names :
      (pending : List (Delivery Unit C)) (w : W)
      → (let (done, _, left, _) = complete_all completion pending w in
          done ++ names left ≡ names pending)
  unfolding complete_all into_completed
  complete_all-names [] w = refl
  complete_all-names (d ∷ pending) w = elim (Result-cases (completion.complete d.completion w).0) [
    | inl (e, failed) ↦ rw (failed, complete_all, into_completed) refl
    | inr (_, done) ↦
        rw (done, complete_all, into_completed)
          (ap (λ cs. d.completion ∷ cs)
            (complete_all-names pending (completion.complete d.completion w).1))
  ]

  pub complete_all-cases :
      (pending : List (Delivery Unit C)) (w : W)
      → (let (_, error, left, _) = complete_all completion pending w in
          ((left ≡ []) × (error ≡ none)) ⊎ ((e : E) × (error ≡ some e)))
  unfolding complete_all into_completed
  complete_all-cases [] w = inl (refl, refl)
  complete_all-cases (d ∷ pending) w = elim (Result-cases (completion.complete d.completion w).0) [
    | inl (e, failed) ↦ rw (failed, complete_all, into_completed) (inr (e, refl))
    | inr (_, done) ↦
        rw (done, complete_all, into_completed)
          (complete_all-cases pending (completion.complete d.completion w).1)
  ]

module _ {S V O T E D Op C : Type 0} (options : Options S V O T E D)
    (sink : Sink S E (SessionConfig V O T) Op) (ops_of : C → List Op) where
  -- The state of a sink after it has taken these batches, one after the other.
  pub data Took : S → List (List Op) → Type 0 where
    created : (config : SessionConfig V O T) (s : S) → options.create config ≡ ok s → Took s []
    emitted :
        (config : SessionConfig V O T) (s s' : S) (ops : List Op) (batches : List (List Op)) (n : ℕ)
        → Took s batches
        → sink.emit_shared ops (sink.configure config s) ≡ (ok n, s')
        → Took s' (batches ++ ops ∷ [])
    flushed : (s : S) (batches : List (List Op)) → Took s batches → Took (sink.flush s).1 batches

  -- The state after a flush that succeeded and left nothing to deliver.
  pub record IsSettled (s : S) : Type 0 where
    pub before : S
    pub accepted : sink.flush before ≡ (ok tt, s)
    pub nothing_pending : sink.has_pending_delivery s ≡ false

  -- The sink took the operations of these obligations last.
  abbrev pub Holds : S → List C → Type 0
  Holds s cs = (batches : List (List Op)) × Took s (batches ++ map ops_of cs)

  -- What holds of the obligations that are completed: the sink is settled and took their operations,
  -- and behind these, and last, those of the obligations that are still pending.
  abbrev pub Acknowledged : Option S → List C → List C → Type 0
  Acknowledged current done pending =
      (done ≡ []) ⊎ ((s : S) × (current ≡ some s) × IsSettled s × Holds s (done ++ pending))

  abbrev pub Follows : Option S → List C → Type 0
  Follows none cs = cs ≡ []
  Follows (some s) cs = Holds s cs

  abbrev pub Rests : Option S → List C → Type 0
  Rests none cs = ⊥
  Rests (some s) cs = IsSettled s × Holds s cs

  -- what a failure is held with
  abbrev pub ForWork : Work → Option S → List C → Type 0
  ForWork resubmit s cs = Unit
  ForWork flush s cs = Follows s cs
  ForWork complete s cs = Rests s cs

  abbrev pub ForHeld : Option (Held D) → Option S → List C → Type 0
  ForHeld none s cs = Follows s cs
  ForHeld (some h) s cs = ForWork h.work s cs

  abbrev pub ForResult : Result (Held D) Bool → Option S → List C → Type 0
  ForResult (ok _) s cs = Follows s cs
  ForResult (err h) s cs = ForWork h.work s cs

  -- the invariant of the loop
  abbrev pub IsValid : Consumer S C (SessionConfig V O T) D → Type 0
  IsValid t = ForHeld t.held t.sink (names t.pending)

  pub record IsFinish {W : Type 0} (f : Finish S W C (SessionConfig V O T) D) : Type 0 where
    pub acknowledged : Acknowledged f.task.sink f.completed (names f.task.pending)
    pub free : f.task.held ≡ none
    pub kept : ForResult f.result f.task.sink (names f.task.pending)

  pub settle-IsValid :
      {W : Type 0} (f : Finish S W C (SessionConfig V O T) D) → IsFinish f → IsValid (settle f)
  unfolding settle
  settle-IsValid f h =
      let kept : Result (Held D) Bool → Type 0 =
        λ r. ForResult r f.task.sink (names f.task.pending) in
      elim (Result-cases f.result) [
        | inl (held, e) ↦ rw e (subst kept e h.kept)
        | inr (true, e) ↦ rw (e, h.free) (subst kept e h.kept)
        | inr (false, e) ↦ rw (e, h.free) (subst kept e h.kept)
      ]

  pub settle-Acknowledged :
      {W : Type 0} (f : Finish S W C (SessionConfig V O T) D)
      → IsFinish f
      → Acknowledged (settle f).sink f.completed (names (settle f).pending)
  unfolding settle
  settle-Acknowledged f h = elim (Result-cases f.result) [
    | inl (held, e) ↦ rw e h.acknowledged
    | inr (true, e) ↦ rw e h.acknowledged
    | inr (false, e) ↦ rw e h.acknowledged
  ]

  pub emitted-IsValid :
      {W : Type 0} (f : Finish S W C (SessionConfig V O T) D) → IsFinish f → IsValid (after_flush f)
  unfolding after_flush
  emitted-IsValid f h =
      let valid = settle-IsValid f h in
      elim (Result-cases f.result) [
        | inl (held, e) ↦ rw (after_flush, e) valid
        | inr (true, e) ↦ rw (after_flush, e) valid
        | inr (false, e) ↦ rw (after_flush, e) valid
      ]

  pub emitted-Acknowledged :
      {W : Type 0} (f : Finish S W C (SessionConfig V O T) D)
      → IsFinish f
      → Acknowledged (after_flush f).sink f.completed (names (after_flush f).pending)
  unfolding after_flush
  emitted-Acknowledged f h =
      let acknowledged = settle-Acknowledged f h in
      elim (Result-cases f.result) [
        | inl (held, e) ↦ rw (after_flush, e) acknowledged
        | inr (true, e) ↦ rw (after_flush, e) acknowledged
        | inr (false, e) ↦ rw (after_flush, e) acknowledged
      ]
