-- ===== src/Consumer/Acknowledged.antt =====
-- `finish` completes no input that is not delivered.
use mathlib.Core.Path.{subst}
use mathlib.Core.List.{append_assoc, map-append}
use braintrust_coding_agent.Prelude.{
  ℕ, ◌≡◌, refl, sym, ap, ◌∙◌, List, ◌++◌, map, Option, none, some, inl, inr, Bool-cases,
  Option-cases,
}
use braintrust_coding_agent.Translator.{Result-cases}
use braintrust_coding_agent.Wire.{SessionConfig}
use braintrust_coding_agent.Submission.{Sink}
use braintrust_coding_agent.Consumer.{
  Completion, Work, Consumer, Options, resubmit, flush, complete, complete_all, storage, routing,
}
use braintrust_coding_agent.Consumer.Finish.{finish_pending, flush_failed, finish_flush, finish}
use braintrust_coding_agent.Consumer.Settled.{
  names, complete_all-names, complete_all-cases, Took, IsSettled, Holds, Follows, Rests, ForWork,
  IsFinish,
}

module _ {S W V O T E D Op C : Type 0} (options : Options S V O T E D)
    (sink : Sink S E (SessionConfig V O T) Op) (completion : Completion W C E D)
    (ops_of : C → List Op) where
  abbrev Task : Type 0
  Task = Consumer S C (SessionConfig V O T) D

  -- what the sink took of the first obligations counts to the others' past
  Holds-later :
      (s : S) (done later : List C)
      → Holds options sink ops_of s (done ++ later)
      → Holds options sink ops_of s later
  Holds-later s done later (batches, took) = (
    batches ++ map ops_of done,
    subst (λ bs. Took options sink ops_of s bs)
        (ap (λ bs. batches ++ bs) (map-append ops_of done later)
          ∙ sym (append_assoc batches (map ops_of done) (map ops_of later)))
        took,
  )

  finish_pending-IsFinish :
      (millis attempts : ℕ) (s : S) (t : Task) (w : W)
      → t.held ≡ none
      → t.sink ≡ some s
      → IsSettled options sink ops_of s
      → Holds options sink ops_of s (names t.pending)
      → IsFinish options sink ops_of (finish_pending options sink completion millis attempts t w)
  unfolding finish_pending storage
  finish_pending-IsFinish millis attempts s t w free there settled holds =
      let (done, error, left, w') = complete_all completion t.pending w in
      let all : Holds options sink ops_of s (done ++ names left) =
        subst (Holds options sink ops_of s) (sym (complete_all-names completion t.pending w))
          holds in
      let rest = Holds-later s done (names left) all in
      elim (complete_all-cases completion t.pending w) [
        | inl (none_left, succeeds) ↦
            rw (succeeds, finish_pending)
              (record {
                acknowledged = inr (s, there, settled, all);
                free = free;
                kept = rw there rest;
              })
        | inr (e, fails) ↦
            rw (fails, finish_pending)
              (record {
                acknowledged = inr (s, there, settled, all);
                free = free;
                kept = rw there (settled, rest);
              })
      ]

  finish_flush-IsFinish :
      (millis attempts : ℕ) (config : SessionConfig V O T) (s : Option S) (t : Task) (w : W)
      → t.held ≡ none
      → t.sink ≡ s
      → Follows options sink ops_of s (names t.pending)
      → IsFinish options sink ops_of
          (finish_flush options sink completion millis attempts config s t w)
  unfolding finish_flush flush_failed storage routing
  finish_flush-IsFinish millis attempts config none t w free there follows = record {
    acknowledged = inl refl;
    free = free;
    kept = rw there follows;
  }
  finish_flush-IsFinish millis attempts config (some s) t w free there (batches, took) =
      let took' : Took options sink ops_of (sink.flush s).1
          (batches ++ map ops_of (names t.pending)) =
        Took.flushed s _ took in
      elim (Result-cases (sink.flush s).0) [
        | inl (e, failed) ↦ elim (Bool-cases (options.is_commit e)) [
          | inl commit ↦
              rw (failed, finish_flush, flush_failed, commit)
                (record { acknowledged = inl refl; free = free; kept = (batches, took') })
          | inr other ↦
              rw (failed, finish_flush, flush_failed, other)
                (record { acknowledged = inl refl; free = free; kept = tt })
        ]
        | inr (_, accepted) ↦ elim (Bool-cases (sink.has_pending_delivery (sink.flush s).1)) [
          | inl deferred ↦
              rw (accepted, finish_flush, deferred)
                (record { acknowledged = inl refl; free = free; kept = (batches, took') })
          | inr clear ↦
              rw (accepted, finish_flush, clear)
                (finish_pending-IsFinish millis attempts (sink.flush s).1
                  (record t {
                    sink = some (sink.flush s).1;
                    permalink = sink.permalink (sink.flush s).1;
                  })
                  w free refl
                  (record {
                    before = s;
                    accepted = ap (λ r. (r, (sink.flush s).1)) accepted;
                    nothing_pending = clear;
                  })
                  (batches, took'))
        ]
      ]

  pub finish-IsFinish :
      (millis attempts : ℕ) (config : SessionConfig V O T) (work : Work) (t : Task) (w : W)
      → t.held ≡ none
      → ForWork options sink ops_of work t.sink (names t.pending)
      → IsFinish options sink ops_of
          (finish options sink completion millis config attempts work t w)
  unfolding finish
  finish-IsFinish millis attempts config resubmit t w free h = record {
    acknowledged = inl refl;
    free = free;
    kept = refl;
  }
  finish-IsFinish millis attempts config flush t w free h =
      finish_flush-IsFinish millis attempts config t.sink t w free refl h
  finish-IsFinish millis attempts config complete t w free h = elim (Option-cases t.sink) [
    | inl nothing ↦ absurd (subst (λ s. Rests options sink ops_of s (names t.pending)) nothing h)
    | inr (s, there) ↦
        let (settled, holds) = subst (λ s. Rests options sink ops_of s (names t.pending)) there h in
        finish_pending-IsFinish millis attempts s t w free there settled holds
  ]
