-- ===== src/Translator.antt =====
-- The interface `AgentTranslator` of bt-daemon/src/translate/mod.rs. A translator is a state type
-- with a function for each method; `anyhow::Error` is the type `E`.
use braintrust_coding_agent.Prelude.{◌≡◌, refl, List, Option, ◌⊎◌, inl, inr}
use braintrust_coding_agent.Span.{SpanOp}

pub data Result (E A : Type 0) : Type 0 where
  ok : A → Result E A
  err : E → Result E A

pub Result-cases :
    {E A : Type 0} (r : Result E A) → ((e : E) × (r ≡ err e)) ⊎ ((a : A) × (r ≡ ok a))
Result-cases (err e) = inl (e, refl)
Result-cases (ok a) = inr (a, refl)

-- `Ok(f(result?))`
abbrev pub map_ok : {E A B : Type 0} → (A → B) → Result E A → Result E B
map_ok f (ok a) = ok (f a)
map_ok f (err e) = err e

-- `Ctx` is the session context and `Bounds` the map of observation bounds.
pub record AgentTranslator (S E Event Ctx Bounds V : Type 0) : Type 0 where
  pub handle : Event → Ctx → S → Result E (List (SpanOp V)) × S
  pub drain_pending : Ctx → S → Result E (Option (List (SpanOp V))) × S
  pub checkpoint : Ctx → S → Result E (List (SpanOp V)) × S
  pub finalize : Ctx → S → Result E (List (SpanOp V)) × S
  pub checkpoint_at : Ctx → Bounds → S → Result E (List (SpanOp V)) × S
  pub finalize_at : Ctx → Bounds → S → Result E (List (SpanOp V)) × S
  pub flush : Ctx → S → Result E (List (SpanOp V)) × S
