-- ===== src/Consumer.antt =====
-- bt-daemon/src/pipeline/consumer.rs and delivery.rs: the task that delivers to a route what its
-- source hands over, and acknowledges it. The sink of the route and the source are parameters.
pub mod Finish
pub mod Loop
pub mod Settled
pub mod Acknowledged
pub mod Turns
pub mod Order
pub mod Routed
use braintrust_coding_agent.Prelude.{
  ℕ, ◌+◌, ◌^◌, String, Bool, true, false, not, ◌&&◌, ◌||◌, List, [], ◌∷◌, Option, none, some,
  if◌then◌else◌, is_some,
}
use braintrust_coding_agent.Collections.{string_key, same}
use braintrust_coding_agent.Translator.{Result, ok, err}
use braintrust_coding_agent.Wire.{SessionConfig, SessionRoute, BackendAuth}
use braintrust_coding_agent.Recovery
use braintrust_coding_agent.Recovery.{Boundary, Failure, RouteFailure, World}
use Prim.Native.Nat.{◌%◌}

-- `completion` names the obligation, whose state is a part of the world
pub record Delivery (A C : Type 0) : Type 0 where
  pub value : A
  pub completion : C

-- The trait `Completion`; `W` is the state of the sources.
pub record Completion (W C E D : Type 0) : Type 0 where
  pub complete : C → W → Result E Unit × W
  pub failed : Failure D → C → W → Result E Unit × Failure D × W

module _ {W C E D : Type 0} (completion : Completion W C E D) where
  unfoldable pub into_completed : {A : Type 0} → Delivery A C → W → Result (Delivery A C × E) A × W
  into_completed delivery w =
      let (result, w') = completion.complete delivery.completion w in
      (elim result [ ok _ ↦ ok delivery.value | err e ↦ err (delivery, e) ], w')

pub data Work : Type 0 where
  resubmit flush complete : Work

pub record Held (D : Type 0) : Type 0 where
  pub failure : Failure D
  pub work : Work

-- The variables of the task, and what it shares: `config`, `error`, `recovery`, `permalink` and
-- the counter. `recovery` is the failure that is shown, and whether it is being retried.
pub record Consumer (S C Config D : Type 0) : Type 0 where
  pub pending : List (Delivery Unit C)
  pub sink : Option S
  pub held : Option (Held D)
  pub attempts : ℕ
  pub recorded : Option (Failure D)
  pub record_retry : ℕ
  pub config : Config
  pub error : Option String
  pub recovery : Option (Failure D × Bool)
  pub permalink : Option String
  pub spans_emitted : ℕ

-- What the task calls: `create` makes the sink of a route, `route_failure` is
-- `downcast_ref::<RouteFailure>()`, `is_commit` tells whether a cause is a `CommitFailure`, `is_store`
-- whether the error is of the file system or of a JSON document, and `anyhow` makes an error.
pub record Options (S V O T E D : Type 0) : Type 0 where
  pub version : String
  pub route : SessionRoute V O T
  pub world : World V O T E D
  pub create : SessionConfig V O T → Result E S
  pub route_failure : E → Option (RouteFailure E D)
  pub is_commit : E → Bool
  pub is_store : E → Bool
  pub anyhow : String → E
  pub message : Failure D → String

-- `AuthLease`
pub record AuthLease : Type 0 where
  pub profile_id : Option String
  pub auth : BackendAuth

-- a setting that is pinned is to stay
abbrev pub keeps : Option String → Option String → Bool
keeps none now = true
keeps (some pinned) none = false
keeps (some pinned) (some now) = same pinned now

module _ {S V O T E D : Type 0} (options : Options S V O T E D) where
  -- `lease` is what the provider of the host answers, if there is one
  unfoldable pub credentials :
      Option (Result E AuthLease) → SessionConfig V O T → Result String (SessionConfig V O T)
  credentials none config = err "daemon host has no auth provider"
  credentials (some (err e)) config = err (options.world.describe e)
  credentials (some (ok lease)) config =
      if not (keeps options.route.auth.profile_id lease.profile_id)
      then err "credential refresh changed the pinned profile"
      else if not (keeps config.auth.org_id lease.auth.org_id)
      then err "credential refresh changed the pinned organization"
      else if not (keeps config.auth.api_url lease.auth.api_url)
      then err "credential refresh changed the pinned backend"
      else ok (record config { auth = lease.auth })

  abbrev pub boundary_of : Work → Boundary → Boundary
  boundary_of complete boundary = Boundary.completion
  boundary_of flush boundary = Boundary.ledger
  boundary_of resubmit boundary = boundary

  -- `ConsumerOptions::storage`
  unfoldable pub storage : ℕ → E → ℕ → Work → Held D
  storage millis error attempt work =
      let failure = Recovery.storage options.world millis error options.version attempt in
      record {
        failure = record failure { boundary = boundary_of work failure.boundary };
        work = work;
      }

  -- `ConsumerOptions::routing`, and what it adds to the counter
  unfoldable pub routing : ℕ → E → SessionConfig V O T → ℕ → ℕ → Held D × ℕ
  routing millis error config attempt spans_emitted = (
    record {
      failure =
          Recovery.routing options.world millis error (options.route_failure error) config attempt
            options.version;
      work = resubmit;
    },
    elim (options.route_failure error) [
      | none ↦ spans_emitted
      | some partial ↦ (spans_emitted + partial.emitted) % 2 ^ 64
    ],
  )

module _ {W C E D : Type 0} (completion : Completion W C E D) where
  -- The last loop of `finish`: what is completed, what stays pending, and the failure.
  unfoldable pub complete_all :
      List (Delivery Unit C) → W → List C × Option E × List (Delivery Unit C) × W
  complete_all [] w = ([], none, [], w)
  complete_all (delivery ∷ pending) w =
      let (result, w') = into_completed completion delivery w in
      let (done, error, left, w'') = complete_all pending w' in
      elim result [
        | ok _ ↦ (delivery.completion ∷ done, error, left, w'')
        | err (unfinished, e) ↦ ([], some e, unfinished ∷ pending, w')
      ]
