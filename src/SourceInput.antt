-- ===== src/SourceInput.antt =====
-- bt-daemon/src/pipeline/input.rs: the bounded buffer of captured events that live delivery reads
-- before it falls back to the journal. Byte counts and positions are `u64`: `saturating_add` is
-- cut at the largest value, and `-=` wraps. The lock makes each method one step.
pub mod Budget
pub mod Order
use braintrust_coding_agent.Prelude.{
  ℕ, ◌+◌, ◌-◌, ◌*◌, ◌^◌, Bool, true, false, ◌||◌, ◌&&◌, not, List, [], ◌∷◌, ◌++◌, Option, none,
  some, length, is_empty, leb, ltb, eqb, min, if◌then◌else◌,
}
use Prim.Native.Nat.{◌%◌}

abbrev pub record_budget : ℕ
record_budget = 64

abbrev pub byte_budget : ℕ
byte_budget = 8 * 1024 * 1024

abbrev pub u64_mod : ℕ
u64_mod = 2 ^ 64

abbrev pub saturating_add : ℕ → ℕ → ℕ
saturating_add a b = min (a + b) (u64_mod - 1)

abbrev pub wrapping_sub : ℕ → ℕ → ℕ
wrapping_sub a b = (a + u64_mod - b) % u64_mod

-- The byte range of one journal append.
pub record SourcePosition : Type 0 where
  pub before : ℕ
  pub through : ℕ

-- `Env` and `Ctl` stand for the captured envelope and the pipeline control.
pub data SourceEvent (Env Ctl : Type 0) : Type 0 where
  event : Env → SourceEvent Env Ctl
  control : Ctl → SourceEvent Env Ctl
  legacy_delivery_checkpoint : SourceEvent Env Ctl

pub record SourceRecord (Env Ctl : Type 0) : Type 0 where
  pub content : SourceEvent Env Ctl
  pub position : SourcePosition

pub record Buffer (Env Ctl : Type 0) : Type 0 where
  pub records : List (SourceRecord Env Ctl)
  pub total : ℕ

module _ {Env Ctl : Type 0} where
  -- `saturating_sub`
  abbrev pub bytes : SourceRecord Env Ctl → ℕ
  bytes r = r.position.through - r.position.before

  abbrev pub empty : Buffer Env Ctl
  empty = record { records = []; total = 0 }

  -- the two budgets that the test of the `while` reads
  abbrev pub over_budget : ℕ → List (SourceRecord Env Ctl) → ℕ → Bool
  over_budget size rs total =
      leb record_budget (length rs) || ltb byte_budget (saturating_add total size)

  -- the `while` of `push`, for an event of `size` bytes
  unfoldable pub make_room : ℕ → List (SourceRecord Env Ctl) → ℕ → Buffer Env Ctl
  make_room size [] total = record { records = []; total = total }
  make_room size (r ∷ rs) total =
      let rest = make_room size rs (wrapping_sub total (bytes r)) in
      if over_budget size (r ∷ rs) total then rest else record { records = r ∷ rs; total = total }

  unfoldable pub push : SourceRecord Env Ctl → Buffer Env Ctl → Buffer Env Ctl
  push r b =
      let room = make_room (bytes r) b.records b.total in
      record { records = room.records ++ r ∷ []; total = saturating_add room.total (bytes r) }

  unfoldable pub push_event : Env → SourcePosition → Buffer Env Ctl → Buffer Env Ctl
  unfolding push
  push_event e p b = push (record { content = event e; position = p }) b

  unfoldable pub has_none : Buffer Env Ctl → Bool
  has_none b = is_empty b.records

  -- the `while` of `take`: records that recovery has consumed
  unfoldable pub skip_consumed : ℕ → List (SourceRecord Env Ctl) → ℕ → Buffer Env Ctl
  skip_consumed position [] total = record { records = []; total = total }
  skip_consumed position (r ∷ rs) total =
      let rest = skip_consumed position rs (wrapping_sub total (bytes r)) in
      if leb r.position.through position then rest else record { records = r ∷ rs; total = total }

  take_first :
      ℕ → ℕ → List (SourceRecord Env Ctl) → ℕ → Option (SourceRecord Env Ctl) × Buffer Env Ctl
  take_first position through [] total = (none, record { records = []; total = total })
  take_first position through (r ∷ rs) total =
      if not (eqb r.position.before position) || ltb through r.position.through
      then (none, record { records = r ∷ rs; total = total })
      else (some r, record { records = rs; total = wrapping_sub total (bytes r) })

  unfoldable pub take : ℕ → ℕ → Buffer Env Ctl → Option (SourceRecord Env Ctl) × Buffer Env Ctl
  unfolding take_first
  take position through b =
      let rest = skip_consumed position b.records b.total in
      take_first position through rest.records rest.total
