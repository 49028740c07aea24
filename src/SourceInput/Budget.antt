-- ===== src/SourceInput/Budget.antt =====
-- The accounting of the buffer: its byte count is exact and its budgets are kept.
use braintrust_coding_agent.Prelude.{
  ℕ, ◌+◌, ◌≤◌, ◌<◌, ◌≡◌, ◌⊎◌, inr, List, [], ◌∷◌, ◌++◌, arith, length, All, All-append,
  length-append,
}
use braintrust_coding_agent.SourceInput.{
  SourceRecord, Buffer, bytes, byte_budget, record_budget, u64_mod, make_room, push, skip_consumed,
  take, take_first, wrapping_sub,
}

module _ {Env Ctl : Type 0} where
  -- the bytes of all records
  abbrev pub sum : List (SourceRecord Env Ctl) → ℕ
  sum [] = 0
  sum (r ∷ rs) = bytes r + sum rs

  pub sum-append : (xs ys : List (SourceRecord Env Ctl)) → sum (xs ++ ys) ≡ sum xs + sum ys
  sum-append [] ys = omega arith
  sum-append (x ∷ xs) ys = omega (arith, sum-append xs ys)

  sum_empty : (xs : List (SourceRecord Env Ctl)) → length xs ≤ 0 → sum xs ≡ 0
  sum_empty [] h = omega arith
  sum_empty (x ∷ xs) h = absurd (omega arith)

  abbrev pub FitsU64 : SourceRecord Env Ctl → Type 0
  FitsU64 r = r.position.through < u64_mod

  -- The count is exact, the records and the bytes are within the budgets, and only a record that
  -- travels alone may pass the byte budget.
  pub record IsValid (b : Buffer Env Ctl) : Type 0 where
    pub counted : b.total ≡ sum b.records
    pub few : length b.records ≤ record_budget
    pub small : (sum b.records ≤ byte_budget) ⊎ (length b.records ≤ 1)
    pub positions : All FitsU64 b.records
    pub counted_fits : sum b.records < u64_mod

  -- What `make_room` leaves for an event of `size` bytes.
  pub record HasRoom (size : ℕ) (b : Buffer Env Ctl) : Type 0 where
    pub counted : b.total ≡ sum b.records
    pub few : length b.records < record_budget
    pub small : (sum b.records + size ≤ byte_budget) ⊎ (length b.records ≤ 0)
    pub positions : All FitsU64 b.records

  make_room-HasRoom :
      (size : ℕ) (rs : List (SourceRecord Env Ctl)) (total : ℕ)
      → size < u64_mod
      → total ≡ sum rs
      → sum rs < u64_mod
      → All FitsU64 rs
      → HasRoom size (make_room size rs total)
  unfolding make_room
  make_room-HasRoom size [] total fits counted small h = record {
    counted = counted;
    few = omega arith;
    small = inr (omega arith);
    positions = tt;
  }
  make_room-HasRoom size (r ∷ rs) total fits counted small h =
      ground (arith, make_room-HasRoom size rs (wrapping_sub total (bytes r)) fits)

  -- A push onto a valid buffer of a record whose size is a `u64` keeps the byte counter exact and
  -- the budgets: at most 64 records, and at most 8 MiB or one record.
  pub push-IsValid :
      (r : SourceRecord Env Ctl) (b : Buffer Env Ctl) → FitsU64 r → IsValid b → IsValid (push r b)
  unfolding push
  push-IsValid r b fits v =
      let room = make_room (bytes r) b.records b.total in
      let h =
        make_room-HasRoom (bytes r) b.records b.total (omega arith) v.counted v.counted_fits
          v.positions in
      record {
        counted = ground (
          arith,
          sum-append room.records (r ∷ []),
          sum_empty room.records,
          h.counted,
          h.small,
          fits,
        );
        few = omega (arith, length-append room.records (r ∷ []), h.few);
        small =
            ground (
              arith,
              sum-append room.records (r ∷ []),
              length-append room.records (r ∷ []),
              h.small,
            );
        positions = All-append FitsU64 room.records (r ∷ []) h.positions (fits, tt);
        counted_fits =
            ground (arith, sum-append room.records (r ∷ []), sum_empty room.records, h.small, fits);
      }

  -- without its first record
  pub tail-IsValid :
      (r : SourceRecord Env Ctl) (rs : List (SourceRecord Env Ctl)) (total : ℕ)
      → IsValid (record { records = r ∷ rs; total = total })
      → IsValid (record { records = rs; total = wrapping_sub total (bytes r) })
  tail-IsValid r rs total v = record {
    counted = omega (arith, v.counted, v.counted_fits);
    few = omega (arith, v.few);
    small = ground (arith, v.small);
    positions = v.positions.1;
    counted_fits = omega (arith, v.counted_fits);
  }

  skip_consumed-IsValid :
      (position : ℕ) (rs : List (SourceRecord Env Ctl)) (total : ℕ)
      → IsValid (record { records = rs; total = total })
      → IsValid (skip_consumed position rs total)
  unfolding skip_consumed
  skip_consumed-IsValid position [] total v = v
  skip_consumed-IsValid position (r ∷ rs) total v = ground (
    arith,
    skip_consumed-IsValid position rs (wrapping_sub total (bytes r)),
    tail-IsValid r rs total v,
  )

  take_first-IsValid :
      (position through : ℕ) (rs : List (SourceRecord Env Ctl)) (total : ℕ)
      → IsValid (record { records = rs; total = total })
      → IsValid (take_first position through rs total).1
  unfolding take_first
  take_first-IsValid position through [] total v = v
  take_first-IsValid position through (r ∷ rs) total v = ground (arith, tail-IsValid r rs total v)

  -- A read of a valid buffer keeps the byte counter exact and the budgets.
  pub take-IsValid :
      (position through : ℕ) (b : Buffer Env Ctl) → IsValid b → IsValid (take position through b).1
  unfolding take
  take-IsValid position through b v =
      take_first-IsValid position through _ _ (skip_consumed-IsValid position b.records b.total v)
