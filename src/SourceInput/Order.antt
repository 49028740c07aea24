-- ===== src/SourceInput/Order.antt =====
-- The order of the buffer: evictions take the oldest records, and a drain returns the journal's
-- records one after another.
use braintrust_coding_agent.Prelude.{
  ℕ, zero, suc, ◌+◌, ◌≤◌, ◌<◌, ◌≡◌, refl, ◌⊎◌, inl, inr, true, false, List, [], ◌∷◌, ◌++◌, none,
  some, arith, length, drop, All, Bool-cases, ap, ◌∙◌,
}
use braintrust_coding_agent.SourceInput.{
  SourceRecord, Buffer, bytes, byte_budget, record_budget, make_room, push, skip_consumed, take,
  take_first, wrapping_sub, over_budget,
}
use braintrust_coding_agent.SourceInput.Budget.{IsValid, tail-IsValid, sum}

module _ {Env Ctl : Type 0} where
  -- no room for `size` more bytes beside these records
  abbrev pub IsFull : ℕ → List (SourceRecord Env Ctl) → Type 0
  IsFull size [] = ⊥
  IsFull size (r ∷ rs) = (record_budget ≤ suc (length rs)) ⊎ (byte_budget < bytes r + sum rs + size)

  module _ (size : ℕ) (r : SourceRecord Env Ctl) (rs : List (SourceRecord Env Ctl)) (total : ℕ)
      (v : IsValid (record { records = r ∷ rs; total = total })) where
    IsFull-of_test : over_budget size (r ∷ rs) total ≡ true → IsFull size (r ∷ rs)
    IsFull-of_test h = ground (arith, v.counted)

    test_of-IsFull : over_budget size (r ∷ rs) total ≡ false → ¬ IsFull size (r ∷ rs)
    test_of-IsFull h full = ground (arith, v.counted)

  first-IsFull :
      (size n : ℕ) (r : SourceRecord Env Ctl) (rs : List (SourceRecord Env Ctl))
      → IsFull size (r ∷ rs)
      → ((m : ℕ) → m < n → IsFull size (drop m rs))
      → (m : ℕ) → m < suc n
      → IsFull size (drop m (r ∷ rs))
  first-IsFull size n r rs full before zero h = full
  first-IsFull size n r rs full before (suc m) h = before m (omega arith)

  make_room-least :
      (size : ℕ) (rs : List (SourceRecord Env Ctl)) (total : ℕ)
      → IsValid (record { records = rs; total = total })
      → (n : ℕ) × ((make_room size rs total).records ≡ drop n rs)
        × ((m : ℕ) → m < n → IsFull size (drop m rs))
        × (¬ IsFull size (drop n rs))
  unfolding make_room
  make_room-least size [] total v = (0, refl, (λ m h. absurd (omega arith)), λ h. h)
  make_room-least size (r ∷ rs) total v = elim (Bool-cases (over_budget size (r ∷ rs) total)) [
    | inl full ↦
        let (n, kept, before, room) =
          make_room-least size rs (wrapping_sub total (bytes r)) (tail-IsValid r rs total v) in
        (
          suc n,
          ground (arith, kept, full),
          first-IsFull size n r rs (IsFull-of_test size r rs total v full) before,
          room,
        )
    | inr fit ↦ (
      0,
      ground (arith, fit),
      (λ m h. absurd (omega arith)),
      test_of-IsFull size r rs total v fit,
    )
  ]

  -- A push on a valid buffer evicts the oldest records and only as long as 64 are held or the bytes
  -- would pass the budget.
  pub push-least :
      (r : SourceRecord Env Ctl) (b : Buffer Env Ctl)
      → IsValid b
      → (n : ℕ) × ((push r b).records ≡ drop n b.records ++ r ∷ [])
        × ((m : ℕ) → m < n → IsFull (bytes r) (drop m b.records))
        × (¬ IsFull (bytes r) (drop n b.records))
  unfolding push
  push-least r b v =
      let (n, kept, before, room) = make_room-least (bytes r) b.records b.total v in
      (n, ap (λ l. l ++ r ∷ []) kept, before, room)

  -- The records follow one another in the journal from a position on, and none is empty.
  abbrev pub Chain : ℕ → List (SourceRecord Env Ctl) → Type 0
  Chain p [] = Unit
  Chain p (r ∷ rs) =
      (r.position.before ≡ p) × (p < r.position.through) × Chain r.position.through rs

  abbrev pub end_of : ℕ → List (SourceRecord Env Ctl) → ℕ
  end_of p [] = p
  end_of p (r ∷ rs) = end_of r.position.through rs

  Chain-end_of-le : (p : ℕ) (rs : List (SourceRecord Env Ctl)) → Chain p rs → p ≤ end_of p rs
  Chain-end_of-le p [] c = omega arith
  Chain-end_of-le p (r ∷ rs) c = omega (arith, Chain-end_of-le r.position.through rs c.2, c.1)

  -- `take` from a position up to `through`, again and again from where the last record ended
  pub drain : ℕ → ℕ → ℕ → Buffer Env Ctl → List (SourceRecord Env Ctl)
  drain zero position through b = []
  drain (suc fuel) position through b = elim (take position through b).0 [
    | none ↦ []
    | some r ↦ r ∷ drain fuel r.position.through through (take position through b).1
  ]

  -- one round of a drain, from what the skipped records left
  abbrev drain_step : ℕ → ℕ → ℕ → Buffer Env Ctl → List (SourceRecord Env Ctl)
  unfolding take_first
  drain_step fuel p through b = elim (take_first p through b.records b.total).0 [
    | none ↦ []
    | some r ↦ r ∷ drain fuel r.position.through through (take_first p through b.records b.total).1
  ]

  drain-Chain :
      (fuel p through : ℕ) (rs : List (SourceRecord Env Ctl)) (total : ℕ)
      → length rs ≤ fuel
      → Chain p rs
      → end_of p rs ≤ through
      → drain fuel p through (record { records = rs; total = total }) ≡ rs
  unfolding drain take skip_consumed
  drain-Chain zero p through [] total h c e = refl
  drain-Chain zero p through (r ∷ rs) total h c e = absurd (omega arith)
  drain-Chain (suc fuel) p through [] total h c e = refl
  drain-Chain (suc fuel) p through (r ∷ rs) total h c e = ground (
    arith,
    c.0,
    c.1,
    c.2,
    Chain-end_of-le r.position.through rs c.2,
    drain-Chain fuel r.position.through through rs (wrapping_sub total (bytes r)) (omega arith) c.2
        e,
  )

  abbrev pub Consumed : ℕ → SourceRecord Env Ctl → Type 0
  Consumed p r = r.position.through ≤ p

  skip_consumed-append :
      (p : ℕ) (done rs : List (SourceRecord Env Ctl)) (total : ℕ)
      → All (Consumed p) done
      → (left : ℕ) × (skip_consumed p (done ++ rs) total ≡ skip_consumed p rs left)
  unfolding skip_consumed
  skip_consumed-append p [] rs total h = (total, refl)
  skip_consumed-append p (r ∷ done) rs total h =
      let (left, e) = skip_consumed-append p done rs (wrapping_sub total (bytes r)) h.1 in
      (left, ground (arith, e, h.0))

  -- On a buffer whose consumed records stand first and whose others follow one another from the
  -- position to within the bound, repeated reads return each of the others once, in order, with as
  -- much fuel as they are many.
  pub drain-append :
      (fuel p through : ℕ) (done rs : List (SourceRecord Env Ctl)) (total : ℕ)
      → All (Consumed p) done
      → length rs ≤ fuel
      → Chain p rs
      → end_of p rs ≤ through
      → drain fuel p through (record { records = done ++ rs; total = total }) ≡ rs
  unfolding drain take
  drain-append zero p through done [] total d h c e = refl
  drain-append zero p through done (r ∷ rs) total d h c e = absurd (omega arith)
  drain-append (suc fuel) p through done rs total d h c e =
      let (left, skipped) = skip_consumed-append p done rs total d in
      ap (drain_step fuel p through) skipped ∙ drain-Chain (suc fuel) p through rs left h c e

  take_in_list :
      (p through : ℕ) (rs : List (SourceRecord Env Ctl)) (total : ℕ) (r : SourceRecord Env Ctl)
      → (take p through (record { records = rs; total = total })).0 ≡ some r
      → (r.position.before ≡ p) × (r.position.through ≤ through) × (p < r.position.through)
  unfolding take skip_consumed
  take_in_list p through [] total r h = cc
  take_in_list p through (q ∷ rs) total r h =
      ground (arith, take_in_list p through rs (wrapping_sub total (bytes q)) r)

  -- A record that `take` returns starts at the position asked for, moves past it, and ends within
  -- the bound.
  take_in_range :
      (p through : ℕ) (b : Buffer Env Ctl) (r : SourceRecord Env Ctl)
      → (take p through b).0 ≡ some r
      → (r.position.before ≡ p) × (r.position.through ≤ through) × (p < r.position.through)
  take_in_range p through b r h = take_in_list p through b.records b.total r h
