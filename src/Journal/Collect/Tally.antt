-- ===== src/Journal/Collect/Tally.antt =====
-- What the loop over a journal's records gathers.
use mathlib.Core.Path.{subst}
use braintrust_coding_agent.Prelude.{
  ℕ, ◌+◌, ◌≤◌, ◌≡◌, ap, ◌∙◌, String, Bool, false, List, [], ◌∷◌, none, some, arith, All, ◌⊎◌, inl,
  inr, ltb, Bool-cases, Option-cases,
}
use braintrust_coding_agent.Collections.{string_key, string_dec}
use braintrust_coding_agent.Collections.Map
use braintrust_coding_agent.Json.{Json, JsonArrays}
use braintrust_coding_agent.Translator.{Result-cases}
use braintrust_coding_agent.Wire.{SessionRoute}
use braintrust_coding_agent.Journal.{Line, JournalRecord, JournalRecordEntry}
use braintrust_coding_agent.Journal.Reader.{decode_record, replay}
use braintrust_coding_agent.Journal.Collect.{Progress, max, raise_to, raised, tally_item, tally}

module _ {V O T : Type 0} where
  -- The records end one after the other, from this position on.
  abbrev pub Rising : ℕ → List (JournalRecordEntry V O T) → Type 0
  Rising p [] = Unit
  Rising p (x ∷ xs) = (p ≤ x.through) × Rising x.through xs

module _ (json : Json) (arrays : JsonArrays json) {T : Type 0} where
  open json use {Value, Object}

  pub replay-Rising :
      (lines : List (Line Value Object T)) (p q : ℕ) (context : List Value)
      → p ≤ q
      → Rising p (replay json arrays lines q context).0
  unfolding replay
  replay-Rising [] p q context h = tt
  replay-Rising (line ∷ lines) p q context h =
      elim (Result-cases (decode_record json arrays line.content context)) [
        | inl (e, failed) ↦ rw (failed, replay) tt
        | inr ((none, context'), read) ↦
            rw (read, replay) (replay-Rising lines p (q + line.bytes) context' (omega (arith, h)))
        | inr ((some item, context'), read) ↦
            rw (read, replay)
              (
                omega (arith, h),
                replay-Rising lines (q + line.bytes) (q + line.bytes) context' (omega arith),
              )
      ]

-- no value above `p`
abbrev pub Below : Progress → ℕ → Type 0
Below o p = (k : String) (n : ℕ) → Map.get k o ≡ some n → n ≤ p

abbrev pub HasAtLeast : Progress → ℕ → String → Type 0
HasAtLeast o n k = (m : ℕ) × (Map.get k o ≡ some m) × (n ≤ m)

module _ {V O T : Type 0} (to_text : SessionRoute V O T → String)
    (exists : String → String → Bool) where
  -- A checkpoint of the route, at the position or later.
  abbrev pub Reaches : String → ℕ → JournalRecord V O T → Type 0
  Reaches k n (JournalRecord.delivery_checkpoint route through) =
      (to_text route ≡ k) × (n ≤ through)
  Reaches k n _ = ⊥

  abbrev pub IsReached : String → ℕ → List (JournalRecordEntry V O T) → Type 0
  IsReached k n [] = ⊥
  IsReached k n (x ∷ xs) = Reaches k n x.item ⊎ IsReached k n xs

  -- no control, and no event without a route or of a partition; `P` of the others
  abbrev pub ItemHolds : (String → Type 0) → JournalRecord V O T → Type 0
  ItemHolds P (JournalRecord.event e) =
      (exists e.source e.session_id ≡ false)
      × ((route : SessionRoute V O T) × (e.route ≡ some route) × P (to_text route))
  ItemHolds P (JournalRecord.delivery_checkpoint route through) = Unit
  ItemHolds P (JournalRecord.control c) = ⊥

  insert-Below :
      (k : String) (p q : ℕ) (o : Progress) → p ≤ q → Below o p → Below (Map.insert k q o) q
  insert-Below k p q o le below j n there = elim (string_dec k j) [
    | yes e ↦ ground (arith, e, there, Map.get-insert j k q o)
    | no d ↦
        let before : Map.get j o ≡ some n = ground (arith, d, there, Map.get-insert j k q o) in
        omega (arith, below j n before, le)
  ]

  insert-HasAtLeast :
      (k : String) (p q : ℕ) (o : Progress)
      → p ≤ q
      → Below o p
      → (j : String) (n : ℕ) → HasAtLeast o n j
      → HasAtLeast (Map.insert k q o) n j
  insert-HasAtLeast k p q o le below j n (m, there, least) = elim (string_dec k j) [
    | yes e ↦
        (q, ground (arith, e, Map.get-insert j k q o), omega (arith, below j m there, le, least))
    | no d ↦ (m, ground (arith, d, there, Map.get-insert j k q o), least)
  ]

  inserted : (k : String) (q : ℕ) (o : Progress) → HasAtLeast (Map.insert k q o) q k
  inserted k q o = (q, ground (arith, Map.get-insert k k q o), omega arith)

  tally_item-counts :
      (item : JournalRecord V O T) (p q : ℕ) (o c o' c' : Progress)
      → p ≤ q
      → Below o p
      → tally_item to_text exists item q o c ≡ some (o', c')
      → Below o' q
        × ItemHolds (HasAtLeast o' q) item
        × ((k : String) (n : ℕ) → HasAtLeast o n k → HasAtLeast o' n k)
  unfolding tally_item
  tally_item-counts (JournalRecord.control e) p q o c o' c' le below h = absurd (cc)
  tally_item-counts (JournalRecord.delivery_checkpoint route n) p q o c o' c' le below h =
      let same_o : o ≡ o' = cc in
      subst
        (λ o'. Below o' q × Unit × ((k : String) (n : ℕ) → HasAtLeast o n k → HasAtLeast o' n k))
        same_o (λ k n there. omega (arith, below k n there, le), tt, λ k n there. there)
  tally_item-counts (JournalRecord.event e) p q o c o' c' le below h =
      elim (Bool-cases (exists e.source e.session_id)) [
        | inl partition ↦ absurd (ground (arith, h, partition))
        | inr free ↦ elim (Option-cases e.route) [
          | inl bare ↦ absurd (ground (arith, h, free, bare))
          | inr (route, routed) ↦
              let same_o : Map.insert (to_text route) q o ≡ o' = ground (arith, h, free, routed) in
              subst
                (λ o'.
                  Below o' q
                  × ItemHolds (HasAtLeast o' q) (JournalRecord.event e)
                  × ((k : String) (n : ℕ) → HasAtLeast o n k → HasAtLeast o' n k))
                same_o
                (
                  insert-Below (to_text route) p q o le below,
                  (free, (route, routed, inserted (to_text route) q o)),
                  insert-HasAtLeast (to_text route) p q o le below,
                )
        ]
      ]

  -- what `observed` tells of a record
  abbrev pub Observed : Progress → JournalRecordEntry V O T → Type 0
  Observed o x = ItemHolds (HasAtLeast o x.through) x.item

  pub map-ItemHolds :
      (P Q : String → Type 0) (item : JournalRecord V O T)
      → ((k : String) → P k → Q k)
      → ItemHolds P item
      → ItemHolds Q item
  map-ItemHolds P Q (JournalRecord.event e) f (free, (route, routed, h)) =
      (free, (route, routed, f (to_text route) h))
  map-ItemHolds P Q (JournalRecord.delivery_checkpoint route through) f h = tt
  map-ItemHolds P Q (JournalRecord.control c) f h = h

  pub tally-counts :
      (xs : List (JournalRecordEntry V O T)) (p : ℕ) (o c o' c' : Progress)
      → Rising p xs
      → Below o p
      → tally to_text exists xs o c ≡ some (o', c')
      → All (Observed o') xs × ((k : String) (n : ℕ) → HasAtLeast o n k → HasAtLeast o' n k)
  unfolding tally
  tally-counts [] p o c o' c' rising below h =
      let same_o : o ≡ o' = cc in (tt, λ k n there. subst (λ o. HasAtLeast o n k) same_o there)
  tally-counts (x ∷ xs) p o c o' c' (le, rising) below h =
      elim (Option-cases (tally_item to_text exists x.item x.through o c)) [
        | inl refused ↦ absurd (ground (arith, h, refused))
        | inr ((o1, c1), taken) ↦
            let (below', here, kept) =
              tally_item-counts x.item p x.through o c o1 c1 le below taken in
            let (all, later) =
              tally-counts xs x.through o1 c1 o' c' rising below' (ground (arith, h, taken)) in
            (
              (
                map-ItemHolds (HasAtLeast o1 x.through) (HasAtLeast o' x.through) x.item
                    (λ k. later k x.through) here,
                all,
              ),
              λ k n there. later k n (kept k n there),
            )
      ]

  -- what is completed was so, or comes from a checkpoint
  tally_item-completed :
      (item : JournalRecord V O T) (q : ℕ) (o c o' c' : Progress) (k : String) (n : ℕ)
      → tally_item to_text exists item q o c ≡ some (o', c')
      → Map.get k c' ≡ some n
      → (Map.get k c ≡ some n) ⊎ Reaches k n item
  unfolding tally_item
  tally_item-completed (JournalRecord.control c1) q o c o' c' k n h there = absurd (cc)
  tally_item-completed (JournalRecord.event e) q o c o' c' k n h there =
      elim (Bool-cases (exists e.source e.session_id)) [
        | inl partition ↦ absurd (ground (arith, h, partition))
        | inr free ↦ elim (Option-cases e.route) [
          | inl bare ↦ absurd (ground (arith, h, free, bare))
          | inr (route, routed) ↦
              let same_c : c ≡ c' = ground (arith, h, free, routed) in
              inl (ap (Map.get k) same_c ∙ there)
        ]
      ]
  tally_item-completed (JournalRecord.delivery_checkpoint route m) q o c o' c' k n h there =
      let same_c : raised (to_text route) m c ≡ c' = cc in
      let there' : Map.get k (raised (to_text route) m c) ≡ some n =
        ap (Map.get k) same_c ∙ there in
      elim (string_dec (to_text route) k) [
        | no d ↦ inl (
            ground (
              arith,
              d,
              there',
              Map.get-insert k (to_text route) (raise_to m (Map.get (to_text route) c)) c,
            ))
        | yes e ↦ elim (Option-cases (Map.get (to_text route) c)) [
          | inl fresh ↦
              let value : m ≡ n =
                ground (arith, e, there', fresh, Map.get-insert k (to_text route) m c) in
              inr (e, omega (arith, value))
          | inr (previous, found) ↦
              let value : max previous m ≡ n =
                ground
                  (arith, e, there', found, Map.get-insert k (to_text route) (max previous m) c) in
              elim (Bool-cases (ltb previous m)) [
                | inl later ↦ inr (e, ground (arith, value, later))
                | inr earlier ↦ inl (ground (arith, e, found, value, earlier))
              ]
        ]
      ]

  pub tally-completed :
      (xs : List (JournalRecordEntry V O T)) (o c o' c' : Progress) (k : String) (n : ℕ)
      → tally to_text exists xs o c ≡ some (o', c')
      → Map.get k c' ≡ some n
      → (Map.get k c ≡ some n) ⊎ IsReached k n xs
  unfolding tally
  tally-completed [] o c o' c' k n h there =
      let same_c : c ≡ c' = cc in inl (ap (Map.get k) same_c ∙ there)
  tally-completed (x ∷ xs) o c o' c' k n h there =
      elim (Option-cases (tally_item to_text exists x.item x.through o c)) [
        | inl refused ↦ absurd (ground (arith, h, refused))
        | inr ((o1, c1), taken) ↦
            elim (tally-completed xs o1 c1 o' c' k n (ground (arith, h, taken)) there) [
              | inr later ↦ inr (inr later)
              | inl before ↦
                  elim (tally_item-completed x.item x.through o c o1 c1 k n taken before) [
                    | inl first ↦ inl first
                    | inr here ↦ inr (inl here)
                  ]
            ]
      ]
