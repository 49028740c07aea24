-- ===== src/Journal/Collect/Safe.antt =====
-- A journal that is collected has nothing left to deliver.
use mathlib.Core.Path.{subst}
use braintrust_coding_agent.Prelude.{
  ℕ, ◌≤◌, ◌≡◌, ap, String, Bool, true, List, [], ◌∷◌, none, some, arith, All, ◌⊎◌, inl, inr, leb,
  leb→le, unwrap_or, Option-cases,
}
use braintrust_coding_agent.Collections.{string_key, string_dec}
use braintrust_coding_agent.Collections.Map
use braintrust_coding_agent.Json.{Json, JsonArrays}
use braintrust_coding_agent.Wire.{SessionRoute}
use braintrust_coding_agent.Journal.{JournalRecord, JournalRecordEntry}
use braintrust_coding_agent.Journal.Writer.{File, file_len}
use braintrust_coding_agent.Journal.Reader.{cut, replay}
use braintrust_coding_agent.Journal.Collect.{
  Progress, tally, all_completed, judged, legacy_collectible,
}
use braintrust_coding_agent.Journal.Collect.Tally.{
  Rising, replay-Rising, Reaches, IsReached, ItemHolds, HasAtLeast, Observed, map-ItemHolds,
  tally-counts, tally-completed,
}

module _ {V O T : Type 0} (to_text : SessionRoute V O T → String)
    (exists : String → String → Bool) where
  all_completed-get :
      (o c : Progress) (k : String) (n : ℕ)
      → all_completed o c ≡ true
      → Map.get k o ≡ some n
      → n ≤ unwrap_or (Map.get k c) 0
  unfolding all_completed Map.get
  all_completed-get [] c k n h there = absurd (cc)
  all_completed-get ((j, m) ∷ o) c k n h there = elim (string_dec j k) [
    | yes e ↦
        let value : m ≡ n = ground (arith, e, there) in
        let enough : leb m (unwrap_or (Map.get j c) 0) ≡ true = ground (arith, h) in
        subst (λ j. n ≤ unwrap_or (Map.get j c) 0) e
          (subst (λ m. m ≤ unwrap_or (Map.get j c) 0) value (leb→le m _ enough))
    | no d ↦ all_completed-get o c k n (ground (arith, h)) (ground (arith, d, there))
  ]

  Reaches-earlier :
      (k : String) (m n : ℕ) (item : JournalRecord V O T)
      → m ≤ n
      → Reaches to_text exists k n item
      → Reaches to_text exists k m item
  Reaches-earlier k m n (JournalRecord.delivery_checkpoint route through) le (e, there) =
      (e, omega (arith, le, there))
  Reaches-earlier k m n (JournalRecord.event e) le h = h
  Reaches-earlier k m n (JournalRecord.control c) le h = h

  IsReached-earlier :
      (k : String) (m n : ℕ) (xs : List (JournalRecordEntry V O T))
      → m ≤ n
      → IsReached to_text exists k n xs
      → IsReached to_text exists k m xs
  IsReached-earlier k m n [] le h = h
  IsReached-earlier k m n (x ∷ xs) le (inl here) = inl (Reaches-earlier k m n x.item le here)
  IsReached-earlier k m n (x ∷ xs) le (inr later) = inr (IsReached-earlier k m n xs le later)

  -- An event is of no partition, and a checkpoint of its route reaches it, if it ends after 0.
  abbrev pub IsDone : List (JournalRecordEntry V O T) → JournalRecordEntry V O T → Type 0
  IsDone xs x =
      ItemHolds to_text exists (λ k. (x.through ≡ 0) ⊎ IsReached to_text exists k x.through xs)
        x.item

  observed-IsReached :
      (xs : List (JournalRecordEntry V O T)) (o c : Progress) (k : String) (n : ℕ)
      → tally to_text exists xs [] [] ≡ some (o, c)
      → all_completed o c ≡ true
      → HasAtLeast o n k
      → (n ≡ 0) ⊎ IsReached to_text exists k n xs
  unfolding Map.get
  observed-IsReached xs o c k n h all (m, there, least) =
      let enough = all_completed-get o c k m all there in
      elim (Option-cases (Map.get k c)) [
        | inl never ↦
            let nothing : m ≤ 0 = subst (λ r. m ≤ unwrap_or r 0) never enough in
            inl (omega (arith, nothing, least))
        | inr (r, found) ↦
            let reached : m ≤ r = subst (λ r. m ≤ unwrap_or r 0) found enough in
            elim (tally-completed to_text exists xs [] [] o c k r h found) [
              | inl empty ↦ absurd (cc)
              | inr there ↦ inr (IsReached-earlier k n r xs (omega (arith, reached, least)) there)
            ]
      ]

  each-IsDone :
      (xs ys : List (JournalRecordEntry V O T)) (o c : Progress)
      → tally to_text exists xs [] [] ≡ some (o, c)
      → all_completed o c ≡ true
      → All (Observed to_text exists o) ys
      → All (IsDone xs) ys
  each-IsDone xs [] o c h all observed = tt
  each-IsDone xs (y ∷ ys) o c h all (here, later) = (
    map-ItemHolds to_text exists (HasAtLeast o y.through)
        (λ k. (y.through ≡ 0) ⊎ IsReached to_text exists k y.through xs) y.item
        (λ k. observed-IsReached xs o c k y.through h all) here,
    each-IsDone xs ys o c h all later,
  )

  judged-IsDone :
      (xs : List (JournalRecordEntry V O T))
      → Rising 0 xs
      → judged (tally to_text exists xs [] []) ≡ true
      → All (IsDone xs) xs
  unfolding Map.get
  judged-IsDone xs rising h = elim (Option-cases (tally to_text exists xs [] [])) [
    | inl refused ↦ absurd (ground (arith, h, refused))
    | inr ((o, c), counted) ↦
        let all : all_completed o c ≡ true = ground (arith, h, counted) in
        each-IsDone xs xs o c counted all
          (tally-counts to_text exists xs 0 [] [] o c rising (λ k n there. absurd (cc)) counted).0
  ]

module _ (json : Json) (arrays : JsonArrays json) {T : Type 0}
    (to_text : SessionRoute json.Value json.Object T → String)
    (exists : String → String → Bool) where
  open json use {Value, Object}

  -- If `legacy_collectible` lets an old journal go, all its lines are read without an error, none
  -- is a control, and each event is of no partition and has a route, and a checkpoint of that route
  -- reaches the event's end, unless that end is position 0.
  pub legacy_collectible-IsDone :
      (f : File Value Object T)
      → legacy_collectible json arrays to_text exists (some f) ≡ true
      → (entries : List (JournalRecordEntry Value Object T)) × (replay json arrays
            (cut (file_len f) f.lines f.tail)
            0
            []
          ≡ (entries, none))
        × All (IsDone to_text exists entries) entries
  unfolding legacy_collectible
  legacy_collectible-IsDone f h =
      let lines = cut (file_len f) f.lines f.tail in
      let read = replay json arrays lines 0 [] in
      elim (Option-cases read.1) [
        | inr (e, damaged) ↦ absurd (ground (arith, h, damaged))
        | inl whole ↦ (
          read.0,
          ap (λ e. (read.0, e)) whole,
          judged-IsDone to_text exists read.0 (replay-Rising json arrays lines 0 0 [] (omega arith))
              (ground (arith, h, whole)),
        )
      ]
