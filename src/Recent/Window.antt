-- ===== src/Recent/Window.antt =====
-- The last entries of a list, which is what an eviction loop leaves.
use native.Mathlib.Decide.{dec_le}
use braintrust_coding_agent.Prelude.{
  ℕ, zero, suc, ◌-◌, ◌≤◌, ◌≡◌, sym, ap, ◌∙◌, ◌+◌, ◌++◌, length-append, List, [], ◌∷◌, length, drop,
  arith,
}

-- the last `n` elements
abbrev pub latest {ℓ} : {A : Type ℓ} → ℕ → List A → List A
latest n xs = drop (length xs - n) xs

module _ {ℓ} {A : Type ℓ} where
  pub length-drop : (n : ℕ) (xs : List A) → length (drop n xs) ≡ length xs - n
  length-drop zero xs = omega arith
  length-drop (suc n) [] = omega arith
  length-drop (suc n) (x ∷ xs) = omega (arith, length-drop n xs)

  pub length-latest-le : (n : ℕ) (xs : List A) → length (latest n xs) ≤ n
  length-latest-le n xs = omega (arith, length-drop (length xs - n) xs)

  pub latest_short : (n : ℕ) (xs : List A) → length xs ≤ n → latest n xs ≡ xs
  latest_short n xs h = let e : length xs - n ≡ 0 = omega arith in rw e

  pub latest_long : (n : ℕ) (x : A) (xs : List A) → n ≤ length xs → latest n (x ∷ xs) ≡ latest n xs
  latest_long n x xs h = let e : suc (length xs) - n ≡ suc (length xs - n) = omega arith in rw e

  -- Cutting a list early does not change its latest elements.
  pub latest-latest-append :
      (n : ℕ) (xs ys : List A) → latest n (latest n xs ++ ys) ≡ latest n (xs ++ ys)
  latest-latest-append n [] ys = ap (λ l. latest n (l ++ ys)) (latest_short n [] (omega arith))
  latest-latest-append n (x ∷ xs) ys = elim (dec_le (length xs + 1) n) [
    | yes p ↦ ap (λ l. latest n (l ++ ys)) (latest_short n (x ∷ xs) (omega arith))
    | no p ↦
        ap (λ l. latest n (l ++ ys)) (latest_long n x xs (omega arith))
        ∙ latest-latest-append n xs ys
        ∙ sym (latest_long n x (xs ++ ys) (omega (arith, length-append xs ys)))
  ]
