-- ===== src/Collections/Keys.antt =====
-- Keys: types with a decidable equality.
use braintrust_coding_agent.Prelude.{String, ◌≡◌, refl, ◌↔◌, Bool, true, false, arith}
use text.Mathlib.Text.{◌==◌}
use text.Mathlib.TextEquality.{eq_iff}

pub record Key {ℓ} (K : Type ℓ) : Type ℓ where
  pub dec : Discrete K

-- `a == b`
abbrev pub same {ℓ} : {K : Type ℓ} ⦃k : Key K⦄ → K → K → Bool
same ⦃k⦄ a b = elim (k.dec a b) [ yes _ ↦ true | no _ ↦ false ]

pub ne_of_test : {s t : String} → ((false ≡ true) ↔ (s ≡ t)) → ¬ (s ≡ t)
ne_of_test e p = cc (e.1 p)

abbrev decide_by : {s t : String} (b : Bool) → ((b ≡ true) ↔ (s ≡ t)) → Dec (s ≡ t)
decide_by true e = yes (e.0 refl)
decide_by false e = no (ne_of_test e)

unfoldable pub string_dec : Discrete String
string_dec s t = decide_by (s == t) (eq_iff s t)

instance abbrev pub string_key : Key String
string_key = record { dec = string_dec }

module _ {ℓ} {K : Type ℓ} ⦃k : Key K⦄ where
  pub same_self : (x : K) → same x x ≡ true
  same_self x = ground arith
