-- ===== src/Double.antt =====
-- The `number` of the source (an IEEE 754 double) and what the code does with it, as an interface:
-- the engine is written over any carrier with these operations, so its rounding is kept.
-- `Double/Fixed.antt` is an instance that runs.
pub mod Fixed
use mmxm.Prelude.{ℕ, ◌≡◌, Bool, true, not, ◌⊎◌}

pub record Double (W : Type 0) : Type 0 where
  pub add : W → W → W
  pub sub : W → W → W
  pub mul : W → W → W
  pub div : W → W → W
  pub neg : W → W
  pub abs : W → W
  -- `Math.max`, `Math.min` and `Math.round`
  pub max : W → W → W
  pub min : W → W → W
  pub round : W → W
  -- `<` and `<=`
  pub lt : W → W → Bool
  pub le : W → W → Bool
  -- `Number.isFinite`
  pub is_finite : W → Bool
  -- `lit m e` is the double that the source's decimal literal m · 10⁻ᵉ denotes.
  pub lit : ℕ → ℕ → W
  pub infinity : W

-- The double of a whole number.
abbrev pub of_ℕ : {W : Type 0} ⦃d : Double W⦄ → ℕ → W
of_ℕ ⦃d⦄ n = d.lit n 0

-- NaN is the value that is not `<=` itself.
abbrev pub IsNumber : {W : Type 0} ⦃d : Double W⦄ → W → Type 0
IsNumber ⦃d⦄ x = d.le x x ≡ true

-- What IEEE 754 and the language specification state of comparison, `Math.max` and `Math.min`.
pub record IsOrdered (W : Type 0) ⦃d : Double W⦄ : Type 0 where
  pub le_trans : (x y z : W) → d.le x y ≡ true → d.le y z ≡ true → d.le x z ≡ true
  pub le_total : (x y : W) → IsNumber x → IsNumber y → (d.le x y ≡ true) ⊎ (d.le y x ≡ true)
  pub lt-eq-not-le : (x y : W) → IsNumber x → IsNumber y → d.lt x y ≡ not (d.le y x)
  pub le-max_left : (x y : W) → IsNumber x → IsNumber y → d.le x (d.max x y) ≡ true
  pub le-max_right : (x y : W) → IsNumber x → IsNumber y → d.le y (d.max x y) ≡ true
  pub min-le_left : (x y : W) → IsNumber x → IsNumber y → d.le (d.min x y) x ≡ true
  pub min-le_right : (x y : W) → IsNumber x → IsNumber y → d.le (d.min x y) y ≡ true
