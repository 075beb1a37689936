-- ===== src/Double.antt =====
-- All that the flight software does with a `double`. The type and its operations are IEEE 754
-- arithmetic of the platform, so they are a parameter. `lit m e` is the literal m * 10^-e.
use cubesat_fsw_gnc.Prelude.{ℕ, ◌≡◌, Bool, true, false, List, if◌then◌else◌, length}

pub record Double (D : Type 0) : Type 0 where
  pub lit : ℕ → ℕ → D
  pub add : D → D → D
  pub sub : D → D → D
  pub mul : D → D → D
  pub div : D → D → D
  pub neg : D → D
  pub abs : D → D
  pub lt : D → D → Bool
  pub le : D → D → Bool

module _ {D : Type 0} ⦃d : Double D⦄ where
  infixl 65 ◌⊕◌ ◌⊖◌
  infixl 70 ◌⊗◌ ◌⊘◌
  infix 50 ◌≺◌ ◌≼◌
  abbrev pub lit : ℕ → ℕ → D
  lit = d.lit

  abbrev pub ◌⊕◌ : D → D → D
  a ⊕ b = d.add a b

  abbrev pub ◌⊖◌ : D → D → D
  a ⊖ b = d.sub a b

  abbrev pub ◌⊗◌ : D → D → D
  a ⊗ b = d.mul a b

  abbrev pub ◌⊘◌ : D → D → D
  a ⊘ b = d.div a b

  abbrev pub ◌≺◌ : D → D → Bool
  a ≺ b = d.lt a b

  abbrev pub ◌≼◌ : D → D → Bool
  a ≼ b = d.le a b

  -- `std::min` and `std::max`, which keep their first argument where the test fails
  abbrev pub fmin : D → D → D
  fmin a b = if b ≺ a then b else a

  abbrev pub fmax : D → D → D
  fmax a b = if a ≺ b then b else a

-- The comparisons of IEEE 754: a NaN is not less than or equal to itself, and compares false.
pub record IsOrdered (D : Type 0) ⦃d : Double D⦄ : Type 0 where
  pub le_refl_of_lt : (a b : D) → a ≺ b ≡ true → (a ≼ a ≡ true) × (b ≼ b ≡ true)
  pub le_refl_of_le : (a b : D) → a ≼ b ≡ true → (a ≼ a ≡ true) × (b ≼ b ≡ true)
  pub le_of_not_lt : (a b : D) → a ≼ a ≡ true → b ≼ b ≡ true → a ≺ b ≡ false → b ≼ a ≡ true
  pub le_of_lt : (a b : D) → a ≺ b ≡ true → a ≼ b ≡ true
  pub le_trans : (a b c : D) → a ≼ b ≡ true → b ≼ c ≡ true → a ≼ c ≡ true
  pub not_lt_of_le : (a b : D) → a ≼ b ≡ true → b ≺ a ≡ false

-- The functions of <cmath> that the controllers call.
pub record Libm (D : Type 0) : Type 0 where
  pub acos : D → D
  pub sin : D → D
  pub cos : D → D
  pub sqrt : D → D
  pub atan2 : D → D → D
  pub pow : D → D → D

-- The reductions of an Eigen array that the history calls.
pub record Reductions (D : Type 0) : Type 0 where
  pub mean : List D → D
  pub sum : List D → D

-- A NaN goes through sums and products, and is less than nothing.
pub record HasNan (D : Type 0) ⦃d : Double D⦄ : Type 0 where
  pub is_nan : D → Bool
  pub mul_nan : (a b : D) → is_nan b ≡ true → is_nan (a ⊗ b) ≡ true
  pub nan_add : (a b : D) → is_nan a ≡ true → is_nan (a ⊕ b) ≡ true
  pub nan_lt : (a b : D) → is_nan a ≡ true → a ≺ b ≡ false

-- `memcpy` between a `double` and its bytes, lowest address first: there are eight, and they
-- determine the number.
pub record Stored (D : Type 0) : Type 0 where
  pub bytes : D → List ℕ
  pub of_bytes : List ℕ → D
  pub length-bytes : (a : D) → length (bytes a) ≡ 8
  pub of_bytes-bytes : (a : D) → of_bytes (bytes a) ≡ a
