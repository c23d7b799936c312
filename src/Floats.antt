-- ===== src/Floats.antt =====
-- The floating-point numbers of the C implementation (`float` and `double`): a parameter of the
-- parts that compute with them. Only the operations are given; a theorem that needs a law of them
-- says so in a hypothesis.
use bmon.Prelude.{ℕ, Bool, ◌==◌, leb, ltb, ◌+◌, ◌-◌, ◌*◌, ◌/◌, ◌%◌}
use bmon.Prelude.Int.{ℤ, pos_part}

pub record Floats : Type 1 where
  pub Float : Type 0
  pub Double : Type 0
  -- Conversions: from a signed and an unsigned integer, between the two, and to a `uint64_t`.
  pub of_int : ℤ → Float
  pub of_nat : ℕ → Float
  pub widen : Float → Double
  pub double_of_nat : ℕ → Double
  pub to_u64 : Float → ℕ
  pub narrow : Double → Float
  -- `float` arithmetic and tests.
  pub add : Float → Float → Float
  pub sub : Float → Float → Float
  pub mul : Float → Float → Float
  pub div : Float → Float → Float
  pub le : Float → Float → Bool
  pub lt : Float → Float → Bool
  pub eq : Float → Float → Bool
  -- `double` arithmetic and tests.
  pub div_double : Double → Double → Double
  pub mul_double : Double → Double → Double
  pub fmod : Double → Double → Double
  pub is_zero_double : Double → Bool
  pub lt_double : Double → Double → Bool
  pub le_double : Double → Double → Bool
  pub eq_double : Double → Double → Bool
  pub double_to_u64 : Double → ℕ
  -- The conversion of a `double` to an `unsigned int`.
  pub to_u32 : Double → ℕ

-- Whole numbers stand for floats, where a test or an example has to compute.
abbrev pub whole_floats : Floats
whole_floats = record {
  Float = ℕ;
  Double = ℕ;
  of_int = pos_part;
  of_nat = λ n. n;
  widen = λ n. n;
  double_of_nat = λ n. n;
  to_u64 = λ n. n;
  narrow = λ n. n;
  add = λ a b. a + b;
  sub = λ a b. a - b;
  mul = λ a b. a * b;
  div = λ a b. a / b;
  le = leb;
  lt = ltb;
  eq = λ a b. a == b;
  div_double = λ a b. a / b;
  mul_double = λ a b. a * b;
  fmod = λ a b. a % b;
  is_zero_double = λ a. a == 0;
  lt_double = ltb;
  le_double = leb;
  eq_double = λ a b. a == b;
  double_to_u64 = λ a. a;
  to_u32 = λ a. a;
}
