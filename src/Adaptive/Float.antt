-- ===== src/Adaptive/Float.antt =====
-- The float64 operations that internal/adaptive uses. Go's float64 is a parameter of the model: its
-- carrier and operations come as an instance, and what IEEE 754 says of them as a record of laws.
use nut_operator.Prelude.{ℕ, Bool, true, false, not, ◌≡◌, ◌≤◌}
use nut_operator.Prelude.Int.{ℤ, pos, ◌≤ℤ◌}
use nut_operator.Prelude.Words.{IsInt64}

pub record Float64 (F : Type 0) : Type 0 where
  -- The decimal literal `n / 10 ^ k`.
  pub literal : ℕ → ℕ → F
  -- Conversion from and to an int64; the second truncates.
  pub of_int : ℤ → F
  pub to_int : F → ℤ
  pub add : F → F → F
  pub sub : F → F → F
  pub mul : F → F → F
  pub div : F → F → F
  -- `<=` and `<`, both false at NaN.
  pub leb : F → F → Bool
  pub ltb : F → F → Bool

abbrev pub nought : {F : Type 0} ⦃fl : Float64 F⦄ → F
nought ⦃fl⦄ = fl.literal 0 0

abbrev pub one : {F : Type 0} ⦃fl : Float64 F⦄ → F
one ⦃fl⦄ = fl.literal 1 0

-- A value is a number, and not NaN, when it is `<=` itself.
abbrev pub IsNumber : {F : Type 0} ⦃fl : Float64 F⦄ → F → Type 0
IsNumber ⦃fl⦄ x = fl.leb x x ≡ true

-- At least 0 and at most 2^53, so finite and within int64.
abbrev pub IsSmall : {F : Type 0} ⦃fl : Float64 F⦄ → F → Type 0
IsSmall ⦃fl⦄ x = (fl.leb nought x ≡ true) × (fl.leb x (fl.of_int (pos 9007199254740992)) ≡ true)

-- From 0 to 1.
abbrev pub IsFraction : {F : Type 0} ⦃fl : Float64 F⦄ → F → Type 0
IsFraction ⦃fl⦄ c = (fl.leb nought c ≡ true) × (fl.leb c one ≡ true)

-- Laws that IEEE 754's binary64, rounding to nearest, and Go's conversions keep at all the values that
-- they name: a law that infinities or conversions out of range would break is limited to small
-- values.
pub record IsIeee (F : Type 0) ⦃fl : Float64 F⦄ : Type 0 where
  pub literal_number : (n k : ℕ) → IsNumber (fl.literal n k)
  -- A tenth, as 0.10 and the doubled 0.20, is above 0 and below 1.
  pub tenth_pos : fl.leb (fl.literal 10 2) nought ≡ false
  pub fifth_pos : fl.leb (fl.literal 20 2) nought ≡ false
  -- Away from NaN `<` is the negation of the reversed `<=`.
  pub ltb-not : (x y : F) → IsNumber x → IsNumber y → fl.ltb x y ≡ not (fl.leb y x)
  pub leb_total : (x y : F) → IsNumber x → IsNumber y → fl.leb x y ≡ false → fl.leb y x ≡ true
  pub leb_trans : (x y z : F) → fl.leb x y ≡ true → fl.leb y z ≡ true → fl.leb x z ≡ true
  -- The conversion to int64 gives an int64, whichever one it is out of range.
  pub to_int-IsInt64 : (x : F) → IsInt64 (fl.to_int x)
  -- The quotient of two converted int64 is a number, where the divisor is above 0.
  pub div_number :
      (a b : ℤ) → IsInt64 a → IsInt64 b → pos 1 ≤ℤ b → IsNumber (fl.div (fl.of_int a) (fl.of_int b))
  -- An integer of at most 53 bits is converted exactly, and 0 is the literal.
  pub to_int-of_int : (n : ℕ) → n ≤ 9007199254740992 → fl.to_int (fl.of_int (pos n)) ≡ pos n
  pub of_int-zero : fl.of_int (pos 0) ≡ nought
  -- Rounding and truncation are monotone.
  pub of_int_mono :
      (a b : ℤ) → IsInt64 a → IsInt64 b → a ≤ℤ b → fl.leb (fl.of_int a) (fl.of_int b) ≡ true
  pub to_int_mono :
      (x y : F) → IsSmall x → IsSmall y → fl.leb x y ≡ true → fl.to_int x ≤ℤ fl.to_int y
  -- A fraction of a small value is not above it, and not below 0.
  pub mul_le : (x c : F) → IsSmall x → IsFraction c → fl.leb (fl.mul x c) x ≡ true
  pub mul_nonneg : (x c : F) → IsSmall x → IsFraction c → fl.leb nought (fl.mul x c) ≡ true
