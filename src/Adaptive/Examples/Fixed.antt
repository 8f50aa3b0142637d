-- ===== src/Adaptive/Examples/Fixed.antt =====
-- Numbers of thousandths: a float64 to run the model with. Negative integers are read as 0, and
-- what is out of range is converted to the least int64, which the laws allow.
use nut_operator.Prelude.{ℕ, ◌+◌, ◌-◌, ◌*◌, ◌/◌, ◌^◌, ◌≤◌, refl, arith, leb, ltb, if◌then◌else◌}
use nut_operator.Prelude.Int.{pos, negsuc}
use nut_operator.Adaptive.Float.{Float64, IsIeee}

instance abbrev pub fixed_float : Float64 ℕ
fixed_float = record {
  literal = λ n k. n * 1000 / 10 ^ k;
  of_int = elim [ pos n ↦ n * 1000 | negsuc n ↦ 0 ];
  to_int = λ x.
      if ltb (x / 1000) 9223372036854775808 then pos (x / 1000) else negsuc 9223372036854775807;
  add = λ x y. x + y;
  sub = λ x y. x - y;
  mul = λ x y. x * y / 1000;
  div = λ x y. x * 1000 / y;
  leb = leb;
  ltb = ltb;
}

scaled_le : (x c : ℕ) → c ≤ 1000 → x * c / 1000 ≤ x
scaled_le x c h = grind arith

pub fixed-IsIeee : IsIeee ℕ
fixed-IsIeee = record {
  literal_number = λ n k. ground arith;
  tenth_pos = refl;
  fifth_pos = refl;
  ltb-not = λ x y h k. ground arith;
  leb_total = λ x y h k e. ground arith;
  leb_trans = λ x y z h k. ground arith;
  to_int-IsInt64 = λ x. ground arith;
  div_number = λ a b i j h. ground arith;
  to_int-of_int = λ n h. ground arith;
  of_int-zero = refl;
  of_int_mono = λ a b i j h. ground arith;
  to_int_mono = λ x y h k l. ground arith;
  mul_le = λ x c h k. ground (arith, scaled_le x c);
  mul_nonneg = λ x c h k. ground arith;
}
