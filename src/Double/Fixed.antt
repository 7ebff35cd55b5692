-- ===== src/Double/Fixed.antt =====
-- An instance of the interface that runs: fixed-point numbers in thousandths, with no NaN.
-- Products and quotients are cut towards zero.
use mmxm.Prelude.{ℕ, ◌+◌, ◌-◌, ◌*◌, ◌/◌, ◌^◌, Bool, true, arith, leb, if◌then◌else◌}
use mmxm.Prelude.Int.{ℤ, pos, negsuc, pos_part, neg_part, sub_ℕ, ltb_ℤ}
use mmxm.Double.{Double, IsOrdered}

abbrev pub Fixed : Type 0
Fixed = ℤ

abbrev magnitude : ℤ → ℕ
magnitude a = pos_part a + neg_part a

abbrev leb_ℤ : ℤ → ℤ → Bool
leb_ℤ a b = leb (pos_part a + neg_part b) (pos_part b + neg_part a)

abbrev opposite : ℤ → ℤ
opposite a = sub_ℕ (neg_part a) (pos_part a)

-- The magnitude with the sign of the product of `a` and `b`.
abbrev with_sign : ℤ → ℤ → ℕ → ℤ
with_sign (pos _) (pos _) n = pos n
with_sign (negsuc _) (negsuc _) n = pos n
with_sign _ _ n = sub_ℕ 0 n

abbrev shift : ℕ → ℕ → ℕ
shift m e = if leb e 3 then m * 10 ^ (3 - e) else m / 10 ^ (e - 3)

instance abbrev pub fixed_double : Double Fixed
fixed_double = record {
  add = λ a b. sub_ℕ (pos_part a + pos_part b) (neg_part a + neg_part b);
  sub = λ a b. sub_ℕ (pos_part a + neg_part b) (neg_part a + pos_part b);
  mul = λ a b. with_sign a b (magnitude a * magnitude b / 1000);
  div = λ a b. with_sign a b (magnitude a * 1000 / magnitude b);
  neg = opposite;
  abs = λ a. pos (magnitude a);
  max = λ a b. if leb_ℤ a b then b else a;
  min = λ a b. if leb_ℤ a b then a else b;
  round = λ a. with_sign a (pos 0) ((magnitude a + 500) / 1000 * 1000);
  lt = ltb_ℤ;
  le = leb_ℤ;
  is_finite = λ _. true;
  lit = λ m e. pos (shift m e);
  infinity = pos (10 ^ 18);
}

pub Fixed-IsOrdered : IsOrdered Fixed
Fixed-IsOrdered = record {
  le_trans = λ x y z p q. ground arith;
  le_total = λ x y p q. ground arith;
  lt-eq-not-le = λ x y p q. ground arith;
  le-max_left = λ x y p q. ground arith;
  le-max_right = λ x y p q. ground arith;
  min-le_left = λ x y p q. ground arith;
  min-le_right = λ x y p q. ground arith;
}
