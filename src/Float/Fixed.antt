-- ===== src/Float/Fixed.antt =====
-- A concrete arithmetic, for tests and to show that the hypotheses on floats can be met: whole
-- numbers of 10 ^ -8, with products and quotients cut off.
use hyperliquid_smart_wallet.Prelude.{ℕ, ◌+◌, ◌*◌, ◌/◌, ◌^◌, if◌then◌else◌, arith, leb}
use hyperliquid_smart_wallet.Prelude.Int.{
  ℤ, pos, pos_part, neg_part, sub_ℕ, ◌+ℤ◌, ◌-ℤ◌, ltb_ℤ, leb_ℤ, eqb_ℤ,
}
use hyperliquid_smart_wallet.Float.{Float, IsOrdered}

abbrev one : ℕ
one = 100_000_000

-- The product and the quotient go by the two parts: one part of each number is 0.
abbrev fixed_mul : ℤ → ℤ → ℤ
fixed_mul a b =
    sub_ℕ ((pos_part a * pos_part b + neg_part a * neg_part b) / one)
      ((pos_part a * neg_part b + neg_part a * pos_part b) / one)

abbrev fixed_div : ℤ → ℤ → ℤ
fixed_div a b =
    let m = pos_part b + neg_part b in
    if leb (neg_part b) 0
    then sub_ℕ (pos_part a * one / m) (neg_part a * one / m)
    else sub_ℕ (neg_part a * one / m) (pos_part a * one / m)

-- `round` to at most eight places is the identity.
instance abbrev pub fixed : Float ℤ
fixed = record {
  add = λ a b. a +ℤ b;
  sub = λ a b. a -ℤ b;
  mul = fixed_mul;
  div = fixed_div;
  neg = λ a. pos 0 -ℤ a;
  abs = λ a. pos (pos_part a + neg_part a);
  lt = ltb_ℤ;
  le = leb_ℤ;
  feq = eqb_ℤ;
  of_int = λ n. sub_ℕ (pos_part n * one) (neg_part n * one);
  decimal = λ m k. pos (m * one / 10 ^ k);
  round = λ a k. a;
  trunc = λ a. sub_ℕ (pos_part a / one) (neg_part a / one);
}

pub fixed-IsOrdered : IsOrdered ℤ
fixed-IsOrdered = ground arith
