-- ===== src/Ds/Double.antt =====
-- The `double` of IEEE 754 as its 64-bit pattern, and the comparisons that the program makes on it.
use redis_like.Base.{
  ℕ, ◌-◌, ◌%◌, ◌^◌, ◌≡◌, refl, Bool, true, not, ◌&&◌, ltb, ◌==◌, if◌then◌else◌, ℤ, pos, negsuc,
  ltb_ℤ, leb_ℤ,
}

-- the exponent is all ones and the fraction is not zero
unfoldable pub is_nan : ℕ → Bool
is_nan x = ltb 0x7ff0_0000_0000_0000 (x % 2 ^ 63)

-- The sign and the magnitude of a pattern as one integer: on patterns that are no NaN it is in the
-- order of the numbers, and the two zeros meet in it.
unfoldable pub order_of : ℕ → ℤ
order_of x =
    if ltb x (2 ^ 63) then pos x else if x == 2 ^ 63 then pos 0 else negsuc (x - 2 ^ 63 - 1)

unfoldable pub lt_double : ℕ → ℕ → Bool
lt_double x y = not (is_nan x) && not (is_nan y) && ltb_ℤ (order_of x) (order_of y)

unfoldable pub le_double : ℕ → ℕ → Bool
le_double x y = not (is_nan x) && not (is_nan y) && leb_ℤ (order_of x) (order_of y)

unfoldable pub eq_double : ℕ → ℕ → Bool
eq_double x y =
    not (is_nan x)
    && not (is_nan y)
    && leb_ℤ (order_of x) (order_of y)
    && leb_ℤ (order_of y) (order_of x)

-- 1.5 < 2.0, -2.0 < 1.5, -0.0 == 0.0, and NaN is equal to nothing
comparisons :
    (lt_double 0x3ff8_0000_0000_0000 0x4000_0000_0000_0000
      && lt_double 0xc000_0000_0000_0000 0x3ff8_0000_0000_0000
      && eq_double 0x8000_0000_0000_0000 0
      && not (eq_double 0x7ff8_0000_0000_0000 0x7ff8_0000_0000_0000))
    ≡ true
unfolding lt_double eq_double is_nan order_of
comparisons = refl
