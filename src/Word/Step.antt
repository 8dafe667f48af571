-- ===== src/Word/Step.antt =====
-- `&` and `|` in terms of the halves of their operands: the recursion that the native operations
-- stand for, where more fuel than the operand's value makes no difference.
use Prim.Native.Nat.{min, max, digits, bitwise, bit_and-bitwise, bit_or-bitwise}
use maizono_os.Base.{
  ℕ, zero, suc, ◌+◌, ◌-◌, ◌*◌, ◌/◌, ◌%◌, ◌≤◌, bit_and, bit_or, ◌≡◌, refl, ◌∙◌, ap, arith,
}

module _ (keep : ℕ → ℕ) (join : ℕ → ℕ → ℕ) where
  digits-one_more :
      (fuel x y : ℕ) → x ≤ fuel → digits keep join (suc fuel) x y ≡ digits keep join fuel x y
  digits-one_more zero zero y h = refl
  digits-one_more (suc fuel) zero y h = refl
  digits-one_more (suc fuel) (suc x) y h =
      let e = digits-one_more fuel (suc x / 2) (y / 2) (omega arith) in rw e
  digits-one_more zero (suc x) y h = absurd (omega arith)

  digits-more :
      (extra fuel x y : ℕ)
      → x ≤ fuel
      → digits keep join (extra + fuel) x y ≡ digits keep join fuel x y
  digits-more zero fuel x y h = let e : zero + fuel ≡ fuel = omega arith in rw e
  digits-more (suc extra) fuel x y h =
      let e : suc extra + fuel ≡ suc (extra + fuel) = omega arith in
      rw e (digits-one_more (extra + fuel) x y (omega arith) ∙ digits-more extra fuel x y h)

  bitwise-half :
      (x y : ℕ)
      → bitwise keep join (suc x) y
        ≡ join (suc x % 2) (y % 2) + 2 * bitwise keep join (suc x / 2) (y / 2)
  bitwise-half x y =
      let enough = digits-more (x - suc x / 2) (suc x / 2) (suc x / 2) (y / 2) (omega arith) in
      let e : x - suc x / 2 + suc x / 2 ≡ x = omega arith in
      omega (arith, ap (λ fuel. digits keep join fuel (suc x / 2) (y / 2)) e, enough)

pub bit_and_half : (x y : ℕ) → bit_and x y ≡ min (x % 2) (y % 2) + 2 * bit_and (x / 2) (y / 2)
bit_and_half zero y = simp bit_and-bitwise (omega arith)
bit_and_half (suc x) y = simp bit_and-bitwise (bitwise-half (λ rest. 0) min x y)

pub bit_or_half : (x y : ℕ) → bit_or x y ≡ max (x % 2) (y % 2) + 2 * bit_or (x / 2) (y / 2)
bit_or_half zero y = simp bit_or-bitwise (omega arith)
bit_or_half (suc x) y = simp bit_or-bitwise (bitwise-half (λ rest. rest) max x y)
