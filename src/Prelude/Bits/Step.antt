-- ===== src/Prelude/Bits/Step.antt =====
-- One equation for the lowest binary digit of `&` and of `|`. The native operations are specified
-- by a digit recursion that carries a bound on its depth; the bound is shown to be irrelevant.
use Prim.Native.Nat.{ℕ, zero, suc, ◌+◌, ◌*◌, ◌/◌, ◌%◌, ◌≤◌, bit_and, bit_or, min, max}
use Prim.Native.Nat.{digits, bitwise, bit_and-bitwise, bit_or-bitwise}
use mathlib.Core.Path.{◌≡◌, refl}
use native.Mathlib.Nat.{le_refl}
use native.Mathlib.Omega.{arith}

module _ (rest : ℕ → ℕ) (op : ℕ → ℕ → ℕ) where
  any_depth : (d e x y : ℕ) → x ≤ d → x ≤ e → digits rest op d x y ≡ digits rest op e x y
  any_depth zero zero x y in_d in_e = refl
  any_depth (suc d) (suc e) zero y in_d in_e = refl
  any_depth (suc d) (suc e) (suc x) y in_d in_e =
      rw (any_depth d e (suc x / 2) (y / 2) (omega arith) (omega arith))
  any_depth (suc d) zero zero y in_d in_e = refl
  any_depth (suc d) zero (suc x) y in_d in_e = absurd (omega arith)
  any_depth zero (suc e) zero y in_d in_e = refl
  any_depth zero (suc e) (suc x) y in_d in_e = absurd (omega arith)

  lowest_digit :
      (x y : ℕ)
      → bitwise rest op (suc x) y ≡ bitwise rest op (suc x / 2) (y / 2) * 2 + op (suc x % 2) (y % 2)
  lowest_digit x y =
      omega (arith, any_depth x (suc x / 2) (suc x / 2) (y / 2) (omega arith) (le_refl _))

pub bit_and_step : (x y : ℕ) → bit_and x y ≡ bit_and (x / 2) (y / 2) * 2 + min (x % 2) (y % 2)
bit_and_step zero y = simp bit_and-bitwise (omega arith)
bit_and_step (suc x) y = simp bit_and-bitwise (lowest_digit (λ _. 0) min x y)

pub bit_or_step : (x y : ℕ) → bit_or x y ≡ bit_or (x / 2) (y / 2) * 2 + max (x % 2) (y % 2)
bit_or_step zero y = simp bit_or-bitwise (omega arith)
bit_or_step (suc x) y = simp bit_or-bitwise (lowest_digit (λ n. n) max x y)
