-- ===== src/Prelude/Bits.antt =====
-- Laws of `&`, `|` and `^` at variables: digit equations, bits, and tables of values.
mod Step
use Step.{bit_or_step, bit_and_step}
use Prim.Native.Nat.{ℕ, zero, suc, ◌+◌, ◌-◌, ◌*◌, ◌/◌, ◌%◌, ◌^◌, ◌≤◌, ◌<◌, bit_and, bit_or, bit_xor}
use Prim.Native.Nat.{min, max}
use mathlib.Core.Path.{◌≡◌, refl, sym, ap, ◌∙◌}
use mathlib.Core.Logic.{◌⊎◌, inl, inr}
use mathlib.Core.Bool.{Bool, true, ◌&&◌}
use native.Mathlib.Omega.{arith}
use native.Mathlib.Nat.{pow-suc, one-le-pow, div-div-eq-div-mul}

pub digit_and : (a b : ℕ) → bit_and a b ≡ bit_and (a / 2) (b / 2) * 2 + min (a % 2) (b % 2)
digit_and = bit_and_step

pub digit_or : (a b : ℕ) → bit_or a b ≡ bit_or (a / 2) (b / 2) * 2 + max (a % 2) (b % 2)
digit_or = bit_or_step

-- Bit `i` of a word.
abbrev pub bit : ℕ → ℕ → ℕ
bit x i = x / 2 ^ i % 2

holds_under-split : (a b : Bool) → (a && b) ≡ true → (a ≡ true) × (b ≡ true)
holds_under-split a b h = (ground arith, ground arith)

pub lt-cases : (i k : ℕ) → i < suc k → (i < k) ⊎ (i ≡ k)
lt-cases i k l = ground arith

-- Tests a property of the numbers under a bound, the smallest first.
unfoldable pub holds_under : (test : ℕ → Bool) → (bound : ℕ) → Bool
holds_under test zero = true
holds_under test (suc k) = holds_under test k && test k

-- A test that evaluates to true holds at each number under the bound.
pub holds_under→ :
    (test : ℕ → Bool) (bound : ℕ)
    → holds_under test bound ≡ true
    → (i : ℕ) → i < bound
    → test i ≡ true
unfolding holds_under
holds_under→ test (suc k) all i l =
    let (before, here) = holds_under-split (holds_under test k) (test k) all in
    elim (lt-cases i k l) [
      | inl less ↦ holds_under→ test k before i less
      | inr same ↦ ap test same ∙ here
    ]
holds_under→ test zero all i l = absurd (omega arith)

bit-half : (x i : ℕ) → bit x (suc i) ≡ bit (x / 2) i
bit-half x i =
    let e : 2 ^ suc i ≡ 2 * 2 ^ i = omega (arith, pow-suc 2 i) in
    ap (λ d. x / d % 2) e ∙ ap (λ q. q % 2) (sym (div-div-eq-div-mul x 2 (2 ^ i)))

-- `&` and `|` bit by bit.
pub bit-bit_and : (a b i : ℕ) → bit (bit_and a b) i ≡ min (bit a i) (bit b i)
bit-bit_and a b zero = ground (arith, digit_and a b)
bit-bit_and a b (suc i) =
    let halves : bit_and a b / 2 ≡ bit_and (a / 2) (b / 2) = ground (arith, digit_and a b) in
    bit-half (bit_and a b) i
    ∙ ap (λ x. bit x i) halves
    ∙ bit-bit_and (a / 2) (b / 2) i
    ∙ ap (λ x. min x (bit (b / 2) i)) (sym (bit-half a i))
    ∙ ap (λ x. min (bit a (suc i)) x) (sym (bit-half b i))

pub bit-bit_or : (a b i : ℕ) → bit (bit_or a b) i ≡ max (bit a i) (bit b i)
bit-bit_or a b zero = ground (arith, digit_or a b)
bit-bit_or a b (suc i) =
    let halves : bit_or a b / 2 ≡ bit_or (a / 2) (b / 2) = ground (arith, digit_or a b) in
    bit-half (bit_or a b) i
    ∙ ap (λ x. bit x i) halves
    ∙ bit-bit_or (a / 2) (b / 2) i
    ∙ ap (λ x. max x (bit (b / 2) i)) (sym (bit-half a i))
    ∙ ap (λ x. max (bit a (suc i)) x) (sym (bit-half b i))
