-- ===== src/Allocator/Blocks/Alignment.antt =====
-- hypervisor/src/allocator.rs: distances to aligned addresses.
use native.Mathlib.Nat.{mul-mod_left, mod_self, mod-eq_of_lt, pow-succ', pow-le-pow_right}
use hypervisor_101_in_rust.Prelude.{
  ℕ, zero, suc, ◌+◌, ◌-◌, ◌*◌, ◌/◌, ◌%◌, ◌^◌, ◌≤◌, ◌<◌, ◌≡◌, ◌≢◌, sym, ap, ◌∙◌, inl, inr, ltb, ◌==◌,
  arith, Bool-cases,
}
use hypervisor_101_in_rust.Allocator.{Layout, offset_of}

-- What Rust guarantees of a layout.
pub record IsLayout (l : Layout) : Type 0 where
  pub log : ℕ
  pub power : l.align ≡ 2 ^ log
  pub bounded : l.size + l.align < 2 ^ 64

pub offset_of-distance : (ptr align : ℕ) → 1 ≤ align → offset_of ptr align ≡ align - ptr % align
unfolding offset_of
offset_of-distance ptr align pos = elim (Bool-cases (ptr % align == 0)) [
  | inl z ↦
      let zero : ptr % align ≡ 0 = ground arith in
      let whole : align - ptr % align ≡ align = omega arith in
      rw (ap (λ d. d % align) whole ∙ mod_self align) (sym whole)
  | inr n ↦
      let some_left : ptr % align ≢ 0 = ground arith in
      let inside : (align - ptr % align) % align ≡ align - ptr % align =
        mod-eq_of_lt (omega arith) in
      rw inside (ground arith)
]

pub aligned-distance : (ptr align : ℕ) → 1 ≤ align → (ptr + (align - ptr % align)) % align ≡ 0
aligned-distance ptr align pos =
    let e : ptr + (align - ptr % align) ≡ (ptr / align + 1) * align = omega arith in
    ap (λ x. x % align) e ∙ mul-mod_left (ptr / align + 1) align

-- A power of two that is larger than 8 and no multiple of 4 KiB is a multiple of 8.
pub eighth : (log : ℕ) → 8 < 2 ^ log → (e : ℕ) × (2 ^ log ≡ 8 * e)
eighth zero h = absurd (omega arith)
eighth (suc zero) h = absurd (omega arith)
eighth (suc (suc zero)) h = absurd (omega arith)
eighth (suc (suc (suc log))) h =
    (2 ^ log, omega (arith, pow-succ' 2 (suc (suc log)), pow-succ' 2 (suc log), pow-succ' 2 log))

pub distance-room :
    (ptr align eighth : ℕ) → align ≡ 8 * eighth → 1 ≤ align → ptr % 8 ≡ 0 → 8 ≤ align - ptr % align
distance-room ptr align eighth e pos aligned =
    let p : ptr / align * align ≡ 8 * (ptr / align * eighth) =
      ap (λ a. ptr / align * a) e ∙ omega arith in
    omega arith

pub small_power : (log : ℕ) → 2 ^ log ≤ 8 → log ≤ 3
small_power log h = elim (Bool-cases (ltb 3 log)) [
  | inl y ↦
      let more : 4 ≤ log = ground arith in
      absurd (omega (arith, pow-le-pow_right {n = 2} (omega arith) more))
  | inr n ↦ ground arith
]

pub small_aligned : (ptr log : ℕ) → log ≤ 3 → ptr % 8 ≡ 0 → ptr % 2 ^ log ≡ 0
small_aligned ptr zero l h = omega arith
small_aligned ptr (suc zero) l h = omega arith
small_aligned ptr (suc (suc zero)) l h = omega arith
small_aligned ptr (suc (suc (suc zero))) l h = omega arith
small_aligned ptr (suc (suc (suc (suc log)))) l h = absurd (omega arith)
