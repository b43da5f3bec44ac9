-- ===== src/HardwareVt/Svm/Exits.antt =====
-- hypervisor/src/hardware_vt/svm.rs: the exceptions that `initialize` intercepts, and the exits that
-- `run` decodes.
use hypervisor_101_in_rust.Prelude.{
  ℕ, ◌+◌, ◌-◌, ◌%◌, ◌^◌, ◌<◌, ◌≡◌, refl, sym, ap, ◌∙◌, inl, inr, arith, ok, some, none, Bool, true,
  false, not, ◌||◌, ◌==◌, leb, Option-cases,
}
use hypervisor_101_in_rust.Prelude.Bits.{bit, holds_under, holds_under→}
use hypervisor_101_in_rust.HardwareVt.{
  VmExitReason, exception, Msrs, exception_of_vector, exception_bitmap, GuestException,
}
use hypervisor_101_in_rust.HardwareVt.Svm.{Svm, initialize, exit_reason, after_run, copy_registers}

is_known : ℕ → Bool
is_known vector = elim (exception_of_vector vector) [ none ↦ false | some code ↦ true ]

known_table : holds_under (λ v. not (bit exception_bitmap v == 1) || is_known v) 32 ≡ true
unfolding holds_under is_known exception_of_vector
known_table = refl

-- The vectors whose bits are set are those that the program knows.
pub bitmap-exception_of_vector :
    (vector : ℕ)
    → vector < 32
    → bit exception_bitmap vector ≡ 1
    → (code : GuestException) × (exception_of_vector vector ≡ some code)
unfolding is_known
bitmap-exception_of_vector vector small set =
    let p =
      holds_under→ (λ v. not (bit exception_bitmap v == 1) || is_known v) 32 known_table vector
        small in
    let is_set : (bit exception_bitmap vector == 1) ≡ true = ground arith in
    elim (Option-cases (exception_of_vector vector)) [
      | inl unknown ↦ let q = rw (is_set, is_known, unknown) at p in absurd (cc)
      | inr known ↦ known
    ]

-- The exception that `run` reports.
abbrev reported : Svm → GuestException → VmExitReason
reported s code = exception (record { rip = s.vmcb.state_save_area.rip; exception_code = code })

-- No #VMEXIT for an exception that `initialize` has asked to intercept makes `run` panic: it is
-- reported with its kind and the guest's RIP.
pub svm_exception-reported :
    (nested_pml4_addr : ℕ) (before : Svm) (msrs : Msrs) (s : Svm) (vector : ℕ)
    → s.vmcb.control_area.intercept_exception
      ≡ (initialize nested_pml4_addr before msrs).0.vmcb.control_area.intercept_exception
    → vector < 32
    → bit s.vmcb.control_area.intercept_exception vector ≡ 1
    → s.vmcb.control_area.exit_code ≡ 0x40 + vector
    → (code : GuestException) × (exception_of_vector vector ≡ some code)
      × (after_run s ≡ ok (copy_registers s, reported s code))
unfolding initialize after_run exit_reason copy_registers
svm_exception-reported nested_pml4_addr before msrs s vector same small set e =
    let (code, known) =
      bitmap-exception_of_vector vector small (ap (λ b. bit b vector) (sym same) ∙ set) in
    let at_vector : (s.vmcb.control_area.exit_code - 0x40) % 2 ^ 8 ≡ vector = omega arith in
    let low : leb 0x40 s.vmcb.control_area.exit_code ≡ true = ground arith in
    let high : leb s.vmcb.control_area.exit_code 0x5f ≡ true = ground arith in
    (code, known, rw (low, high, at_vector, known) refl)
