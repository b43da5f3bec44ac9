-- ===== src/HardwareVt/Vmx/Exits.antt =====
-- hypervisor/src/hardware_vt/vmx.rs: the exceptions that `initialize` intercepts and the exits that
-- `run` decodes, and the time that the VMX-preemption timer gives the guest.
use native.Mathlib.Nat.{one-le-pow}
use hypervisor_101_in_rust.Prelude.{
  ℕ, ◌+◌, ◌*◌, ◌/◌, ◌%◌, ◌^◌, ◌≤◌, ◌<◌, ◌≡◌, refl, sym, ap, ◌∙◌, arith, ok, some, none, true, ◌==◌,
  Option, Satisfies, Satisfies->>=, Satisfies-ok, Bool-cases, inl, inr,
}
use hypervisor_101_in_rust.Prelude.Bits.{bit}
use hypervisor_101_in_rust.Config.{guest_exec_timeout_in_tsc}
use hypervisor_101_in_rust.HardwareVt.{
  VmExitReason, exception, GuestException, Msrs, exception_bitmap, exception_of_vector,
}
use hypervisor_101_in_rust.HardwareVt.Svm.Exits.{bitmap-exception_of_vector}
use hypervisor_101_in_rust.HardwareVt.Vmx.{
  Vmx, exit_reason, after_run, copy_registers, vm_succeed, timer_value, vmx_preemption_timer_scale,
  activate_vmx_preemption_timer,
}
use hypervisor_101_in_rust.HardwareVt.Vmx.Controls.{adjust_vmx_control, pin_based}

-- The exception that `run` reports.
abbrev reported : Vmx → GuestException → VmExitReason
reported s code = exception (record { rip = s.vmcs.guest.rip; exception_code = code })

-- No VM-exit for an exception of the bitmap makes `run` panic: it is reported with its kind and the
-- guest's RIP, which `run` has copied.
pub vmx_exception-reported :
    (flags : ℕ) (s : Vmx) (vector : ℕ)
    → vm_succeed flags ≡ true
    → s.vmcs.control.exception_bitmap ≡ exception_bitmap
    → vector < 32
    → bit s.vmcs.control.exception_bitmap vector ≡ 1
    → s.vmcs.ro.exit_reason % 2 ^ 16 ≡ 0
    → s.vmcs.ro.vmexit_interruption_info % 2 ^ 8 ≡ vector
    → (code : GuestException) × (exception_of_vector vector ≡ some code)
      × (after_run flags s ≡ ok (copy_registers s, reported s code))
unfolding after_run exit_reason copy_registers
vmx_exception-reported flags s vector succeeded same small set basic info =
    let (code, known) =
      bitmap-exception_of_vector vector small (ap (λ b. bit b vector) (sym same) ∙ set) in
    (code, known, rw (succeeded, basic, info, known) refl)

-- The scale is the number of time stamps between two changes of the bit.
abbrev IsScale : Msrs → Option ℕ → Type 0
IsScale msrs none = Unit
IsScale msrs (some scale) = 2 ^ (msrs 0x485 % 2 ^ 5) ≡ scale

vmx_preemption_timer_scale-IsScale :
    (msrs : Msrs) → Satisfies (IsScale msrs) (vmx_preemption_timer_scale msrs)
unfolding vmx_preemption_timer_scale
vmx_preemption_timer_scale-IsScale msrs =
    Satisfies->>= (IsScale msrs) (adjust_vmx_control msrs pin_based activate_vmx_preemption_timer) _
      (λ control h. elim (Bool-cases (control / activate_vmx_preemption_timer % 2 == 0)) [
        | inl off ↦ rw off tt
        | inr on ↦ rw on refl
      ])

vmx_preemption_timer_scale-eq-ok :
    (msrs : Msrs) (scale : ℕ)
    → vmx_preemption_timer_scale msrs ≡ ok (some scale)
    → scale ≡ 2 ^ (msrs 0x485 % 2 ^ 5)
vmx_preemption_timer_scale-eq-ok msrs scale e = sym (
    Satisfies-ok (IsScale msrs) (vmx_preemption_timer_scale msrs)
      (vmx_preemption_timer_scale-IsScale msrs) e)

-- The timer counts down by 1 each time that bit X of the time stamp counter changes, where bits 4:0
-- of IA32_VMX_MISC, the MSR 0x485, are X. If the timer is supported, the value that is written for
-- the guest fits its 32 bits and counts down in the time that the guest may run at most, to less
-- than one step.
pub timer_value-bounded :
    (msrs : Msrs) (scale old : ℕ)
    → vmx_preemption_timer_scale msrs ≡ ok (some scale)
    → let value = timer_value (some scale) old in
      let step = 2 ^ (msrs 0x485 % 2 ^ 5) in
      (value < 2 ^ 32)
      × (value * step ≤ guest_exec_timeout_in_tsc)
      × (guest_exec_timeout_in_tsc < (value + 1) * step)
timer_value-bounded msrs scale old e =
    let same = vmx_preemption_timer_scale-eq-ok msrs scale e in
    let some_time : 1 ≤ scale =
      omega (arith, same, one-le-pow (msrs 0x485 % 2 ^ 5) 2 (omega arith)) in
    rw (sym same) (omega arith, omega arith, omega arith)
