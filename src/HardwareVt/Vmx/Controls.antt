-- ===== src/HardwareVt/Vmx/Controls.antt =====
-- hypervisor/src/hardware_vt/vmx.rs: the values of control fields, adjusted to what the capability MSRs
-- allow. The numbers of the MSRs are those of the x86 architecture.
use hypervisor_101_in_rust.Prelude.{
  ℕ, ◌/◌, ◌%◌, ◌^◌, ◌<◌, ◌≡◌, refl, ap, ◌∙◌, Bool, true, false, not, Exec, ok, panic, ltb, ◌==◌,
  if◌then◌else◌, arith, bit_and, bit_or, lt→ltb, min, max,
}
use hypervisor_101_in_rust.Prelude.Bits.{bit, bit-bit_and, bit-bit_or}
use hypervisor_101_in_rust.HardwareVt.{Msrs}

abbrev pub ia32_feature_control : ℕ
ia32_feature_control = 0x3a

abbrev pub ia32_vmx_basic : ℕ
ia32_vmx_basic = 0x480

abbrev pub ia32_vmx_misc : ℕ
ia32_vmx_misc = 0x485

abbrev pub ia32_vmx_cr0_fixed0 : ℕ
ia32_vmx_cr0_fixed0 = 0x486

abbrev pub ia32_vmx_cr0_fixed1 : ℕ
ia32_vmx_cr0_fixed1 = 0x487

-- `VmxControl`
pub data VmxControl : Type 0 where
  pin_based processor_based processor_based2 vm_exit vm_entry : VmxControl

-- The `match` of `adjust_vmx_control` on the control and on the support of the TRUE MSRs.
unfoldable pub msr_of_control : VmxControl → (true_cap_msr_supported : Bool) → ℕ
msr_of_control pin_based true = 0x48d
msr_of_control pin_based false = 0x481
msr_of_control processor_based true = 0x48e
msr_of_control processor_based false = 0x482
msr_of_control vm_exit true = 0x48f
msr_of_control vm_exit false = 0x483
msr_of_control vm_entry true = 0x490
msr_of_control vm_entry false = 0x484
msr_of_control processor_based2 supported = 0x48b

-- `cap_msr`
unfoldable pub capability_msr : Msrs → VmxControl → ℕ
unfolding msr_of_control
capability_msr msrs control = msr_of_control control (not (msrs ia32_vmx_basic / 2 ^ 55 % 2 == 0))

-- `adjust_vmx_control`; a requested value that is no `u32` panics.
unfoldable pub adjust_vmx_control : Msrs → VmxControl → (requested_value : ℕ) → Exec ℕ
adjust_vmx_control msrs control requested_value =
    let capabilities = msrs (capability_msr msrs control) in
    let allowed0 = capabilities % 2 ^ 32 in
    let allowed1 = capabilities / 2 ^ 32 % 2 ^ 32 in
    if ltb requested_value (2 ^ 32)
    then ok (bit_and (bit_or requested_value allowed0) allowed1)
    else panic

-- The control value has every bit as the MSR demands: a bit that must be 0 is 0, a bit that must be 1
-- and may be 1 is 1, and every other bit is as requested.
pub adjust_vmx_control_lem :
    (msrs : Msrs) (control : VmxControl) (requested_value : ℕ)
    → requested_value < 2 ^ 32
    → let capabilities = msrs (capability_msr msrs control) in
      (value : ℕ) × (adjust_vmx_control msrs control requested_value ≡ ok value)
      × ((i : ℕ)
          → ((bit (capabilities / 2 ^ 32 % 2 ^ 32) i ≡ 0) → bit value i ≡ 0)
            × ((bit (capabilities / 2 ^ 32 % 2 ^ 32) i ≡ 1)
                → (bit (capabilities % 2 ^ 32) i ≡ 1)
                → bit value i ≡ 1)
            × ((bit (capabilities / 2 ^ 32 % 2 ^ 32) i ≡ 1)
                → (bit (capabilities % 2 ^ 32) i ≡ 0)
                → bit value i ≡ bit requested_value i))
unfolding adjust_vmx_control
adjust_vmx_control_lem msrs control requested_value small =
    let capabilities = msrs (capability_msr msrs control) in
    let allowed0 = capabilities % 2 ^ 32 in
    let allowed1 = capabilities / 2 ^ 32 % 2 ^ 32 in
    (
      bit_and (bit_or requested_value allowed0) allowed1,
      rw (lt→ltb requested_value (2 ^ 32) small) refl,
      λ i.
          let p : bit (bit_and (bit_or requested_value allowed0) allowed1) i
              ≡ min (max (bit requested_value i) (bit allowed0 i)) (bit allowed1 i) =
            bit-bit_and (bit_or requested_value allowed0) allowed1 i
            ∙ ap (λ x. min x (bit allowed1 i)) (bit-bit_or requested_value allowed0 i) in
          (
            λ z. p ∙ cut (bit requested_value i) (bit allowed0 i) (bit allowed1 i) z,
            λ z y.
                p
                ∙ forced (bit requested_value i) (bit allowed0 i) (bit allowed1 i) (omega arith) z
                    y,
            λ z y.
                p
                ∙ free (bit requested_value i) (bit allowed0 i) (bit allowed1 i) (omega arith) z y,
          ),
    )
  where
    cut : (r a b : ℕ) → b ≡ 0 → min (max r a) b ≡ 0
    cut r a b h = omega arith

    forced : (r a b : ℕ) → r < 2 → b ≡ 1 → a ≡ 1 → min (max r a) b ≡ 1
    forced r a b l h h' = omega arith

    free : (r a b : ℕ) → r < 2 → b ≡ 1 → a ≡ 0 → min (max r a) b ≡ r
    free r a b l h h' = omega arith
