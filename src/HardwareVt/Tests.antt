-- ===== src/HardwareVt/Tests.antt =====
-- The theorems about entries, segments and vendors at concrete values.
use hypervisor_101_in_rust.Prelude.{
  panic, ◌⊎◌, ℕ, ◌+◌, ◌*◌, ◌/◌, ◌%◌, ◌^◌, ◌<◌, ◌≡◌, refl, true, ok, some, none, ◌≤◌, ◌≢◌, ◌==◌,
  if◌then◌else◌, length, get_elem?, arith,
}
use hypervisor_101_in_rust.Prelude.Bits.{bit}
use hypervisor_101_in_rust.Memory.{Memory}
use hypervisor_101_in_rust.HardwareVt.{
  Msrs, GuestException, exception, exception_of_vector, exception_bitmap, zero_registers,
}
use hypervisor_101_in_rust.HardwareVt.Entry.{
  Flags, pfn, permission, memory_type, flags1, flags2, set_translation,
}
use hypervisor_101_in_rust.HardwareVt.Entry.Laws.{fields-set_translation}
use hypervisor_101_in_rust.HardwareVt.Segments.{
  svm_access_right, vmx_access_right, access_right-agree,
}
use hypervisor_101_in_rust.HardwareVt.Vmx
use hypervisor_101_in_rust.HardwareVt.Svm
use hypervisor_101_in_rust.HardwareVt.Svm.{svm-IsLawful}
use hypervisor_101_in_rust.HardwareVt.Vmx.{vmx-IsLawful, vmx_preemption_timer_scale, timer_value}
use hypervisor_101_in_rust.HardwareVt.Vmx.Vmcs.{zero_fields}
use hypervisor_101_in_rust.HardwareVt.Vmx.Controls.{
  vm_exit, capability_msr, msr_of_control, adjust_vmx_control, adjust_vmx_control_lem,
}
use hypervisor_101_in_rust.HardwareVt.Vmx.HostGdt.{
  Tables, no_tables, initialize_from_current, initialize_from_current_lem,
}
use hypervisor_101_in_rust.HardwareVt.Vmx.Exits.{vmx_exception-reported, timer_value-bounded}
use hypervisor_101_in_rust.HardwareVt.Vmx.Guest.{with_input, vmx_revert-captured}
use hypervisor_101_in_rust.HardwareVt.Vmx.Guest.{captured as vmx_captured}
use hypervisor_101_in_rust.HardwareVt.Svm.Guest.{started, svm_revert-captured}
use hypervisor_101_in_rust.HardwareVt.Svm.Guest.{captured as svm_captured}
use hypervisor_101_in_rust.HardwareVt.Svm.Exits.{svm_exception-reported}
use hypervisor_101_in_rust.Snapshot.Tests.{unread, memory}
use hypervisor_101_in_rust.Config.{guest_exec_timeout_in_tsc}

abbrev flags : Flags
flags = record { permission = 5; memory_type = 6 }

fields-set_translation_example :
    (pfn (set_translation 0x3f 0x7000 flags) ≡ 0x7000 / 2 ^ 12 % 2 ^ 47)
    × (permission (set_translation 0x3f 0x7000 flags) ≡ flags.permission % 2 ^ 3)
    × (memory_type (set_translation 0x3f 0x7000 flags) ≡ flags.memory_type % 2 ^ 3)
    × (flags1 (set_translation 0x3f 0x7000 flags) ≡ flags1 0x3f)
    × (flags2 (set_translation 0x3f 0x7000 flags) ≡ flags2 0x3f)
    × (set_translation 0x3f 0x7000 flags < 2 ^ 64)
fields-set_translation_example = fields-set_translation 0x3f 0x7000 flags (omega arith)

-- A GDT of descriptors whose bytes are all ff.
abbrev gdt : Memory
gdt address offset = 0xff

access_right-agree_example :
    (svm_access_right gdt 0x1000 8 % 2 ^ 8 ≡ vmx_access_right gdt 0x1000 8 % 2 ^ 8)
    × (svm_access_right gdt 0x1000 8 / 2 ^ 8 ≡ vmx_access_right gdt 0x1000 8 / 2 ^ 12)
    × (vmx_access_right gdt 0x1000 8 / 2 ^ 8 % 2 ^ 4 ≡ 0)
    × (svm_access_right gdt 0x1000 8 < 2 ^ 12)
access_right-agree_example = access_right-agree gdt 0x1000 8 refl

-- MSRs that must have bit 0 and may have bits 0 to 2, and 6 on the controls of pins.
abbrev msrs : Msrs
msrs msr = if msr == 0x481 then 0x47 * 2 ^ 32 + 1 else 7 * 2 ^ 32 + 1

adjust_vmx_control_lem_example :
    (value : ℕ) × (adjust_vmx_control msrs vm_exit 10 ≡ ok value)
    × ((i : ℕ)
        → ((bit (msrs (capability_msr msrs vm_exit) / 2 ^ 32 % 2 ^ 32) i ≡ 0) → bit value i ≡ 0)
          × ((bit (msrs (capability_msr msrs vm_exit) / 2 ^ 32 % 2 ^ 32) i ≡ 1)
              → (bit (msrs (capability_msr msrs vm_exit) % 2 ^ 32) i ≡ 1)
              → bit value i ≡ 1)
          × ((bit (msrs (capability_msr msrs vm_exit) / 2 ^ 32 % 2 ^ 32) i ≡ 1)
              → (bit (msrs (capability_msr msrs vm_exit) % 2 ^ 32) i ≡ 0)
              → bit value i ≡ bit 10 i))
adjust_vmx_control_lem_example = adjust_vmx_control_lem msrs vm_exit 10 (omega arith)

timer_value-bounded_example :
    (timer_value (some 2) 0 < 2 ^ 32)
    × (timer_value (some 2) 0 * 2 ^ (msrs 0x485 % 2 ^ 5) ≤ guest_exec_timeout_in_tsc)
    × (guest_exec_timeout_in_tsc < (timer_value (some 2) 0 + 1) * 2 ^ (msrs 0x485 % 2 ^ 5))
unfolding vmx_preemption_timer_scale adjust_vmx_control capability_msr msr_of_control
timer_value-bounded_example = timer_value-bounded msrs 2 0 scaled
  where
    scaled : vmx_preemption_timer_scale msrs ≡ ok (some 2)
    scaled = refl

-- A vendor's state whose last VM-exit is for #UD at 0x1234.
abbrev vmx : Vmx.Vmx
vmx = record {
  vmxon_revision_id = 0;
  vmcs_revision_id = 0;
  vmcs = record zero_fields {
    control = record (zero_fields.control) { exception_bitmap = exception_bitmap };
    guest = record (zero_fields.guest) { rip = 0x1234 };
    ro = record (zero_fields.ro) { vmexit_interruption_info = 2 ^ 31 + 6 };
  };
  host_gdt = no_tables 0x6000;
  registers = zero_registers;
  launched = true;
  timer_scale = none;
}

vmx_exception-reported_example :
    (code : GuestException) × (exception_of_vector 6 ≡ some code)
    × (Vmx.after_run 2 vmx
        ≡ ok (Vmx.copy_registers vmx, exception (record { rip = 0x1234; exception_code = code })))
unfolding Vmx.vm_succeed
vmx_exception-reported_example =
    vmx_exception-reported 2 vmx 6 succeeded refl (omega arith) refl refl refl
  where
    succeeded : Vmx.vm_succeed 2 ≡ true
    succeeded = refl

initialize_from_current_lem_example :
    (t' : Tables) × (initialize_from_current
        (record {
          limit = 0x47;
          element = λ i. i;
          cs = 0x38;
          allocated = 0x9000;
          tss_descriptor = 0x8b00;
        })
        (no_tables 0x6000)
      ≡ ok t')
    × ((i : ℕ) → i < 9 → get_elem? t'.gdt i ≡ some i)
    × (get_elem? t'.gdt (t'.tr / 2 ^ 3) ≡ some 0x8b00)
    × (t'.tr ≢ 0)
    × (t'.tr % 2 ^ 3 ≡ 0)
    × (t'.gdtr_limit + 1 ≡ 8 * length t'.gdt)
initialize_from_current_lem_example =
    initialize_from_current_lem
      (record {
        limit = 0x47;
        element = λ i. i;
        cs = 0x38;
        allocated = 0x9000;
        tss_descriptor = 0x8b00;
      })
      (no_tables 0x6000) 9 refl (omega arith) (omega arith)

vmx_revert-captured_example :
    ((s' : Vmx.Vmx) × (Vmx.revert_registers vmx unread memory ≡ ok s')
      × (vmx_captured (Vmx.adjust_registers s' 0x7000 5) ≡ with_input unread.registers 0x7000 5)
      × (s'.vmcs.control ≡ vmx.vmcs.control)
      × (s'.vmcs.host ≡ vmx.vmcs.host)
      × (s'.vmcs.guest.vmx_preemption_timer_value
          ≡ timer_value vmx.timer_scale vmx.vmcs.guest.vmx_preemption_timer_value))
    ⊎ ((Vmx.revert_registers vmx unread memory ≡ panic)
        × (unread.page_count ≤ unread.registers.gdtr.base / 2 ^ 12))
vmx_revert-captured_example = vmx_revert-captured vmx unread memory 0x7000 5

-- A VMCB that `initialize` has set up, after a #VMEXIT for #PF.
abbrev svm : Svm.Svm
svm =
    let s = (Svm.initialize 0x1000 (Svm.new 0x8000) msrs).0 in
    record s {
      vmcb = record (s.vmcb) { control_area = record (s.vmcb.control_area) { exit_code = 0x4e } };
    }

svm_exception-reported_example :
    (code : GuestException) × (exception_of_vector 14 ≡ some code)
    × (Svm.after_run svm
        ≡ ok (
          Svm.copy_registers svm,
          exception (record { rip = svm.vmcb.state_save_area.rip; exception_code = code }),
        ))
unfolding Svm.initialize Svm.new
svm_exception-reported_example =
    svm_exception-reported 0x1000 (Svm.new 0x8000) msrs svm 14 refl (omega arith) refl refl

svm_revert-captured_example :
    ((s' : Svm.Svm) × (Svm.revert_registers msrs svm unread memory ≡ ok s')
      × (svm_captured (Svm.adjust_registers s' 0x7000 5) ≡ started unread.registers 0x7000 5)
      × ((Svm.adjust_registers s' 0x7000 5).vmcb.control_area ≡ svm.vmcb.control_area))
    ⊎ ((Svm.revert_registers msrs svm unread memory ≡ panic)
        × (unread.page_count ≤ unread.registers.gdtr.base / 2 ^ 12))
svm_revert-captured_example = svm_revert-captured msrs svm unread memory 0x7000 5
