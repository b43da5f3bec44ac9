-- ===== src/HardwareVt/Vmx.antt =====
-- hypervisor/src/hardware_vt/vmx.rs: VMX. The registers of the processor that are read are given by
-- their values, and VM-entry is left to the environment: `after_run` is `run` from the VM-exit on.
pub mod Vmcs
pub mod Controls
pub mod HostGdt
pub mod Guest
pub mod Exits
mod GuestState
unfoldable pub use GuestState.{guest_fields}
pub use GuestState.{timer_value}
use hypervisor_101_in_rust.Prelude.{
  ℕ, ◌+◌, ◌-◌, ◌*◌, ◌/◌, ◌%◌, ◌^◌, ◌<◌, ◌≡◌, refl, Bool, true, false, not, ◌&&◌, ◌||◌, Option, none,
  some, Exec, ok, panic, ◌>>=◌, ◌>>◌, assert, unwrap, ltb, ◌==◌, if◌then◌else◌, arith, bit_and,
  bit_or, update,
}
use hypervisor_101_in_rust.Config.{guest_exec_timeout_in_tsc}
use hypervisor_101_in_rust.Memory.{Memory}
use hypervisor_101_in_rust.Snapshot.{Snapshot, page_address}
use hypervisor_101_in_rust.Snapshot.Metadata.{SnapshotRegisters}
use hypervisor_101_in_rust.HardwareVt.{
  EntryType, rwx, rwx_write_back, rx_write_back, HardwareVt, IsLawful, VmExitReason,
  nested_page_fault, exception, timer_expiration, shutdown, unexpected, exception_of_vector,
  GuestRegisters, zero_registers, Msrs, exception_bitmap,
}
use hypervisor_101_in_rust.HardwareVt.Entry.{Flags}
use hypervisor_101_in_rust.HardwareVt.Segments.{vmx_access_right, get_segment_limit}
use Vmcs.{Fields, GuestFields, zero_fields}
use Controls.{
  pin_based, processor_based, processor_based2, vm_exit, vm_entry, adjust_vmx_control,
  ia32_vmx_basic, ia32_vmx_misc, ia32_feature_control, ia32_vmx_cr0_fixed0, ia32_vmx_cr0_fixed1,
}
use HostGdt.{Tables, Current, no_tables, initialize_from_current}

-- `Vmx`: of the two regions, the revision identifiers and the contents of the current VMCS.
pub record Vmx : Type 0 where
  pub vmxon_revision_id : ℕ
  pub vmcs_revision_id : ℕ
  pub vmcs : Fields
  pub host_gdt : Tables
  pub registers : GuestRegisters
  pub launched : Bool
  pub timer_scale : Option ℕ

abbrev pub activate_vmx_preemption_timer : ℕ
activate_vmx_preemption_timer = 2 ^ 6

-- `vmx_preemption_timer_scale`
unfoldable pub vmx_preemption_timer_scale : Msrs → Exec (Option ℕ)
vmx_preemption_timer_scale msrs = do
  control ← adjust_vmx_control msrs pin_based activate_vmx_preemption_timer
  ok (
      if control / activate_vmx_preemption_timer % 2 == 0
      then none
      else some (2 ^ (msrs ia32_vmx_misc % 2 ^ 5)))

-- `Vmx::new`, given the address of the allocation for the TSS.
unfoldable pub new : Msrs → (tss : ℕ) → Exec Vmx
unfolding vmx_preemption_timer_scale
new msrs tss = do
  scale ← vmx_preemption_timer_scale msrs
  ok (record {
    vmxon_revision_id = 0;
    vmcs_revision_id = 0;
    vmcs = zero_fields;
    host_gdt = no_tables tss;
    registers = zero_registers;
    launched = false;
    timer_scale = scale;
  })

-- What `enable` changes of the processor.
pub record Processor : Type 0 where
  pub msrs : Msrs
  pub cr0 : ℕ
  pub cr4 : ℕ

-- `adjust_feature_control_msr`
unfoldable pub adjust_feature_control_msr : Msrs → Msrs
adjust_feature_control_msr msrs =
    let feature_control = msrs ia32_feature_control in
    if feature_control % 2 == 0
    then update msrs ia32_feature_control (bit_or (bit_or feature_control (2 ^ 2)) (2 ^ 0))
    else msrs

-- `adjust_cr0`, where `truncate` is `Cr0::from_bits_truncate` of the crate x86.
unfoldable pub adjust_cr0 : (truncate : ℕ → ℕ) → Msrs → (cr0 : ℕ) → ℕ
adjust_cr0 truncate msrs cr0 =
    truncate (bit_or (bit_and cr0 (msrs ia32_vmx_cr0_fixed1)) (msrs ia32_vmx_cr0_fixed0))

-- `enable`; VMXON succeeds.
unfoldable pub enable : (truncate : ℕ → ℕ) → Vmx → Processor → Vmx × Processor
unfolding adjust_feature_control_msr adjust_cr0
enable truncate s p =
    let msrs = adjust_feature_control_msr p.msrs in
    (
      record s { vmxon_revision_id = msrs ia32_vmx_basic % 2 ^ 32 },
      record { msrs = msrs; cr0 = adjust_cr0 truncate msrs p.cr0; cr4 = bit_or p.cr4 (2 ^ 13) },
    )

-- The controls that `initialize` writes.
unfoldable pub write_controls : Msrs → (nested_pml4_addr : ℕ) → Vmx → Exec Vmx
write_controls msrs nested_pml4_addr s = do
  exit ← adjust_vmx_control msrs vm_exit (2 ^ 9)
  entry ← adjust_vmx_control msrs vm_entry (2 ^ 9)
  pin ← adjust_vmx_control msrs pin_based activate_vmx_preemption_timer
  primary ← adjust_vmx_control msrs processor_based (2 ^ 31)
  secondary ← adjust_vmx_control msrs processor_based2 (2 ^ 1)
  ok (record s {
    vmcs = record (s.vmcs) {
      control = record {
        vmexit_controls = exit;
        vmentry_controls = entry;
        pinbased_exec_controls = pin;
        primary_procbased_exec_controls = primary;
        secondary_procbased_exec_controls = secondary;
        eptp = bit_or (bit_or nested_pml4_addr (3 * 2 ^ 3)) 6;
        exception_bitmap = exception_bitmap;
      };
    };
  })

-- `initialize`, with the descriptor tables, the registers and the TSS descriptor of the processor.
unfoldable pub initialize :
    Processor → Current → (cr3 idtr_base nested_pml4_addr : ℕ) → Vmx → Exec Vmx
unfolding write_controls
initialize p current cr3 idtr_base nested_pml4_addr s = do
  tables ← initialize_from_current current s.host_gdt
  let s' = record s {
    vmcs_revision_id = s.vmxon_revision_id;
    host_gdt = tables;
    vmcs = record (s.vmcs) {
      host = record {
        cs_selector = tables.cs;
        tr_selector = tables.tr;
        cr0 = p.cr0;
        cr3 = cr3;
        cr4 = p.cr4;
        tr_base = tables.tss;
        gdtr_base = tables.gdtr_base;
        idtr_base = idtr_base;
      };
    };
  }
  write_controls p.msrs nested_pml4_addr s'

-- `revert_registers` on the address of the guest's GDT.
unfoldable pub load_snapshot : Memory → (gdt : ℕ) → SnapshotRegisters → Vmx → Vmx
unfolding guest_fields
load_snapshot mem gdt r s = record s {
  vmcs = record (s.vmcs) { guest = guest_fields mem gdt r s.timer_scale s.vmcs.guest };
  registers = record (s.registers) {
    rax = r.rax;
    rbx = r.rbx;
    rcx = r.rcx;
    rdx = r.rdx;
    rdi = r.rdi;
    rsi = r.rsi;
    rbp = r.rbp;
    r8 = r.r8;
    r9 = r.r9;
    r10 = r.r10;
    r11 = r.r11;
    r12 = r.r12;
    r13 = r.r13;
    r14 = r.r14;
    r15 = r.r15;
  };
}

-- `revert_registers`, which indexes the slice of the snapshot's pages.
unfoldable pub revert_registers : Vmx → Snapshot → Memory → Exec Vmx
unfolding load_snapshot
revert_registers s snapshot mem =
    let r = snapshot.registers in
    let gdt_pfn = r.gdtr.base / 2 ^ 12 in
    if ltb gdt_pfn snapshot.page_count
    then ok (load_snapshot mem (page_address snapshot gdt_pfn) r s)
    else panic

unfoldable pub adjust_registers : Vmx → (input_addr input_size : ℕ) → Vmx
adjust_registers s input_addr input_size = record s {
  registers = record (s.registers) { rdi = input_addr; rsi = input_size };
}

-- `vm_succeed`: bit 6 of RFLAGS is ZF, and bit 0 is CF.
unfoldable pub vm_succeed : (flags : ℕ) → Bool
vm_succeed flags =
    if not (flags / 2 ^ 6 % 2 == 0) then false else if not (flags % 2 == 0) then false else true

-- `invalidate_caches`, where `flags` is RFLAGS after INVEPT.
unfoldable pub invalidate_caches : (flags : ℕ) → Vmx → Exec Vmx
unfolding vm_succeed
invalidate_caches flags s = do assert (vm_succeed flags); ok s

-- `run` between the VM-exit and the `match`.
unfoldable pub copy_registers : Vmx → Vmx
copy_registers s =
    let guest = s.vmcs.guest in
    record s {
      launched = true;
      registers = record (s.registers) { rip = guest.rip; rsp = guest.rsp; rflags = guest.rflags };
    }

-- The `match` of `run`
unfoldable pub exit_reason : Vmx → Exec VmExitReason
exit_reason s =
    let ro = s.vmcs.ro in
    let basic = ro.exit_reason % 2 ^ 16 in
    if basic == 0
    then (unwrap (exception_of_vector (ro.vmexit_interruption_info % 2 ^ 8)) >>= λ code.
        ok (exception (record { rip = s.registers.rip; exception_code = code })))
    else if basic == 48
    then ok (
        nested_page_fault (record {
          rip = s.registers.rip;
          gpa = ro.guest_physical_addr;
          missing_translation = ro.exit_qualification / 2 ^ 3 % 2 ^ 3 == 0;
          write_access = not (ro.exit_qualification / 2 % 2 == 0);
        }))
    else if basic == 52
    then ok timer_expiration
    else if basic == 2
    then ok (shutdown ro.exit_reason)
    else ok (unexpected ro.exit_reason)

-- `run` on the state that the VM-exit leaves, where `flags` is RFLAGS after VM-entry.
unfoldable pub after_run : (flags : ℕ) → Vmx → Exec (Vmx × VmExitReason)
unfolding vm_succeed copy_registers exit_reason
after_run flags s = do
  assert (vm_succeed flags)
  let s' = copy_registers s
  reason ← exit_reason s'
  ok (s', reason)

-- `nps_entry_flags`
unfoldable pub nps_entry_flags : EntryType → Flags
nps_entry_flags rwx = record { permission = 7; memory_type = 0 }
nps_entry_flags rwx_write_back = record { permission = 7; memory_type = 6 }
nps_entry_flags rx_write_back = record { permission = 5; memory_type = 6 }

-- `impl HardwareVt for Vmx`, where `flags` is RFLAGS after INVEPT.
abbrev pub hardware_vt : (flags : ℕ) → HardwareVt Vmx
hardware_vt flags = record {
  nps_entry_flags = λ s type. nps_entry_flags type;
  invalidate_caches = invalidate_caches flags;
  revert_registers = revert_registers;
  adjust_registers = λ s input_addr input_size. ok (adjust_registers s input_addr input_size);
}

-- VMX is an implementation that `Vm` can rely on: its flags depend on the type alone, and make final
-- entries readable and executable, and writable if the type says so.
pub vmx-IsLawful : (flags : ℕ) → IsLawful (hardware_vt flags)
unfolding nps_entry_flags
vmx-IsLawful flags = record {
  stateless = λ s t type. refl;
  writable = λ s. refl;
  read_only = λ s. refl;
  type_fits = λ s type. fits type;
}
  where
    fits : (type : EntryType) → (nps_entry_flags type).memory_type < 8
    fits rwx = omega arith
    fits rwx_write_back = omega arith
    fits rx_write_back = omega arith
